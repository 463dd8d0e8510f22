-- ===== src/Tests.antt =====
-- The theorems at concrete inputs.
mod Protocol
mod Rudp
mod Services
mod Core
mod Platform
mod Gateway
