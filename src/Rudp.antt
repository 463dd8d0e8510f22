-- ===== src/Rudp.antt =====
-- The reliable-UDP engine of core: core/include/server/core/net/rudp and core/src/net/rudp.
pub mod AckWindow
pub mod Retransmission
pub mod Packet
pub mod Reliability
pub mod Rtt
pub mod Engine
