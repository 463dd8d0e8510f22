-- ===== src/Protocol.antt =====
-- The wire protocol of core: core/include/server/core/protocol.
pub mod Bytes
pub mod Packet
