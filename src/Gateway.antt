-- ===== src/Gateway.antt =====
-- The header-only policies of the gateway: gateway/include/gateway.
pub mod SequencedMetrics
pub mod AbuseGuard
pub mod SessionDirectory
pub mod Routing
pub mod RudpRolloutPolicy
pub mod UdpBind
pub mod Datagrams
pub mod BackendConnection
