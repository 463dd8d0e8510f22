-- ===== src/Net.antt =====
-- The networking helpers of core: core/include/server/core/net and core/src/net.
pub mod RetryBudget
pub mod CircuitBreaker
pub mod Dispatcher
