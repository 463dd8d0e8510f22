-- ===== src/Concurrent.antt =====
-- The queues between threads, of core/src/concurrent and core/include/server/core/concurrent.
pub mod Order
pub mod JobQueue
pub mod LockedQueue
pub mod TaskScheduler
