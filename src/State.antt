-- ===== src/State.antt =====
-- The instance registry of core/src/state and core/include/server/core/state.
pub mod InstanceRegistry
