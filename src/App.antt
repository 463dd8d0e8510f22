-- ===== src/App.antt =====
-- The process host of core/src/app and core/include/server/core/app.
pub mod AppHost
