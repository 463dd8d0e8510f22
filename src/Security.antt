-- ===== src/Security.antt =====
-- The security parts of core: the signed commands of the administrators.
pub mod AdminCommandAuth
