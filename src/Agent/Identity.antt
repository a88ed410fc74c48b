-- ===== src/Agent/Identity.antt =====
-- internal/agent/state.go, enroll.go and prepare.go: the identity of the serve mode.
pub mod Defs
pub mod Laws
pub mod Restart
