-- ===== src/Agent/Loop.antt =====
-- internal/agent/runner.go (`Run`) and loop.go: from a claimed job to its report, and
-- the heartbeats beside it.
pub mod Defs
pub mod Laws
pub mod Silence
pub mod Cancel
pub mod Race
pub mod Turn
