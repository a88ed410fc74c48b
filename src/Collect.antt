-- ===== src/Collect.antt =====
-- internal/collect/collect.go: the plan of the collectors and its run.
pub mod Defs
pub mod Laws
