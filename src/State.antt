-- ===== src/State.antt =====
-- internal/state: the fingerprints of the last scan, and what has changed since.
pub mod Delta
pub mod Patch
pub mod Unchanged
pub mod Storage
