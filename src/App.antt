-- ===== src/App.antt =====
-- internal/app/run.go: one scan, from the identity of the host to the saved state.
pub mod Budget
pub mod Trimmed
pub mod Largest
pub mod Identity
pub mod Scan
pub mod Saved
pub mod Local
