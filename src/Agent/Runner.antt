-- ===== src/Agent/Runner.antt =====
-- internal/agent/runner.go: the execution of one job.
pub mod Stream
pub mod Account
pub mod Log
pub mod Numbering
pub mod Calls
