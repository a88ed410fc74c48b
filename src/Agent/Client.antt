-- ===== src/Agent/Client.antt =====
-- internal/agent/client.go: the requests of the device protocol, with their retries and the spool of
-- unsent logs and results.
pub mod Post
pub mod Spool
pub mod Calls
pub mod Retry
pub mod Durable
pub mod Report
pub mod Fence
