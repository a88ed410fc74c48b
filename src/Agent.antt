-- ===== src/Agent.antt =====
-- internal/agent: the serve mode of the device agent.
pub mod Key
pub mod ServeConfig
pub mod Identity
pub mod Runner
pub mod Client
pub mod Loop
pub mod Hints
pub mod Socket
