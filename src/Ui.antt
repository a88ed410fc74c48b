-- ===== src/Ui.antt =====
-- internal/ui/server.go: the progress page.
pub mod Server
pub mod Sublist
pub mod Replay
