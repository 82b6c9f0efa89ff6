-- ===== src/Config.antt =====
-- internal/config/server.go, and how cmd/termcall-server/main.go uses it.
pub mod Values
pub mod EnvFile
pub mod Server
pub mod Load
mod Tests
