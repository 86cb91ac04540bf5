-- ===== src/Server.antt =====
-- cmd/server/main.go: the start of the server, and how it puts the components together.
pub mod Connection
pub mod Assembly
pub mod Application
pub mod Routes
pub mod Main
pub mod Middleware
pub mod Health
