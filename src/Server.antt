-- ===== src/Server.antt =====
-- internal/server/server.go: the HTTP interface to the graph.
mod Tests
pub mod Page
pub mod Query
pub mod Handlers
pub mod Health
