-- ===== src/Config.antt =====
-- internal/config/config.go: the configuration of the agent.
pub mod Types
pub mod Csv
pub mod Load
mod Tests
