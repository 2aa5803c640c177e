-- ===== src/Cli.antt =====
-- cmd/kbeaconctl: the command line tool.
pub mod Document
pub mod Index
pub mod Diff
pub mod Include
pub mod Settings
pub mod Usage
pub mod Render
pub mod Run
pub mod Export
pub mod Report
pub mod ConfigFile
pub mod Commands
mod Tests
