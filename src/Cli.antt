-- ===== src/Cli.antt =====
-- crates/gylo-cli/src/main.rs: what the command line does with the job table.
pub mod Prune
pub mod Show
pub mod Start
mod Tests
