-- ===== src/Cli.antt =====
-- crates/hw-cli: the view that is printed, and the exit code.
pub mod View
pub mod Exit
