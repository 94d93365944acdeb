-- ===== src/Cli.antt =====
-- crates/slice-cli/src/main.rs: the arguments of the commands, and the commands that read a profile.
pub mod Arguments
pub mod Commands
pub mod View
pub mod Summary
pub mod Discover
pub mod Doctor
pub mod Symbols
pub mod Write
pub mod Launch
pub mod Output
