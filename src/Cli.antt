-- ===== src/Cli.antt =====
-- src/main.rs: the command line.
pub mod Host
pub mod Output
pub mod Run
pub mod Names
pub mod Files
pub mod Main
