-- ===== src/Cedar/Shell.antt =====
-- crates/policy/cedar/src/shell_parse.rs: the structured view of a shell command.
pub mod Tables
pub mod Words
pub mod Ansi
pub mod Node
pub mod Record
pub mod Walk
