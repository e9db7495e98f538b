-- ===== src/Sandbox/Command.antt =====
-- crates/localpilot-sandbox/src/command.rs: the risk class of a command.
pub mod Class
pub mod Programs
pub mod Git
pub mod Shells
pub mod Classify
pub mod Case
pub mod Safety
