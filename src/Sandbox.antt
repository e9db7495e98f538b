-- ===== src/Sandbox.antt =====
-- The crate crates/localpilot-sandbox: command classes, secret paths, the workspace boundary and
-- the permission engine.
pub mod Command
pub mod SecretPath
pub mod Workspace
pub mod Permission
