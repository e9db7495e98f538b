-- ===== src/Sandbox/Command/Class.antt =====
-- `CommandClass` of crates/localpilot-sandbox/src/command.rs.
pub data CommandClass : Type 0 where
  read_only project_write external_write network destructive privileged unknown : CommandClass
