-- ===== src/Recovery.antt =====
-- The crate crates/localpilot-recovery: detection of bad model output and the recovery ladder.
pub mod Detect
pub mod Monitor
pub mod Engine
