-- ===== src/Harness.antt =====
-- The crate crates/localpilot-harness: the rule engine, the steps of a plan and the worker.
pub mod Config
pub mod Verdicts
pub mod Rules
pub mod Worker
pub mod Progress
pub mod Compaction
pub mod Resume
pub mod Decisions
pub mod Session
