-- ===== src/Core.antt =====
-- The crate crates/localpilot-core: messages, tool calls and structured summaries.
pub mod Messages
pub mod Summary
