-- ===== src/Harness/Compaction.antt =====
-- crates/localpilot-harness/src/compaction.rs: trimming a conversation to a token limit.
pub mod Sizes
pub mod Parts
pub mod Trim
pub mod Pairs
pub mod Loops
pub mod History
pub mod Rest
pub mod Compact
pub mod Budget
pub mod Digest
pub mod Buckets
pub mod Plan
pub mod Swap
pub mod Merge
pub mod Answers
pub mod Every
pub mod Smart
