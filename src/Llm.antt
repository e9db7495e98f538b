-- ===== src/Llm.antt =====
-- The crate crates/localpilot-llm: the events and errors of a provider, the filter of its
-- inline reasoning and the retries of a request.
pub mod Errors
pub mod Retry
pub mod Events
pub mod Thinking
