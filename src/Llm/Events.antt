-- ===== src/Llm/Events.antt =====
-- crates/localpilot-llm/src/event.rs, the events of a stream, and the usage of tokens of
-- crates/localpilot-core/src/usage.rs.
use unshackled.Prelude.{ℕ}
use unshackled.Text.{Text}
use unshackled.Core.Messages.{ToolCall}

pub record TokenUsage : Type 0 where
  pub input_tokens : ℕ
  pub output_tokens : ℕ

pub data ModelEvent : Type 0 where
  text_delta reasoning_delta : Text → ModelEvent
  tool_call : ToolCall → ModelEvent
  usage : TokenUsage → ModelEvent
  provider_warning output_limit : Text → ModelEvent
  finished : ModelEvent
