-- ===== src/Harness/Session.antt =====
-- crates/localpilot-harness/src/session.rs: the state of a session, what a turn asks of the outside,
-- and what it does, in order. Of localpilot-llm, localpilot-store and hooks.rs the events are here.
use unshackled.Prelude.{ℕ, Bool, Option, none, some, List, [], ◌∷◌, ◌++◌, if◌then◌else◌}
use unshackled.Text.{Text, codes}
use unshackled.Text.Decimal.{decimal}
use unshackled.Core.Messages.{
  Role, system, user, assistant, tool, user_shell, Message, ToolCall, ToolResult,
}
use unshackled.Core.Summary.{StructuredSummary}
use unshackled.Llm.Errors.{QuotaInfo, ProviderError}
pub use unshackled.Llm.Events.{
  TokenUsage, ModelEvent, text_delta, reasoning_delta, tool_call, provider_warning, finished,
}
use unshackled.Recovery.Detect.{
  BadOutputKind, empty_turn, repeated_token_loop, slash_flood, malformed_tool_call,
  malformed_structured_output, repeated_transient_error,
}
use unshackled.Recovery.Engine.{
  ModelHealth, healthy, recovering, degraded, RecoveryDiagnostic, RecoveryEngine,
}
use unshackled.Harness.Compaction.Plan.{
  CompactionMode, deterministic, smart_with_fallback, CompactionMetadata, CompactionResult,
}
use unshackled.Harness.Compaction.Digest.{Json}
use unshackled.Harness.Resume.Driver.{StopReason}
pub mod History
pub mod Open
pub mod Stream
pub mod Calls
pub mod Execute
pub mod Turn
pub mod Fair
pub mod Sound
pub mod Batch
pub mod Ends
pub mod Accept
pub mod Kept
pub mod Cancelled
pub mod Recoveries
pub mod Ending
pub mod Opening
pub mod Failures
pub mod Cache
pub mod Registry

pub data ReasoningEffort : Type 0 where
  minimal low medium high : ReasoningEffort

pub record ToolSpec : Type 0 where
  pub name : Text
  pub description : Text
  pub input_schema : Text

pub record ModelRequest : Type 0 where
  pub model : Text
  pub messages : List Message
  pub tools : List ToolSpec
  pub reasoning_effort : Option ReasoningEffort

pub data MessageOrigin : Type 0 where
  user_input from_assistant from_tool from_system shell : MessageOrigin
  synthetic : Text → MessageOrigin

abbrev pub origin_of : Role → MessageOrigin
origin_of user = user_input
origin_of assistant = from_assistant
origin_of tool = from_tool
origin_of system = from_system
origin_of user_shell = shell

abbrev pub origin_or : Option Text → Role → MessageOrigin
origin_or (some why) role = synthetic why
origin_or none role = origin_of role

unfoldable pub origin_for : Message → MessageOrigin
origin_for m = origin_or m.metadata.synthetic m.role

-- The kinds of event that a turn writes to the log of the session.
pub data SessionEventKind : Type 0 where
  message : MessageOrigin → Message → SessionEventKind
  turn_started turn_ended quota_paused : Text → SessionEventKind
  usage_reported : ℕ → ℕ → SessionEventKind
  tool_started : Text → Text → SessionEventKind
  tool_finished : Text → Text → Bool → SessionEventKind
  recovery_diagnostic : Text → Text → SessionEventKind
  compacted : StructuredSummary → SessionEventKind
  compaction_attempt : Text → Text → Text → CompactionMetadata → SessionEventKind
  cancelled : SessionEventKind

pub record PlanStep : Type 0 where
  pub title : Text
  pub status : Text

pub data RuntimeEvent : Type 0 where
  text reasoning warning quota_paused : Text → RuntimeEvent
  tool_started : Text → Text → RuntimeEvent
  tool_finished : Text → Text → Bool → Text → RuntimeEvent
  usage : TokenUsage → RuntimeEvent
  context_usage : ℕ → ℕ → RuntimeEvent
  plan : List PlanStep → RuntimeEvent
  recovery : ModelHealth → RuntimeEvent
  tool_stuck : Text → ℕ → RuntimeEvent
  stopped : StopReason → RuntimeEvent

pub data HookEvent : Type 0 where
  turn_started quota_paused : Text → HookEvent
  turn_ended : StopReason → HookEvent
  tool_started : Text → Text → HookEvent
  tool_finished : Text → Text → Bool → HookEvent
  compacted : HookEvent
  recovery : ModelHealth → HookEvent

-- What a turn does, in order: it writes to the store, sends to the interface, tells the hooks, asks
-- the provider, waits, and runs a tool.
pub data Act : Type 0 where
  recorded : SessionEventKind → Act
  sent : RuntimeEvent → Act
  notified : HookEvent → Act
  persisted : Message → Act
  recovery_stored : RecoveryDiagnostic → Act
  requested : ModelRequest → Act
  slept : ℕ → Act
  dispatched : ToolCall → Act

pub record SessionConfig : Type 0 where
  pub model : Text
  pub context_token_limit : ℕ
  pub reasoning_effort : Option ReasoningEffort
  pub max_stream_retries : ℕ
  pub compaction_mode : CompactionMode

-- `log` is what was done, latest first; `failures` is the map of the `ToolFailureGuard`.
pub record Session : Type 0 where
  pub messages : List Message
  pub recovery : RecoveryEngine
  pub last_quota : Option QuotaInfo
  pub history_generation : ℕ
  pub compaction_cache : Option (ℕ × CompactionResult)
  pub failures : List (Text × ℕ)
  pub log : List Act

pub data FallbackReason : Type 0 where
  disabled nothing_to_summarize timeout cancelled provider_error : FallbackReason
  output_limit malformed empty over_budget unsupported : FallbackReason

unfoldable pub as_str : FallbackReason → Text
as_str disabled = codes "smart summarizer disabled"
as_str nothing_to_summarize = codes "nothing trimmed to summarize"
as_str timeout = codes "smart summarizer timed out"
as_str cancelled = codes "cancelled"
as_str provider_error = codes "smart summarizer provider error"
as_str output_limit = codes "smart summarizer hit output limit"
as_str malformed = codes "smart summary was malformed"
as_str empty = codes "smart summary was empty"
as_str over_budget = codes "smart summary exceeded budget"
as_str unsupported = codes "smart summary failed self-check"

pub data Summarized : Type 0 where
  digest : StructuredSummary → Summarized
  fallback : FallbackReason → Summarized

-- What comes next of a stream, unless it ends: an event, an error, or the user's cancellation.
pub data StreamItem : Type 0 where
  event : ModelEvent → StreamItem
  broken : ProviderError → StreamItem
  cut : StreamItem

pub data Opened : Type 0 where
  opened : List StreamItem → Opened
  refused : ProviderError → Opened

-- The answers of the outside: each may depend on all that was done before. Of a tool there is no
-- answer if the user cancels first.
pub record Outside : Type 0 where
  pub is_cancelled : List Act → Bool
  pub drain : List Act → List Text
  pub context_for : List Act → Text → List Text
  pub stream : List Act → Opened
  pub backoff_cancelled : List Act → Bool
  pub summarize : List Act → List (List Message) → List Text → Summarized
  pub dispatch : List Act → ToolCall → Option ToolResult
  pub tool_specs : List ToolSpec
  pub parse_json : Text → Json

unfoldable pub debug_kind : BadOutputKind → Text
debug_kind empty_turn = codes "EmptyTurn"
debug_kind repeated_token_loop = codes "RepeatedTokenLoop"
debug_kind slash_flood = codes "SlashFlood"
debug_kind malformed_tool_call = codes "MalformedToolCall"
debug_kind malformed_structured_output = codes "MalformedStructuredOutput"
debug_kind repeated_transient_error = codes "RepeatedTransientError"

unfoldable pub debug_health : ModelHealth → Text
debug_health healthy = codes "Healthy"
debug_health recovering = codes "Recovering"
debug_health degraded = codes "Degraded"

abbrev pub note : Act → Session → Session
note a s = record s { log = a ∷ s.log }

abbrev pub record_event : SessionEventKind → Session → Session
record_event kind = note (recorded kind)

abbrev pub send : RuntimeEvent → Session → Session
send e = note (sent e)

abbrev pub warn : Text → Session → Session
warn t = send (warning t)

abbrev pub notify : HookEvent → Session → Session
notify e = note (notified e)
