-- ===== src/Harness/Session/History.antt =====
-- crates/localpilot-harness/src/session.rs: the changes of the history, and its compaction.
use unshackled.Prelude.{
  ℕ, ◌+◌, ◌/◌, ◌%◌, ◌^◌, max, Bool, true, false, ◌||◌, Option, none, some, List, [], ◌∷◌, ◌++◌, any,
  ◌==◌, if◌then◌else◌,
}
use unshackled.Text.{Text, codes, text_eq, starts_with}
use unshackled.Core.Messages.{system, ContentBlock, text, Message, new, text_message}
use unshackled.Core.Summary.{StructuredSummary, has_none}
use unshackled.Harness.Compaction.Sizes.{estimate_tokens}
use unshackled.Harness.Compaction.Parts.{is_role}
use unshackled.Harness.Compaction.Plan.{
  CompactionMode, deterministic, smart_with_fallback, CompactionMetadata, CompactionResult,
  CompactionPlan, compact_plan,
}
use unshackled.Harness.Compaction.Swap.{apply_smart_digest, fall_back}
use unshackled.Harness.Session.{
  persisted, Act, SessionConfig, Session, SessionEventKind, HookEvent, nothing_to_summarize, as_str,
  Summarized, digest, fallback, Outside, origin_for, note, record_event, notify, warn,
}

abbrev pub u64_mod : ℕ
u64_mod = 2 ^ 64

abbrev pub bump : Session → Session
bump s = record s { history_generation = (s.history_generation + 1) % u64_mod }

unfoldable pub append : Message → Session → Session
unfolding origin_for
append m s =
    let logged = record_event (SessionEventKind.message (origin_for m) m) (note (persisted m) s) in
    bump (record logged { messages = s.messages ++ m ∷ [] })

abbrev pub into_synthetic : Text → Message → Message
into_synthetic why m = record m { metadata = record m.metadata { synthetic = some why } }

abbrev pub retrieval_context_marker : Text
retrieval_context_marker = codes "retrieval-context"

abbrev pub is_some_text : Option Text → Text → Bool
is_some_text none t = false
is_some_text (some s) t = text_eq s t

unfoldable pub is_retrieval : Message → Bool
is_retrieval m = is_some_text m.metadata.synthetic retrieval_context_marker

-- `retain` of the messages that are not marked.
unfoldable pub without_retrieval : List Message → List Message
unfolding is_retrieval
without_retrieval [] = []
without_retrieval (m ∷ ms) =
    let rest = without_retrieval ms in if is_retrieval m then rest else m ∷ rest

abbrev pub retrieval_block : Text → List Message
retrieval_block t =
    if has_none t then [] else into_synthetic retrieval_context_marker (text_message system t) ∷ []

unfoldable pub set_retrieval_context : Text → Session → Session
unfolding without_retrieval
set_retrieval_context t s =
    let later = record s { messages = without_retrieval s.messages ++ retrieval_block t } in
    if any is_retrieval s.messages || (if has_none t then false else true)
    then bump later
    else later

abbrev pub is_summary_text : ContentBlock → Bool
is_summary_text (text t) = starts_with (codes "Conversation summary for trimmed history:") t
is_summary_text _ = false

unfoldable pub is_compaction_summary : Message → Bool
is_compaction_summary m = any is_summary_text m.content

-- `take_while` of the system messages, less the summaries.
unfoldable pub leading_system : List Message → List Message
unfolding is_compaction_summary
leading_system [] = []
leading_system (m ∷ ms) =
    let rest = leading_system ms in
    if is_role system m then (if is_compaction_summary m then rest else m ∷ rest) else []

unfoldable pub clear_conversation : Session → Session
unfolding leading_system
clear_conversation s = bump (record s { messages = leading_system s.messages; last_quota = none })

unfoldable pub compaction_mode_label : CompactionMode → Text
compaction_mode_label deterministic = codes "deterministic"
compaction_mode_label smart_with_fallback = codes "smart_with_fallback"

unfoldable pub record_compaction_attempt : Text → CompactionMetadata → Session → Session
unfolding compaction_mode_label
record_compaction_attempt state m = record_event (
    SessionEventKind.compaction_attempt (compaction_mode_label m.requested_mode)
      (compaction_mode_label m.used_mode) state m)

abbrev pub record_summary : Option StructuredSummary → Session → Session
record_summary none s = s
record_summary (some summary) s = record_event (SessionEventKind.compacted summary) s

-- What is logged of a compaction.
unfoldable pub log_compaction : Text → CompactionResult → Session → Session
unfolding record_compaction_attempt
log_compaction state r s =
    notify HookEvent.compacted
      (record_compaction_attempt state r.metadata (record_summary r.summary s))

abbrev pub force_compact_floor : ℕ
force_compact_floor = 4096

module _ (outside : Outside) (config : SessionConfig) where
  abbrev pub requested_in : CompactionMode → CompactionResult → CompactionResult
  requested_in mode r = record r { metadata = record r.metadata { requested_mode = mode } }

  abbrev pub adopt : CompactionResult → List (List Message) → ℕ → Summarized → CompactionResult
  adopt r dropped token_limit (digest smart) = apply_smart_digest r dropped smart token_limit
  adopt r dropped token_limit (fallback reason) = fall_back r (as_str reason)

  -- `active_summarizer` is there in smart mode only.
  abbrev pub with_summarizer :
      CompactionMode → CompactionResult → CompactionPlan → ℕ → List Act → CompactionResult
  with_summarizer deterministic r plan token_limit log = r
  with_summarizer smart_with_fallback r plan token_limit log =
      if has_none plan.dropped
      then fall_back r (as_str nothing_to_summarize)
      else adopt r plan.dropped token_limit (outside.summarize log plan.dropped plan.carried)

  unfoldable pub compact_candidate : ℕ → Session → CompactionResult
  unfolding compact_plan apply_smart_digest as_str
  compact_candidate token_limit s =
      let plan = compact_plan outside.parse_json s.messages token_limit in
      let r = requested_in config.compaction_mode plan.result in
      if plan.result.compacted
      then with_summarizer config.compaction_mode r plan token_limit s.log
      else r

  abbrev pub fill_cache : CompactionResult → Session → Session × CompactionResult
  fill_cache r s =
      let logged = if r.compacted then log_compaction (codes "completed") r s else s in
      (record logged { compaction_cache = some (s.history_generation, r) }, r)

  abbrev pub cached :
      Option (ℕ × CompactionResult) → Session → CompactionResult → Session × CompactionResult
  cached none s fresh = fill_cache fresh s
  cached (some (generation, r)) s fresh =
      if generation == s.history_generation then (s, r) else fill_cache fresh s

  unfoldable pub compacted_history : Session → Session × CompactionResult
  unfolding compact_candidate log_compaction
  compacted_history s = cached s.compaction_cache s (compact_candidate config.context_token_limit s)

  unfoldable pub shrink_for_overflow : Session → Session
  unfolding compact_candidate log_compaction estimate_tokens
  shrink_for_overflow s =
      let target = max (estimate_tokens s.messages / 2) force_compact_floor in
      let r = compact_candidate target s in
      if r.compacted
      then bump (record (log_compaction (codes "overflow_retry") r s) {
        messages = r.messages;
        compaction_cache = none;
      })
      else s

  -- Whether a retry follows, which it does once.
  unfoldable pub try_overflow_retry : Bool → Session → Session × Bool
  unfolding shrink_for_overflow
  try_overflow_retry true s =
      (warn (codes "provider rejected the request as too large again; stopping the turn") s, false)
  try_overflow_retry false s = (
    shrink_for_overflow
        (warn (codes "provider rejected the request as too large; compacting and retrying once") s),
    true,
  )

  pub record ManualCompaction : Type 0 where
    pub was_compacted : Bool
    pub context_used : ℕ
    pub context_limit : ℕ
    pub requested_mode : CompactionMode
    pub used_mode : CompactionMode
    pub fallback_reason : Option Text

  abbrev pub manual_of : CompactionResult → ManualCompaction
  manual_of r = record {
    was_compacted = r.compacted;
    context_used = estimate_tokens r.messages;
    context_limit = config.context_token_limit;
    requested_mode = r.metadata.requested_mode;
    used_mode = r.metadata.used_mode;
    fallback_reason = r.metadata.fallback_reason;
  }

  abbrev pub adopt_history : Session × CompactionResult → Session × ManualCompaction
  adopt_history (s, r) = (bump (record s { messages = r.messages }), manual_of r)

  unfoldable pub compact_conversation : Session → Session × ManualCompaction
  unfolding compacted_history estimate_tokens
  compact_conversation s = adopt_history (compacted_history s)

  unfoldable pub compact_conversation_force : Session → Session × ManualCompaction
  unfolding compact_candidate log_compaction estimate_tokens
  compact_conversation_force s =
      let r = compact_candidate (max (config.context_token_limit / 2) force_compact_floor) s in
      let logged = if r.compacted then log_compaction (codes "completed") r s else s in
      adopt_history (record logged { compaction_cache = none }, r)

unfoldable pub seed_system : Text → Session → Session
unfolding append
seed_system t = append (new system (text t ∷ []))
