-- ===== src/Harness/Session/Turn.antt =====
-- crates/localpilot-harness/src/session.rs: `run_turn`. Each round of its loop ends with another round
-- or with the turn.
use unshackled.Prelude.{
  ℕ, zero, suc, Bool, true, false, not, ◌&&◌, Option, none, some, List, [], ◌∷◌, ◌++◌,
  if◌then◌else◌,
}
use unshackled.Text.{Text, codes, join_with}
use unshackled.Core.Messages.{user, assistant, new, text_message, ToolCall, ContentBlock}
use unshackled.Core.Summary.{has_none}
use unshackled.Recovery.Detect.{
  BadOutputKind, repeated_token_loop, slash_flood, malformed_tool_call, malformed_structured_output,
  detect,
}
use unshackled.Recovery.Engine.{
  RecoveryDiagnostic, RecoveryEngine, is_degraded, record_bad_turn, record_clean_turn,
}
use unshackled.Harness.Compaction.Sizes.{estimate_tokens}
use unshackled.Harness.Compaction.Merge.{merge_consecutive_system}
use unshackled.Harness.Compaction.Plan.{CompactionResult}
use unshackled.Harness.Resume.Driver.{
  StopReason, done, cancelled, degraded, provider_error, debug_reason,
}
use unshackled.Harness.Session.{
  recovery_stored, ModelRequest, SessionConfig, Session, SessionEventKind, RuntimeEvent, HookEvent,
  Outside, debug_kind, debug_health, note, record_event, send, warn, notify,
}
use unshackled.Harness.Session.History.{
  append, into_synthetic, set_retrieval_context, compacted_history, try_overflow_retry,
}
use unshackled.Harness.Session.Open.{
  StreamOpen, streaming, failed, overflow, unfinished, open_stream,
}
use unshackled.Harness.Session.Stream.{
  Streamed, nothing_streamed, StreamEnd, complete, stream_failed, overflowed, stopped, read_stream,
}
use unshackled.Harness.Session.Calls.{invalid_tool_calls, kept_calls, assemble, tool_error_message}
use unshackled.Harness.Session.Execute.{run_calls}

abbrev pub repair_prompt : Text
repair_prompt =
    codes "Your previous response was unusable. Stop, and produce a clean, well-formed reply."

-- The locals of the loop beside the session.
pub record Locals : Type 0 where
  pub session : Session
  pub tools_enabled : Bool
  pub overflow_retried : Bool

-- How a round ends.
pub data Round : Type 0 where
  again : Locals → Round
  ended : StopReason → Session → Round

abbrev pub note_cancelled : StopReason → Session → Session
note_cancelled cancelled s = record_event SessionEventKind.cancelled s
note_cancelled _ s = s

unfoldable pub stop : StopReason → Session → Round
unfolding debug_reason
stop reason s = ended reason (
    send (RuntimeEvent.stopped reason) (
      notify (HookEvent.turn_ended reason) (
        record_event (SessionEventKind.turn_ended (debug_reason reason))
          (note_cancelled reason s))))

unfoldable pub admit : List Text → Session → Session
unfolding append
admit [] s = s
admit (t ∷ texts) s = admit texts (append (text_message user t) s)

abbrev pub is_degenerate : BadOutputKind → Bool
is_degenerate slash_flood = true
is_degenerate repeated_token_loop = true
is_degenerate _ = false

unfoldable pub note_bad : BadOutputKind → RecoveryDiagnostic → RecoveryEngine → Session → Session
unfolding debug_kind debug_health
note_bad kind diagnostic engine s = notify (HookEvent.recovery engine.health) (
    record_event
      (SessionEventKind.recovery_diagnostic (debug_kind kind) (debug_health engine.health))
      (send (RuntimeEvent.recovery engine.health)
        (note (recovery_stored diagnostic) (record s { recovery = engine }))))

module _ (outside : Outside) (config : SessionConfig) where
  abbrev pub on_retry : Locals → Session × Bool → Round
  on_retry l (s, true) = again (record l { session = s; overflow_retried = true })
  on_retry l (s, false) = stop provider_error s

  unfoldable pub on_overflow : Locals → Session → Round
  unfolding try_overflow_retry stop
  on_overflow l s = on_retry l (try_overflow_retry outside config l.overflow_retried s)

  -- A bad turn: the ladder, and the prompt for a repair.
  unfoldable pub recover : Locals → BadOutputKind → Session → Round
  unfolding record_bad_turn note_bad append stop
  recover l kind s =
      let (engine, diagnostic) = record_bad_turn s.recovery kind in
      let noted = note_bad kind diagnostic engine s in
      let without_tools = is_degenerate kind && l.tools_enabled in
      let warned =
        if without_tools
        then warn (codes "retrying the degenerate response without tool schemas") noted
        else noted in
      if is_degraded engine.health
      then stop degraded noted
      else again (record l {
        session =
            append (into_synthetic (codes "repair prompt") (text_message user repair_prompt))
              warned;
        tools_enabled = if without_tools then false else l.tools_enabled;
      })

  unfoldable pub answer_rejected : Text → List ToolCall → Session → Session
  unfolding tool_error_message append
  answer_rejected reason [] s = s
  answer_rejected reason (call ∷ calls) s =
      answer_rejected reason calls
        (append (tool_error_message call.id (codes "tool call rejected: " ++ reason)) s)

  abbrev pub append_content : List ContentBlock → Session → Session
  append_content [] s = s
  append_content (b ∷ bs) s = append (new assistant (b ∷ bs)) s

  abbrev pub reject_empty : Text → List ToolCall → Session → Session
  reject_empty reason [] s =
      append (into_synthetic (codes "tool call rejected") (text_message user reason)) s
  reject_empty reason (call ∷ calls) s = s

  abbrev pub after_calls : Locals → Session × Bool → Round
  after_calls l (s, true) = again (record l { session = s })
  after_calls l (s, false) = stop cancelled s

  -- The second check of the batch.
  abbrev pub recheck : Locals → List ToolCall → Session → Option Text → Round
  recheck l calls s none = after_calls l (run_calls outside calls s)
  recheck l calls s (some message) =
      let (engine, diagnostic) = record_bad_turn s.recovery malformed_tool_call in
      let noted =
        send (RuntimeEvent.recovery engine.health)
          (note (recovery_stored diagnostic) (record (warn message s) { recovery = engine })) in
      if is_degraded engine.health
      then stop degraded noted
      else again (record l {
        session = record noted { messages = noted.messages ++ text_message user message ∷ [] };
      })

  -- Behind the assistant's message.
  abbrev pub with_calls : Locals → List ToolCall → Session → Option Text → Round
  with_calls l calls s (some reason) = again (record l {
    session = reject_empty reason calls (answer_rejected reason calls (warn reason s));
  })
  with_calls l [] s none = stop done s
  with_calls l (call ∷ calls) s none =
      recheck l (call ∷ calls) s (invalid_tool_calls outside.parse_json (call ∷ calls))

  unfoldable pub accept : Locals → Streamed → Session → Round
  unfolding record_clean_turn invalid_tool_calls assemble append answer_rejected run_calls
      record_bad_turn stop
  accept l out s =
      let clean = record s { recovery = record_clean_turn s.recovery } in
      let rejection = invalid_tool_calls outside.parse_json out.calls in
      let calls = kept_calls rejection out.calls in
      with_calls l calls (append_content (assemble out.reasoning out.text calls) clean) rejection

  abbrev pub judge : Locals → Streamed → Session → Option BadOutputKind → Round
  judge l out s none = accept l out s
  judge l out s (some kind) = recover l kind s

  abbrev pub limit_message : Text
  limit_message =
      codes
        "discarding partial response because the provider hit the output token limit; increase provider max_tokens or ask for a shorter answer"

  abbrev pub unless_limited : Locals → Streamed → Session → Option BadOutputKind → Round
  unless_limited l out s bad =
      if out.output_limited then stop provider_error (warn limit_message s) else judge l out s bad

  unfoldable pub after_stream : Locals → Session × StreamEnd → Round
  unfolding on_overflow detect recover accept stop
  after_stream l (s, StreamEnd.cancelled) = stop cancelled s
  after_stream l (s, stopped) = stop provider_error s
  after_stream l (s, overflowed) = on_overflow l s
  after_stream l (s, stream_failed out) = unless_limited l out s (some malformed_structured_output)
  after_stream l (s, complete out) =
      unless_limited l out s (detect out.text (not (has_none out.calls)))

  unfoldable pub after_open : Locals → Session × StreamOpen → Round
  unfolding after_stream read_stream on_overflow stop
  after_open l (s, StreamOpen.cancelled) = stop cancelled s
  after_open l (s, failed) = stop provider_error s
  after_open l (s, overflow) = on_overflow l s
  after_open l (s, unfinished) = again (record l { session = s })
  after_open l (s, streaming items) = after_stream l (read_stream items nothing_streamed s)

  abbrev pub request_of : Bool → CompactionResult → ModelRequest
  request_of tools_enabled r = record {
    model = config.model;
    messages = merge_consecutive_system r.messages;
    tools = if tools_enabled then outside.tool_specs else [];
    reasoning_effort = config.reasoning_effort;
  }

  unfoldable pub announce : CompactionResult → Session → Session
  unfolding estimate_tokens
  announce r s = notify (HookEvent.turn_started config.model) (
      record_event (SessionEventKind.turn_started config.model) (
        send (RuntimeEvent.context_usage (estimate_tokens r.messages) config.context_token_limit)
          s))

  -- The request, from the compacted history on.
  unfoldable pub ask_provider : Locals → Session × CompactionResult → Round
  unfolding after_open open_stream announce
  ask_provider l (s, r) =
      after_open l (open_stream outside config (request_of l.tools_enabled r) (announce r s))

  unfoldable pub round : Locals → Round
  unfolding ask_provider compacted_history admit stop
  round l =
      if outside.is_cancelled l.session.log
      then stop cancelled l.session
      else ask_provider l
          (compacted_history outside config (admit (outside.drain l.session.log) l.session))

  abbrev pub next_round : (Locals → Round) → Round → Round
  next_round more (again l) = more l
  next_round more (ended reason s) = ended reason s

  -- At most so many rounds of the loop.
  unfoldable pub rounds : ℕ → Locals → Round
  unfolding round
  rounds zero l = again l
  rounds (suc n) l = next_round (rounds n) (round l)

  unfoldable pub start_turn : Text → Session → Locals
  unfolding set_retrieval_context append join_with
  start_turn user_input s =
      let retrieval = join_with (codes "\n") (outside.context_for s.log user_input) in
      let asked = append (text_message user user_input) (set_retrieval_context retrieval s) in
      record {
        session = record asked { last_quota = none; failures = [] };
        tools_enabled = true;
        overflow_retried = false;
      }

  unfoldable pub run_turn : ℕ → Text → Session → Round
  unfolding start_turn rounds
  run_turn n user_input s = rounds n (start_turn user_input s)
