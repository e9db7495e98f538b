-- ===== src/Harness/Session/Kept.antt =====
-- crates/localpilot-harness/src/session.rs: the contract on tools through `run_turn`.
use unshackled.Prelude.{
  ℕ, zero, suc, ◌≡◌, refl, ◌∙◌, Bool, true, false, not, some, [], Bool-cases, inl, inr,
}
use unshackled.Text.{Text, codes, join_with}
use unshackled.Core.Messages.{no_metadata}
use unshackled.Core.Summary.{has_none}
use unshackled.Recovery.Detect.{malformed_structured_output, detect}
use unshackled.Harness.Compaction.Merge.{merge_consecutive_system-lem}
use unshackled.Harness.Compaction.Answers.{merge_consecutive_system-is_answered}
use unshackled.Harness.Compaction.Plan.{deterministic, CompactionResult}
use unshackled.Harness.Resume.Driver.{cancelled, provider_error}
use unshackled.Harness.Session.{SessionConfig, Session, Outside, recorded, sent, notified}
use unshackled.Harness.Session.History.{is_retrieval, set_retrieval_context, compacted_history}
use unshackled.Harness.Session.Open.{
  StreamOpen, streaming, failed, overflow, unfinished, open_stream,
}
use unshackled.Harness.Session.Stream.{
  nothing_streamed, StreamEnd, complete, stream_failed, overflowed, stopped, read_stream,
}
use unshackled.Harness.Session.Turn.{
  Locals, Round, again, ended, admit, on_retry, on_overflow, after_stream, after_open, request_of,
  announce, ask_provider, round, next_round, rounds, start_turn, run_turn,
}
use unshackled.Harness.Session.Fair.{IsFair}
use unshackled.Harness.Session.Sound.{
  IsFairRequest, Sound, Sounds-logged, append-user, set_retrieval_context-Sound,
  compacted_history-Sound, try_overflow_retry-Sound,
}
use unshackled.Harness.Session.Batch.{open_stream-Sound, read_stream-Sound, Answering}
use unshackled.Harness.Session.Ends.{IsKept, stop-IsKept, admit-Sound}
use unshackled.Harness.Session.Accept.{unless_limited-IsKept}

module _ (outside : Outside) (config : SessionConfig)
    (simple : config.compaction_mode ≡ deterministic) (faithful : Answering outside) where
  on_retry-IsKept :
      (l : Locals) (r : Session × Bool) → Sound [] r.0 → IsKept (on_retry outside config l r)
  on_retry-IsKept l (s, true) h = h
  on_retry-IsKept l (s, false) h = stop-IsKept provider_error s h

  on_overflow-IsKept :
      (l : Locals) (s : Session) → Sound [] s → IsKept (on_overflow outside config l s)
  unfolding on_overflow
  on_overflow-IsKept l s h =
      on_retry-IsKept l _ (try_overflow_retry-Sound outside config simple l.overflow_retried s h)

  after_stream-IsKept :
      (l : Locals) (r : Session × StreamEnd)
      → Sound [] r.0
      → IsKept (after_stream outside config l r)
  unfolding after_stream
  after_stream-IsKept l (s, StreamEnd.cancelled) h = stop-IsKept cancelled s h
  after_stream-IsKept l (s, stopped) h = stop-IsKept provider_error s h
  after_stream-IsKept l (s, overflowed) h = on_overflow-IsKept l s h
  after_stream-IsKept l (s, stream_failed out) h =
      unless_limited-IsKept outside config faithful l out s (some malformed_structured_output) h
  after_stream-IsKept l (s, complete out) h =
      unless_limited-IsKept outside config faithful l out s
        (detect out.text (not (has_none out.calls))) h

  after_open-IsKept :
      (l : Locals) (r : Session × StreamOpen)
      → Sound [] r.0
      → IsKept (after_open outside config l r)
  unfolding after_open
  after_open-IsKept l (s, StreamOpen.cancelled) h = stop-IsKept cancelled s h
  after_open-IsKept l (s, failed) h = stop-IsKept provider_error s h
  after_open-IsKept l (s, overflow) h = on_overflow-IsKept l s h
  after_open-IsKept l (s, unfinished) h = h
  after_open-IsKept l (s, streaming items) h =
      after_stream-IsKept l (read_stream items nothing_streamed s)
        (read_stream-Sound items nothing_streamed s h)

  request_of-IsFairRequest :
      (b : Bool) (r : CompactionResult)
      → IsFair r.messages
      → IsFairRequest (request_of outside config b r)
  request_of-IsFairRequest b r h = (
    (merge_consecutive_system-lem r.messages).2 ∙ h.paired,
    merge_consecutive_system-is_answered r.messages ∙ h.answered,
  )

  announce-Sound :
      (r : CompactionResult) (s : Session) → Sound [] s → Sound [] (announce outside config r s)
  unfolding announce
  announce-Sound r s h =
      Sounds-logged (notified _) tt (Sounds-logged (recorded _) tt (Sounds-logged (sent _) tt h))

  ask_provider-IsKept :
      (l : Locals) (r : Session × CompactionResult)
      → Sound [] r.0
      → IsFair r.1.messages
      → IsKept (ask_provider outside config l r)
  unfolding ask_provider
  ask_provider-IsKept l (s, r) h f =
      let request = request_of outside config l.tools_enabled r in
      let told = announce outside config r s in
      after_open-IsKept l (open_stream outside config request told) (
        open_stream-Sound outside config request told (request_of-IsFairRequest l.tools_enabled r f)
          (announce-Sound r s h))

  round-IsKept : (l : Locals) → Sound [] l.session → IsKept (round outside config l)
  unfolding round
  round-IsKept l h = elim (Bool-cases (outside.is_cancelled l.session.log)) [
    | inl y ↦ rw y (stop-IsKept cancelled l.session h)
    | inr n ↦
        let admitted = admit (outside.drain l.session.log) l.session in
        let (s, f) =
          compacted_history-Sound outside config simple admitted
            (admit-Sound (outside.drain l.session.log) l.session h) in
        rw n (ask_provider-IsKept l (compacted_history outside config admitted) s f)
  ]

  next_round-IsKept :
      (more : Locals → Round) (r : Round)
      → ((l : Locals) → Sound [] l.session → IsKept (more l))
      → IsKept r
      → IsKept (next_round outside config more r)
  next_round-IsKept more (again l) f h = f l h
  next_round-IsKept more (ended reason s) f h = h

  rounds-IsKept : (n : ℕ) (l : Locals) → Sound [] l.session → IsKept (rounds outside config n l)
  unfolding rounds
  rounds-IsKept zero l h = h
  rounds-IsKept (suc n) l h =
      next_round-IsKept (rounds outside config n) (round outside config l)
        (λ later k. rounds-IsKept n later k) (round-IsKept l h)

-- Given that the compaction is deterministic and that each result carries the id of the call that it
-- was asked for: from a session in which no call is without its result, after any number of rounds,
-- a turn has sent only requests in which every result answers an open call and every call is
-- answered before the next turn, and its history is the same; and so it is when the turn has ended,
-- unless the user cancelled it, which may leave calls of the last message without their results.
pub run_turn-IsKept :
    (outside : Outside) (config : SessionConfig) (n : ℕ) (user_input : Text) (s : Session)
    → config.compaction_mode ≡ deterministic
    → Answering outside
    → Sound [] s
    → IsKept (run_turn outside config n user_input s)
unfolding run_turn start_turn
run_turn-IsKept outside config n user_input s simple faithful h =
    rounds-IsKept outside config simple faithful n (start_turn outside config user_input s) (
      append-user no_metadata user_input
        (set_retrieval_context (join_with (codes "\n") (outside.context_for s.log user_input)) s)
        (unfold is_retrieval in refl)
        (set_retrieval_context-Sound (join_with (codes "\n") (outside.context_for s.log user_input))
          s h))
