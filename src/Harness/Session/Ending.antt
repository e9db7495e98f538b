-- ===== src/Harness/Session/Ending.antt =====
-- crates/localpilot-harness/src/session.rs: a turn in which the model calls no tools comes to an end.
use unshackled.Prelude.{
  ℕ, zero, suc, ◌+◌, ◌-◌, ◌%◌, ◌≤◌, ◌<◌, ◌≡◌, refl, ◌∙◌, Bool, true, false, not, ◌&&◌, Option, none,
  some, List, [], arith, if◌then◌else◌, Bool-cases, inl, inr,
}
use unshackled.Text.{Text, codes, join_with}
use unshackled.Core.Summary.{has_none}
use unshackled.Recovery.Detect.{BadOutputKind, malformed_structured_output, detect}
use unshackled.Recovery.Engine.{RecoveryEngine, is_degraded, record_bad_turn, u32_mod}
use unshackled.Harness.Compaction.Plan.{CompactionResult}
use unshackled.Harness.Resume.Driver.{StopReason}
use unshackled.Harness.Session.{Act, SessionConfig, Session, Outside, warn}
use unshackled.Harness.Session.History.{
  append, set_retrieval_context, compacted_history, try_overflow_retry,
}
use unshackled.Harness.Session.Open.{
  StreamOpen, streaming, failed, overflow, unfinished, open_stream,
}
use unshackled.Harness.Session.Stream.{
  Streamed, nothing_streamed, StreamEnd, complete, stream_failed, overflowed, stopped, read_stream,
}
use unshackled.Harness.Session.Turn.{
  Locals, Round, again, ended, stop, admit, note_bad, on_retry, on_overflow, recover, accept, judge,
  unless_limited, after_stream, after_open, request_of, announce, ask_provider, round, next_round,
  rounds, start_turn, run_turn, is_degenerate, limit_message,
}
use unshackled.Harness.Session.Recoveries.{
  admit-recovery, compacted_history-recovery, try_overflow_retry-recovery, IsSilentOpened, IsQuiet,
  open_stream-IsQuiet, IsQuietEnd, read_stream-IsQuietEnd,
}

abbrev retry_left : Bool → ℕ
retry_left true = 0
retry_left false = 1

-- How many rounds may still follow: the repairs that are left, and the retry on an overflow.
abbrev rounds_left : RecoveryEngine → Bool → ℕ
rounds_left e retried = e.budget.max_repair_attempts + 1 - e.attempts + retry_left retried

-- The counter does not wrap before the ladder is at its end.
abbrev IsSmall : RecoveryEngine → Type 0
IsSmall e = (e.attempts + 1 < u32_mod) × (e.budget.max_repair_attempts + 1 < u32_mod)

-- The turn ends, or another round follows with fewer left.
abbrev Falls : ℕ → Round → Type 0
Falls left (ended reason s) = Unit {0}
Falls left (again l) =
    IsSmall l.session.recovery × (rounds_left l.session.recovery l.overflow_retried < left)

-- The loop was left.
abbrev pub IsEnded : Round → Type 0
IsEnded (ended reason s) = Unit {0}
IsEnded (again l) = ⊥

stop-Falls : (left : ℕ) (reason : StopReason) (s : Session) → Falls left (stop reason s)
unfolding stop
stop-Falls left reason s = tt

either-Falls :
    (left : ℕ) (b : Bool) (x y : Round)
    → Falls left x
    → Falls left y
    → Falls left (if b then x else y)
either-Falls left true x y hx hy = hx
either-Falls left false x y hx hy = hy

-- A bad turn from which the model is not degraded takes one of the repairs.
bad_turn-falls :
    (e : RecoveryEngine) (kind : BadOutputKind) (retried : Bool)
    → IsSmall e
    → is_degraded (record_bad_turn e kind).0.health ≡ false
    → IsSmall (record_bad_turn e kind).0
      × (rounds_left (record_bad_turn e kind).0 retried < rounds_left e retried)
unfolding record_bad_turn
bad_turn-falls e kind retried small h = within (retry_left retried)
  where
    same : (e.attempts + 1) % u32_mod ≡ e.attempts + 1
    same = omega (arith, small.0)

    may_go_on : (e.attempts + 1) % u32_mod ≤ e.budget.max_repair_attempts
    may_go_on = ground (arith, h)

    within :
        (r : ℕ)
        → (((e.attempts + 1) % u32_mod + 1 < u32_mod)
            × (e.budget.max_repair_attempts + 1 < u32_mod))
          × (e.budget.max_repair_attempts + 1 - (e.attempts + 1) % u32_mod + r
              < e.budget.max_repair_attempts + 1 - e.attempts + r)
    within r = omega (arith, same, may_go_on, small.0, small.1)

module _ (outside : Outside) (config : SessionConfig) where
  recover-Falls :
      (l : Locals) (kind : BadOutputKind) (s : Session)
      → IsSmall s.recovery
      → Falls (rounds_left s.recovery l.overflow_retried) (recover outside config l kind s)
  unfolding recover
  recover-Falls l kind s small =
      let (e, d) = record_bad_turn s.recovery kind in
      elim (Bool-cases (is_degraded e.health)) [
        | inl y ↦ rw y (stop-Falls 0 StopReason.degraded (note_bad kind d e s))
        | inr n ↦
            let falls = bad_turn-falls s.recovery kind l.overflow_retried small n in
            elim (Bool-cases (is_degenerate kind && l.tools_enabled)) [
              | inl y ↦ rw (n, y) falls
              | inr m ↦ rw (n, m) falls
            ]
      ]

  -- With no calls the turn is done.
  accept-Falls :
      (left : ℕ) (l : Locals) (out : Streamed) (s : Session)
      → out.calls ≡ []
      → Falls left (accept outside config l out s)
  unfolding accept
  accept-Falls left l out s e = rw e tt

  judge-Falls :
      (l : Locals) (out : Streamed) (s : Session) (o : Option BadOutputKind)
      → out.calls ≡ []
      → IsSmall s.recovery
      → Falls (rounds_left s.recovery l.overflow_retried) (judge outside config l out s o)
  judge-Falls l out s none e small =
      accept-Falls (rounds_left s.recovery l.overflow_retried) l out s e
  judge-Falls l out s (some kind) e small = recover-Falls l kind s small

  unless_limited-Falls :
      (l : Locals) (out : Streamed) (s : Session) (o : Option BadOutputKind)
      → out.calls ≡ []
      → IsSmall s.recovery
      → Falls (rounds_left s.recovery l.overflow_retried) (unless_limited outside config l out s o)
  unfolding stop
  unless_limited-Falls l out s o e small =
      either-Falls (rounds_left s.recovery l.overflow_retried) out.output_limited
        (stop StopReason.provider_error (warn (limit_message outside config) s))
        (judge outside config l out s o) tt (judge-Falls l out s o e small)

  on_retry-Falls :
      (l : Locals) (r : Session × Bool) (e : RecoveryEngine) (retried : Bool)
      → r.0.recovery ≡ e
      → (r.1 ≡ true → retried ≡ false)
      → IsSmall e
      → Falls (rounds_left e retried) (on_retry outside config l r)
  unfolding stop
  on_retry-Falls l (s, false) e retried h f small = tt
  on_retry-Falls l (s, true) e retried h f small = rw (f refl, h) (small, omega arith)

  first_time :
      (b : Bool) (s : Session) → (try_overflow_retry outside config b s).1 ≡ true → b ≡ false
  unfolding try_overflow_retry
  first_time true s h = cc
  first_time false s h = refl

  on_overflow-Falls :
      (l : Locals) (s : Session)
      → IsSmall s.recovery
      → Falls (rounds_left s.recovery l.overflow_retried) (on_overflow outside config l s)
  unfolding on_overflow
  on_overflow-Falls l s small =
      on_retry-Falls l (try_overflow_retry outside config l.overflow_retried s) s.recovery
        l.overflow_retried (try_overflow_retry-recovery outside config l.overflow_retried s)
        (first_time l.overflow_retried s) small

  after_stream-Falls :
      (l : Locals) (r : Session × StreamEnd) (e : RecoveryEngine)
      → IsQuietEnd e r
      → IsSmall e
      → Falls (rounds_left e l.overflow_retried) (after_stream outside config l r)
  unfolding after_stream stop
  after_stream-Falls l (s, StreamEnd.cancelled) e q small = tt
  after_stream-Falls l (s, stopped) e q small = tt
  after_stream-Falls l (s, overflowed) e (same, q) small =
      rw (← same) (on_overflow-Falls l s (rw same small))
  after_stream-Falls l (s, stream_failed out) e (same, q) small =
      rw (← same)
        (unless_limited-Falls l out s (some malformed_structured_output) q (rw same small))
  after_stream-Falls l (s, complete out) e (same, q) small =
      let bad = detect out.text (not (has_none out.calls)) in
      rw (← same) (unless_limited-Falls l out s bad q (rw same small))

  after_open-Falls :
      (l : Locals) (r : Session × StreamOpen) (e : RecoveryEngine)
      → IsQuiet e r
      → IsSmall e
      → Falls (rounds_left e l.overflow_retried) (after_open outside config l r)
  unfolding after_open stop
  after_open-Falls l (s, StreamOpen.cancelled) e q small = tt
  after_open-Falls l (s, failed) e q small = tt
  after_open-Falls l (s, unfinished) e (same, q) small = absurd q
  after_open-Falls l (s, overflow) e (same, q) small =
      rw (← same) (on_overflow-Falls l s (rw same small))
  after_open-Falls l (s, streaming items) e (same, q) small =
      let (later, none_called) = read_stream-IsQuietEnd items nothing_streamed s q refl in
      after_stream-Falls l (read_stream items nothing_streamed s) e (later ∙ same, none_called)
        small

  module _ (silent : (log : List Act) → IsSilentOpened (outside.stream log)) where
    ask_provider-Falls :
        (l : Locals) (r : Session × CompactionResult) (e : RecoveryEngine)
        → r.0.recovery ≡ e
        → IsSmall e
        → Falls (rounds_left e l.overflow_retried) (ask_provider outside config l r)
    unfolding ask_provider announce
    ask_provider-Falls l (s, r) e same small =
        let request = request_of outside config l.tools_enabled r in
        let told = announce outside config r s in
        let (kept, quiet) = open_stream-IsQuiet outside config request told silent in
        after_open-Falls l (open_stream outside config request told) e (kept ∙ same, quiet) small

    round-Falls :
        (l : Locals)
        → IsSmall l.session.recovery
        → Falls (rounds_left l.session.recovery l.overflow_retried) (round outside config l)
    unfolding round stop
    round-Falls l small =
        let admitted = admit (outside.drain l.session.log) l.session in
        either-Falls (rounds_left l.session.recovery l.overflow_retried)
          (outside.is_cancelled l.session.log) (stop StopReason.cancelled l.session)
          (ask_provider outside config l (compacted_history outside config admitted)) tt
          (ask_provider-Falls l (compacted_history outside config admitted) l.session.recovery
            (compacted_history-recovery outside config admitted
              ∙ admit-recovery (outside.drain l.session.log) l.session)
            small)

    next_round-IsEnded :
        (n left : ℕ) (r : Round)
        → left ≤ n
        → Falls left r
        → ((l : Locals)
            → IsSmall l.session.recovery
            → rounds_left l.session.recovery l.overflow_retried < n
            → IsEnded (rounds outside config n l))
        → IsEnded (next_round outside config (rounds outside config n) r)
    next_round-IsEnded n left (ended reason s) h f more = tt
    next_round-IsEnded n left (again l) h (small, fewer) more =
        more l small (omega (arith, h, fewer))

    rounds-IsEnded :
        (n : ℕ) (l : Locals)
        → IsSmall l.session.recovery
        → rounds_left l.session.recovery l.overflow_retried < n
        → IsEnded (rounds outside config n l)
    unfolding rounds
    rounds-IsEnded zero l small h = absurd (omega (arith, h))
    rounds-IsEnded (suc n) l small h =
        next_round-IsEnded n (rounds_left l.session.recovery l.overflow_retried)
          (round outside config l) (omega (arith, h)) (round-Falls l small)
          (λ later k q. rounds-IsEnded n later k q)

set_retrieval_context-recovery :
    (t : Text) (s : Session) → (set_retrieval_context t s).recovery ≡ s.recovery
unfolding set_retrieval_context
set_retrieval_context-recovery t s = ground arith

start_turn-recovery :
    (outside : Outside) (config : SessionConfig) (user_input : Text) (s : Session)
    → (start_turn outside config user_input s).session.recovery ≡ s.recovery
unfolding start_turn append
start_turn-recovery outside config user_input s =
    set_retrieval_context-recovery (join_with (codes "\n") (outside.context_for s.log user_input)) s

-- If no stream of the provider holds a call of a tool, a turn ends within `max_repair_attempts` + 3
-- rounds, whatever the provider sends or refuses, provided that the counter of the ladder does not
-- wrap.
pub run_turn-IsEnded :
    (outside : Outside) (config : SessionConfig) (user_input : Text) (s : Session)
    → ((log : List Act) → IsSilentOpened (outside.stream log))
    → s.recovery.attempts + 1 < u32_mod
    → s.recovery.budget.max_repair_attempts + 1 < u32_mod
    → IsEnded (run_turn outside config (s.recovery.budget.max_repair_attempts + 3) user_input s)
unfolding run_turn
run_turn-IsEnded outside config user_input s silent small cap =
    let l = start_turn outside config user_input s in
    let same = start_turn-recovery outside config user_input s in
    rounds-IsEnded outside config silent (s.recovery.budget.max_repair_attempts + 3) l
      (rw same (small, cap)) (rw same (omega arith))
