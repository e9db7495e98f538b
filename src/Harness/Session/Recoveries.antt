-- ===== src/Harness/Session/Recoveries.antt =====
-- What of a turn leaves the state of recovery as it is, and what a stream with no calls leaves.
use unshackled.Prelude.{
  ℕ, zero, suc, ◌+◌, ◌/◌, max, ◌≡◌, refl, Bool, true, false, Option, none, some, List, [], ◌∷◌,
  ◌++◌, all, ◌==◌, if◌then◌else◌, Bool-cases, ◌<◌, ◌≤◌, ◌&&◌, ltb, arith, inl, inr,
}
use unshackled.Text.{Text, codes}
use unshackled.Core.Messages.{user, text_message}
use unshackled.Core.Summary.{StructuredSummary}
use unshackled.Llm.Errors.{QuotaInfo, ProviderError, quota}
use unshackled.Recovery.Engine.{RecoveryEngine}
use unshackled.Recovery.Monitor.{detected}
use unshackled.Harness.Compaction.Sizes.{estimate_tokens}
use unshackled.Harness.Compaction.Plan.{CompactionResult}
use unshackled.Llm.Events.{
  text_delta, reasoning_delta, tool_call, usage, provider_warning, output_limit, finished,
}
use unshackled.Harness.Session.{
  Act, SessionConfig, Session, Outside, ModelRequest, StreamItem, event, broken, cut, Opened,
  opened, refused, requested, RuntimeEvent, SessionEventKind, send, warn, note, record_event,
}
use unshackled.Harness.Session.History.{
  append, record_summary, log_compaction, fill_cache, cached, compact_candidate, compacted_history,
  shrink_for_overflow, try_overflow_retry, force_compact_floor,
}
use unshackled.Harness.Session.Open.{
  StreamOpen, streaming, failed, overflow, cancelled, unfinished, is_invalid_request, pause_at,
  note_quota, give_up, is_transient, wait_before, after_wait, on_opened, open_from, open_stream,
}
use unshackled.Harness.Session.Stream.{
  Streamed, StreamEnd, complete, stream_failed, overflowed, stopped, stream_error_stops_turn,
  after_error, add_text, read_stream,
}
use unshackled.Harness.Session.Turn.{admit}

-- The state of recovery, of a session that one of two is.
either-recovery :
    (b : Bool) (e : RecoveryEngine) (x y : Session)
    → x.recovery ≡ e
    → y.recovery ≡ e
    → (if b then x else y).recovery ≡ e
either-recovery true e x y hx hy = hx
either-recovery false e x y hx hy = hy

pub admit-recovery : (texts : List Text) (s : Session) → (admit texts s).recovery ≡ s.recovery
unfolding admit append
admit-recovery [] s = refl
admit-recovery (t ∷ texts) s = admit-recovery texts (append (text_message user t) s)

record_summary-recovery :
    (o : Option StructuredSummary) (s : Session) → (record_summary o s).recovery ≡ s.recovery
record_summary-recovery none s = refl
record_summary-recovery (some d) s = refl

log_compaction-recovery :
    (state : Text) (r : CompactionResult) (s : Session)
    → (log_compaction state r s).recovery ≡ s.recovery
unfolding log_compaction
log_compaction-recovery state r s = record_summary-recovery r.summary s

module _ (outside : Outside) (config : SessionConfig) where
  fill_cache-recovery :
      (r : CompactionResult) (s : Session) → (fill_cache outside config r s).0.recovery ≡ s.recovery
  fill_cache-recovery r s =
      either-recovery r.compacted s.recovery (log_compaction (codes "completed") r s) s
        (log_compaction-recovery (codes "completed") r s) refl

  cached-recovery :
      (o : Option (ℕ × CompactionResult)) (s : Session) (fresh : CompactionResult)
      → (cached outside config o s fresh).0.recovery ≡ s.recovery
  cached-recovery none s fresh = fill_cache-recovery fresh s
  cached-recovery (some (generation, r)) s fresh =
      elim (Bool-cases (generation == s.history_generation)) [
        | inl y ↦ rw y refl
        | inr n ↦ rw n (fill_cache-recovery fresh s)
      ]

  pub compacted_history-recovery :
      (s : Session) → (compacted_history outside config s).0.recovery ≡ s.recovery
  unfolding compacted_history
  compacted_history-recovery s = cached-recovery s.compaction_cache s _

  shrink_for_overflow-recovery :
      (s : Session) → (shrink_for_overflow outside config s).recovery ≡ s.recovery
  unfolding shrink_for_overflow
  shrink_for_overflow-recovery s =
      let target = max (estimate_tokens s.messages / 2) force_compact_floor in
      let r = compact_candidate outside config target s in
      elim (Bool-cases r.compacted) [
        | inl y ↦ rw y (log_compaction-recovery (codes "overflow_retry") r s)
        | inr n ↦ rw n refl
      ]

  pub try_overflow_retry-recovery :
      (b : Bool) (s : Session) → (try_overflow_retry outside config b s).0.recovery ≡ s.recovery
  unfolding try_overflow_retry
  try_overflow_retry-recovery true s = refl
  try_overflow_retry-recovery false s =
      shrink_for_overflow-recovery
        (warn (codes "provider rejected the request as too large; compacting and retrying once") s)

pause_at-recovery : (o : Option QuotaInfo) (s : Session) → (pause_at o s).recovery ≡ s.recovery
pause_at-recovery none s = refl
pause_at-recovery (some q) s = refl

note_quota-recovery : (err : ProviderError) (s : Session) → (note_quota err s).recovery ≡ s.recovery
unfolding note_quota
note_quota-recovery err s = pause_at-recovery (quota err) (record s { last_quota = quota err })

abbrev pub is_silent : StreamItem → Bool
is_silent (event (tool_call call)) = false
is_silent _ = true

abbrev pub IsSilentOpened : Opened → Type 0
IsSilentOpened (opened items) = all is_silent items ≡ true
IsSilentOpened (refused err) = Unit {0}

abbrev pub IsSilentOpen : StreamOpen → Type 0
IsSilentOpen (streaming items) = all is_silent items ≡ true
IsSilentOpen unfinished = ⊥
IsSilentOpen _ = Unit {0}

-- A stream with no calls, opened with the state of recovery left as it is.
abbrev pub IsQuiet : RecoveryEngine → Session × StreamOpen → Type 0
IsQuiet e r = (r.0.recovery ≡ e) × IsSilentOpen r.1

either-IsQuiet :
    (b : Bool) (e : RecoveryEngine) (x y : Session × StreamOpen)
    → IsQuiet e x
    → IsQuiet e y
    → IsQuiet e (if b then x else y)
either-IsQuiet true e x y hx hy = hx
either-IsQuiet false e x y hx hy = hy

give_up-IsQuiet : (err : ProviderError) (s : Session) → IsQuiet s.recovery (give_up err s)
unfolding give_up
give_up-IsQuiet err s = (note_quota-recovery err s, refused_silent (is_invalid_request err))
  where
    refused_silent : (b : Bool) → IsSilentOpen (if b then overflow else failed)
    refused_silent true = tt
    refused_silent false = tt

module _ (outside : Outside) (config : SessionConfig) (request : ModelRequest) where
  one_round :
      (attempt : ℕ) (next : Session → Session × StreamOpen) (s : Session) (o : Opened)
      → IsSilentOpened o
      → (attempt < config.max_stream_retries
          → (later : Session) → IsQuiet later.recovery (next later))
      → IsQuiet s.recovery (on_opened outside config request attempt next s o)
  unfolding after_wait wait_before
  one_round attempt next s (opened items) q f = (refl, q)
  one_round attempt next s (refused err) q f =
      let waited = wait_before outside config request err (attempt + 1) s in
      elim (Bool-cases (is_transient err && ltb attempt config.max_stream_retries)) [
        | inl y ↦ rw y (
            either-IsQuiet (outside.backoff_cancelled waited.log) s.recovery (waited, cancelled)
              (next waited) (refl, tt) (f (ground (arith, y)) waited))
        | inr n ↦ rw n (give_up-IsQuiet err s)
      ]

  open_from-IsQuiet :
      (fuel attempt : ℕ) (s : Session)
      → attempt ≤ config.max_stream_retries
      → config.max_stream_retries < fuel + attempt
      → ((log : List Act) → IsSilentOpened (outside.stream log))
      → IsQuiet s.recovery (open_from outside config request fuel attempt s)
  unfolding open_from
  open_from-IsQuiet zero attempt s low high q = absurd (omega (arith, low, high))
  open_from-IsQuiet (suc fuel) attempt s low high q =
      one_round attempt (open_from outside config request fuel (attempt + 1))
        (note (requested request) s) (outside.stream (requested request ∷ s.log))
        (q (requested request ∷ s.log))
        (λ more later.
          open_from-IsQuiet fuel (attempt + 1) later (omega (arith, more)) (omega (arith, high)) q)

  pub open_stream-IsQuiet :
      (s : Session)
      → ((log : List Act) → IsSilentOpened (outside.stream log))
      → IsQuiet s.recovery (open_stream outside config request s)
  unfolding open_stream
  open_stream-IsQuiet s q =
      open_from-IsQuiet (suc config.max_stream_retries) 0 s (omega arith) (omega arith) q

abbrev pub HasNoCalls : StreamEnd → Type 0
HasNoCalls (complete out) = out.calls ≡ []
HasNoCalls (stream_failed out) = out.calls ≡ []
HasNoCalls _ = Unit {0}

abbrev pub IsQuietEnd : RecoveryEngine → Session × StreamEnd → Type 0
IsQuietEnd e r = (r.0.recovery ≡ e) × HasNoCalls r.1

after_error-HasNoCalls :
    (err : ProviderError) (l : Streamed) → l.calls ≡ [] → HasNoCalls (after_error err l)
after_error-HasNoCalls err l h = of_tests (is_invalid_request err) (stream_error_stops_turn err)
  where
    of_tests :
        (a b : Bool) → HasNoCalls (if a then overflowed else if b then stopped else stream_failed l)
    of_tests true b = tt
    of_tests false true = tt
    of_tests false false = h

-- A stream with no calls leaves none, and the state of recovery as it is.
pub read_stream-IsQuietEnd :
    (items : List StreamItem) (l : Streamed) (s : Session)
    → all is_silent items ≡ true
    → l.calls ≡ []
    → IsQuietEnd s.recovery (read_stream items l s)
unfolding read_stream
read_stream-IsQuietEnd [] l s q h = (refl, h)
read_stream-IsQuietEnd (cut ∷ items) l s q h = (refl, tt)
read_stream-IsQuietEnd (broken err ∷ items) l s q h =
    (note_quota-recovery err s, after_error-HasNoCalls err l h)
read_stream-IsQuietEnd (event finished ∷ items) l s q h = (refl, h)
read_stream-IsQuietEnd (event (text_delta delta) ∷ items) l s q h =
    let rest =
      read_stream-IsQuietEnd items (add_text delta l) (send (RuntimeEvent.text delta) s) q h in
    elim (Bool-cases (detected (add_text delta l).monitor)) [
      | inl y ↦ rw y (refl, h)
      | inr n ↦ rw n rest
    ]
read_stream-IsQuietEnd (event (reasoning_delta delta) ∷ items) l s q h =
    read_stream-IsQuietEnd items (record l { reasoning = l.reasoning ++ delta })
      (send (RuntimeEvent.reasoning delta) s) q h
read_stream-IsQuietEnd (event (tool_call call) ∷ items) l s q h = cc
read_stream-IsQuietEnd (event (usage u) ∷ items) l s q h =
    read_stream-IsQuietEnd items l
      (record_event (SessionEventKind.usage_reported u.input_tokens u.output_tokens)
        (send (RuntimeEvent.usage u) s))
      q h
read_stream-IsQuietEnd (event (provider_warning message) ∷ items) l s q h =
    read_stream-IsQuietEnd items l (warn message s) q h
read_stream-IsQuietEnd (event (output_limit message) ∷ items) l s q h =
    read_stream-IsQuietEnd items (record l { output_limited = true }) (warn message s) q h
