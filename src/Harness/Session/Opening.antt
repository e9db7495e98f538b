-- ===== src/Harness/Session/Opening.antt =====
-- crates/localpilot-harness/src/session.rs: the number of requests that `open_stream` makes.
use unshackled.Prelude.{
  ℕ, zero, suc, ◌+◌, ◌≤◌, ◌<◌, ◌≡◌, refl, Bool, true, false, Option, none, some, List, [], ◌∷◌,
  arith, if◌then◌else◌, ◌-◌, ◌&&◌, ltb, Bool-cases, inl, inr,
}
use unshackled.Llm.Errors.{QuotaInfo, ProviderError, quota}
use unshackled.Harness.Session.{
  Act, requested, ModelRequest, SessionConfig, Session, Opened, opened, refused, Outside, note,
}
use unshackled.Harness.Session.Open.{
  StreamOpen, overflow, failed, unfinished, is_invalid_request, pause_at, note_quota, give_up,
  is_transient, wait_before, after_wait, on_opened, open_from, open_stream,
}

-- The number of requests to the provider.
abbrev pub requests : List Act → ℕ
requests [] = 0
requests (requested r ∷ log) = suc (requests log)
requests (a ∷ log) = requests log

pause_at-requests :
    (o : Option QuotaInfo) (s : Session) → requests (pause_at o s).log ≡ requests s.log
pause_at-requests none s = refl
pause_at-requests (some q) s = refl

give_up-requests :
    (err : ProviderError) (s : Session) → requests (give_up err s).0.log ≡ requests s.log
unfolding give_up note_quota
give_up-requests err s = pause_at-requests (quota err) (record s { last_quota = quota err })

abbrev pub IsOver : StreamOpen → Type 0
IsOver unfinished = ⊥
IsOver o = Unit {0}

-- The loop has ended, with at least and at most so many requests.
abbrev Within : ℕ → ℕ → Session × StreamOpen → Type 0
Within low high r = (low ≤ requests r.0.log) × (requests r.0.log ≤ high) × IsOver r.1

give_up-Within :
    (err : ProviderError) (s : Session) (more : ℕ)
    → Within (requests s.log) (requests s.log + more) (give_up err s)
give_up-Within err s more = (
  omega (arith, give_up-requests err s),
  omega (arith, give_up-requests err s),
  unfold give_up in refused (is_invalid_request err),
)
  where
    refused : (b : Bool) → IsOver (if b then overflow else failed)
    refused true = tt
    refused false = tt

module _ (outside : Outside) (config : SessionConfig) (request : ModelRequest) where
  wait_before-requests :
      (err : ProviderError) (attempt : ℕ) (s : Session)
      → requests (wait_before outside config request err attempt s).log ≡ requests s.log
  unfolding wait_before
  wait_before-requests err attempt s = refl

  one_round :
      (attempt : ℕ) (next : Session → Session × StreamOpen) (s : Session) (o : Opened)
      → (attempt < config.max_stream_retries
          → (later : Session)
          → Within
              (requests later.log + 1)
              (requests later.log + (config.max_stream_retries - attempt))
              (next later))
      → Within
          (requests s.log)
          (requests s.log + (config.max_stream_retries - attempt))
          (on_opened outside config request attempt next s o)
  unfolding after_wait
  one_round attempt next s (opened items) f = (omega arith, omega arith, tt)
  one_round attempt next s (refused err) f =
      elim (Bool-cases (is_transient err && ltb attempt config.max_stream_retries)) [
        | inl y ↦
            let waited = wait_before outside config request err (attempt + 1) s in
            let same = wait_before-requests err (attempt + 1) s in
            let (low, high, over) = f (ground (arith, y)) waited in
            elim (Bool-cases (outside.backoff_cancelled waited.log)) [
              | inl c ↦ rw (y, c) (omega (arith, same), omega (arith, same), tt)
              | inr go ↦ rw (y, go) (omega (arith, same, low), omega (arith, same, high), over)
            ]
        | inr n ↦ rw n (give_up-Within err s (config.max_stream_retries - attempt))
      ]

  open_from-requests :
      (fuel attempt : ℕ) (s : Session)
      → attempt ≤ config.max_stream_retries
      → config.max_stream_retries < fuel + attempt
      → Within
          (requests s.log + 1)
          (requests s.log + (config.max_stream_retries - attempt + 1))
          (open_from outside config request fuel attempt s)
  unfolding open_from
  open_from-requests zero attempt s below enough = absurd (omega (arith, below, enough))
  open_from-requests (suc fuel) attempt s below enough =
      let (low, high, over) =
        one_round attempt (open_from outside config request fuel (attempt + 1))
          (note (requested request) s) (outside.stream (requested request ∷ s.log))
          (λ more later.
            let (l, h, o) =
              open_from-requests fuel (attempt + 1) later (omega (arith, more))
                (omega (arith, enough)) in
            (l, omega (arith, h, more), o)) in
      (omega (arith, low), omega (arith, high), over)

-- Opening a stream ends, whatever the provider answers, with at least one request, and at most one
-- more than the retries that are allowed.
pub open_stream-requests :
    (outside : Outside) (config : SessionConfig) (request : ModelRequest) (s : Session)
    → IsOver (open_stream outside config request s).1
      × (requests s.log < requests (open_stream outside config request s).0.log)
      × (requests (open_stream outside config request s).0.log
          ≤ requests s.log + (config.max_stream_retries + 1))
unfolding open_stream
open_stream-requests outside config request s =
    let (low, high, over) =
      open_from-requests outside config request (suc config.max_stream_retries) 0 s (omega arith)
        (omega arith) in
    (over, omega (arith, low), omega (arith, high))
