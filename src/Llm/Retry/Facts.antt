-- ===== src/Llm/Retry/Facts.antt =====
-- The outcome of a retried operation and the length of the delays.
use Prim.Native.Nat.{max}
use unshackled.Prelude.{
  ℕ, zero, suc, ◌+◌, ◌/◌, ◌≤◌, ◌<◌, ◌≡◌, refl, ◌⊎◌, inl, inr, true, false, Option, none, some, [],
  ◌∷◌, leb, arith, All, Bool-cases, length,
}
use unshackled.Llm.Errors.{ProviderError, is_retryable}
use unshackled.Llm.Retry.{
  RetryPolicy, Result, ok, err, Trace, delay_for, delay_or, backoff, retry_after_of, retry_from,
  retry,
}

backoff-le : (base cap attempt : ℕ) → backoff base cap attempt ≤ cap
backoff-le base cap attempt = omega arith

-- No delay is longer than the policy allows, whatever the provider states, provided that the
-- jitter does not exceed what it is taken of.
pub delay_for-le :
    (jittered : ℕ → ℕ) (p : RetryPolicy) (attempt : ℕ) (e : ProviderError)
    → ((d : ℕ) → jittered d ≤ d)
    → delay_for jittered p attempt e ≤ p.max_delay
unfolding delay_for
delay_for-le jittered p attempt e h = by_after (retry_after_of e)
  where
    by_after : (o : Option ℕ) → delay_or jittered p attempt o ≤ p.max_delay
    by_after (some a) = omega arith
    by_after none =
        let x = backoff p.base_delay p.max_delay attempt in
        omega (arith, h (x / 2), backoff-le p.base_delay p.max_delay attempt)

module _ {A : Type 0} (jittered : ℕ → ℕ) (p : RetryPolicy) (operation : ℕ → Result A) where
  -- The attempt failed in a way that may be tried again.
  abbrev pub FailsSoftly : ℕ → Type 0
  FailsSoftly k = (e : ProviderError) × (operation k ≡ err e) × (is_retryable e ≡ true)

  abbrev pub EndsWell : Result A → ℕ → Type 0
  EndsWell (ok value) last = Unit {0}
  EndsWell (err e) last = (p.max_attempts ≤ last) ⊎ (is_retryable e ≡ false)

  -- What a run from an attempt on comes to: the result is that of its last attempt, each earlier
  -- one may be tried again, an error is final or the last allowed, and there is one delay for each
  -- attempt but the last, none longer than the policy allows.
  pub record Retries (attempt : ℕ) (t : Trace A) : Type 0 where
    pub from : attempt ≤ t.last
    pub within : t.last ≤ max attempt p.max_attempts
    pub result_is : operation t.last ≡ t.result
    pub soft : (k : ℕ) → attempt ≤ k → k < t.last → FailsSoftly k
    pub final : EndsWell t.result t.last
    pub one_each : attempt + length t.sleeps ≡ t.last
    pub bounded : All (λ d. d ≤ p.max_delay) t.sleeps

  Result-cases : (r : Result A) → ((v : A) × (r ≡ ok v)) ⊎ ((e : ProviderError) × (r ≡ err e))
  Result-cases (ok v) = inl (v, refl)
  Result-cases (err e) = inr (e, refl)

  stop-Retries :
      (attempt : ℕ) (r : Result A)
      → operation attempt ≡ r
      → EndsWell r attempt
      → Retries attempt (record { result = r; last = attempt; sleeps = [] })
  stop-Retries attempt r h w = record {
    from = omega arith;
    within = omega arith;
    result_is = h;
    soft = λ k a b. absurd (omega arith);
    final = w;
    one_each = omega arith;
    bounded = tt;
  }

  again-Retries :
      (attempt : ℕ) (e : ProviderError) (t : Trace A)
      → ((d : ℕ) → jittered d ≤ d)
      → operation attempt ≡ err e
      → is_retryable e ≡ true
      → attempt < p.max_attempts
      → Retries (attempt + 1) t
      → Retries attempt (record t { sleeps = delay_for jittered p attempt e ∷ t.sleeps })
  again-Retries attempt e t j h y m v = record {
    from = omega (arith, v.from);
    within = omega (arith, v.within);
    result_is = v.result_is;
    soft = λ k a b. elim (Bool-cases (leb k attempt)) [
      | inl le ↦ let same : k ≡ attempt = ground (arith, le) in rw same (e, h, y)
      | inr gt ↦ v.soft k (ground (arith, gt)) b
    ];
    final = v.final;
    one_each = omega (arith, v.one_each);
    bounded = (delay_for-le jittered p attempt e j, v.bounded);
  }

  retry_from-Retries :
      (fuel attempt : ℕ)
      → ((d : ℕ) → jittered d ≤ d)
      → 0 < fuel
      → p.max_attempts < fuel + attempt
      → (t : Trace A) × (retry_from jittered p operation fuel attempt ≡ some t) × Retries attempt t
  unfolding retry_from
  retry_from-Retries zero attempt j f h = absurd (omega arith)
  retry_from-Retries (suc fuel) attempt j f h = elim (Result-cases (operation attempt)) [
    | inl (v, e) ↦ (_, rw (e, retry_from), stop-Retries attempt (ok v) e tt)
    | inr (x, e) ↦ elim (Bool-cases (leb p.max_attempts attempt)) [
      | inl last ↦ (
        record { result = err x; last = attempt; sleeps = [] },
        rw (e, last, retry_from),
        stop-Retries attempt (err x) e (inl (ground (arith, last))),
      )
      | inr more ↦ elim (Bool-cases (is_retryable x)) [
        | inr hard ↦ (
          record { result = err x; last = attempt; sleeps = [] },
          rw (e, more, hard, retry_from),
          stop-Retries attempt (err x) e (inr hard),
        )
        | inl soft ↦
            let (t, q, v) =
              retry_from-Retries fuel (attempt + 1) j (ground (arith, more))
                (ground (arith, more)) in
            (
              record t { sleeps = delay_for jittered p attempt x ∷ t.sleeps },
              rw (e, more, soft, q, retry_from),
              again-Retries attempt x t j e soft (ground (arith, more)) v,
            )
      ]
    ]
  ]

  -- `retry` always ends, provided that the jitter does not exceed what it is taken of, with the outcome
  -- that `Retries` describes from the first attempt on: it is that of the first attempt that succeeds
  -- or may not be tried again, or of the last allowed one, which is the first if `max_attempts` is 0;
  -- and between attempts it sleeps once, no longer than `max_delay`.
  pub retry-Retries :
      ((d : ℕ) → jittered d ≤ d)
      → (t : Trace A) × (retry jittered p operation ≡ some t) × Retries 1 t
  unfolding retry
  retry-Retries j = retry_from-Retries (suc p.max_attempts) 1 j (omega arith) (omega arith)
