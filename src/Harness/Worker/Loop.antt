-- ===== src/Harness/Worker/Loop.antt =====
-- The loop over the attempts at a step: its budget and its decisions.
use unshackled.Prelude.{
  ℕ, suc, ◌+◌, ◌*◌, ◌≤◌, ◌<◌, ◌≡◌, ◌≢◌, refl, ap, inl, inr, Bool, true, false, List, [], ◌∷◌, ◌++◌,
  arith, ltb, leb, map, ◌∙◌, sym, append_assoc, append-nil, Bool-cases, All, length, length-append,
}
use native.Mathlib.Nat.{add-zero}
use unshackled.Text.{Text}
use unshackled.Harness.Worker.{
  AttemptResult, success, retried, discarded, StepDecision, give_up, replan, StepLoop, new, u32_mod,
  on_failure, on_attempt,
}

-- After `n` failed attempts, while the budget of attempts and replans lasts.
pub record Spent (max_attempts max_replans n : ℕ) (l : StepLoop) : Type 0 where
  pub attempt_cap : l.max_attempts ≡ max_attempts
  pub replan_cap : l.max_replans ≡ max_replans
  pub few : l.attempts < max_attempts
  pub within : l.replans ≤ max_replans
  pub total : l.replans * max_attempts + l.attempts ≡ n
  pub logged : length l.attempt_logs ≡ l.attempts

new-Spent : (a r : ℕ) → 0 < a → Spent a r 0 (new a r)
unfolding new
new-Spent a r h = record {
  attempt_cap = refl;
  replan_cap = refl;
  few = h;
  within = omega arith;
  total = omega arith;
  logged = refl;
}

mul_mono : (m n a : ℕ) → m ≤ n → m * a ≤ n * a
mul_mono m n a h = grind arith

-- The budget is spent exactly at the last attempt of the last replan.
last_attempt :
    (a r n : ℕ) (l : StepLoop)
    → Spent a r n l
    → suc n ≡ a * suc r
    → (l.replans ≡ r) × (l.attempts + 1 ≡ a)
last_attempt a r n l v h = elim (Bool-cases (leb r l.replans)) [
  | inl e ↦
      let same : l.replans ≡ r = ground (arith, v.within, e) in
      (same, omega (arith, v.total, v.few, ap (λ t. t * a) same))
  | inr m ↦ absurd (omega (arith, v.total, v.few, mul_mono (suc l.replans) r a (ground (arith, m))))
]

not_last :
    (a r n : ℕ) (l : StepLoop)
    → Spent a r n l
    → suc n < a * suc r
    → l.attempts + 1 ≡ a
    → l.replans < r
not_last a r n l v h e = elim (Bool-cases (leb r l.replans)) [
  | inl y ↦
      let same : l.replans ≡ r = ground (arith, v.within, y) in
      absurd (omega (arith, v.total, e, ap (λ t. t * a) same))
  | inr m ↦ ground (arith, m)
]

module _ (a r n : ℕ) (l : StepLoop) (reason : Text) (k : Bool) (ha : a < u32_mod)
    (v : Spent a r n l) where
  retry-Spent :
      l.attempts + 1 < a
      → Spent a r (suc n) (on_failure l reason k).0 × ((on_failure l reason k).1 ≢ give_up)
  unfolding on_failure
  retry-Spent h = ground (arith, v, length-append l.attempt_logs (reason ∷ []))

  replan_step :
      l.attempts + 1 ≡ a
      → l.replans < r
      → r < u32_mod
      → on_failure l reason k ≡ (
        record l { replans = l.replans + 1; attempts = 0; attempt_logs = [] },
        replan (l.attempt_logs ++ reason ∷ []),
      )
  unfolding on_failure
  replan_step h q hr = ground (arith, v.attempt_cap, v.replan_cap)

  replan-Spent :
      l.attempts + 1 ≡ a
      → l.replans < r
      → r < u32_mod
      → Spent a r (suc n) (on_failure l reason k).0 × ((on_failure l reason k).1 ≢ give_up)
  replan-Spent h q hr = rw (replan_step h q hr) (
    record {
      attempt_cap = v.attempt_cap;
      replan_cap = v.replan_cap;
      few = omega (arith, v.few);
      within = omega (arith, q);
      total = omega (arith, v.total);
      logged = refl;
    },
    λ e. cc,
  )

  last-give_up : l.attempts + 1 ≡ a → l.replans ≡ r → (on_failure l reason k).1 ≡ give_up
  unfolding on_failure
  last-give_up h q = ground (arith, h, q, v.attempt_cap, v.replan_cap)

-- The driver's loop: the decisions on a sequence of attempts.
abbrev pub loop_after : StepLoop → List AttemptResult → StepLoop
loop_after l [] = l
loop_after l (f ∷ fs) = loop_after (on_attempt l f).0 fs

abbrev pub decisions : StepLoop → List AttemptResult → List StepDecision
decisions l [] = []
decisions l (f ∷ fs) = (on_attempt l f).1 ∷ decisions (on_attempt l f).0 fs

abbrev pub IsFailure : AttemptResult → Type 0
IsFailure f = f ≢ success

failure-Spent :
    (a r n : ℕ) (l : StepLoop) (reason : Text) (k : Bool)
    → a < u32_mod
    → r < u32_mod
    → Spent a r n l
    → suc n < a * suc r
    → Spent a r (suc n) (on_failure l reason k).0 × ((on_failure l reason k).1 ≢ give_up)
failure-Spent a r n l reason k ha hr v h = elim (Bool-cases (ltb (l.attempts + 1) a)) [
  | inl y ↦ retry-Spent a r n l reason k ha v (ground (arith, y))
  | inr m ↦
      let last : l.attempts + 1 ≡ a = ground (arith, m, v.few) in
      replan-Spent a r n l reason k ha v last (not_last a r n l v h last) hr
]

attempt-Spent :
    (a r n : ℕ) (l : StepLoop) (f : AttemptResult)
    → a < u32_mod
    → r < u32_mod
    → Spent a r n l
    → IsFailure f
    → suc n < a * suc r
    → Spent a r (suc n) (on_attempt l f).0 × ((on_attempt l f).1 ≢ give_up)
unfolding on_attempt
attempt-Spent a r n l success ha hr v nf h = absurd (nf refl)
attempt-Spent a r n l (retried m) ha hr v nf h = failure-Spent a r n l m true ha hr v h
attempt-Spent a r n l (discarded m) ha hr v nf h = failure-Spent a r n l m false ha hr v h

attempt-give_up :
    (a r n : ℕ) (l : StepLoop) (f : AttemptResult)
    → a < u32_mod
    → Spent a r n l
    → IsFailure f
    → suc n ≡ a * suc r
    → (on_attempt l f).1 ≡ give_up
unfolding on_attempt
attempt-give_up a r n l success ha v nf h = absurd (nf refl)
attempt-give_up a r n l (retried m) ha v nf h =
    let (q, p) = last_attempt a r n l v h in last-give_up a r n l m true ha v p q
attempt-give_up a r n l (discarded m) ha v nf h =
    let (q, p) = last_attempt a r n l v h in last-give_up a r n l m false ha v p q

shift : (n m : ℕ) → n + suc m ≡ suc n + m
shift n m = omega arith

zero_plus : (n : ℕ) → 0 + n ≡ n
zero_plus n = omega arith

run-Spent :
    (a r n : ℕ) (l : StepLoop) (fs : List AttemptResult)
    → a < u32_mod
    → r < u32_mod
    → Spent a r n l
    → All IsFailure fs
    → n + length fs < a * suc r
    → Spent a r (n + length fs) (loop_after l fs) × All (λ d. d ≢ give_up) (decisions l fs)
run-Spent a r n l [] ha hr v nf h = (rw add-zero v, tt)
run-Spent a r n l (f ∷ fs) ha hr v nf h =
    let (w, d) = attempt-Spent a r n l f ha hr v nf.0 (omega arith) in
    let (u, ds) = run-Spent a r (suc n) (on_attempt l f).0 fs ha hr w nf.1 (omega arith) in
    (rw (shift n (length fs)) u, (d, ds))

-- A step that fails at every attempt is given up at the attempt whose number is the product of the
-- attempts in a budget and the budgets, one more than the replans, and at no earlier one.
pub give_up_at_last :
    (a r : ℕ) (fs : List AttemptResult) (f : AttemptResult)
    → 0 < a
    → a < u32_mod
    → r < u32_mod
    → All IsFailure (f ∷ fs)
    → suc (length fs) ≡ a * suc r
    → All (λ d. d ≢ give_up) (decisions (new a r) fs)
      × ((on_attempt (loop_after (new a r) fs) f).1 ≡ give_up)
give_up_at_last a r fs f ha hb hr nf h =
    let (v, ds) = run-Spent a r 0 (new a r) fs hb hr (new-Spent a r ha) nf.1 (omega arith) in
    (ds, attempt-give_up a r (0 + length fs) _ f hb v nf.0 (omega (arith, h)))

-- The reasons of failed attempts.
abbrev pub reason_of : AttemptResult → Text
reason_of success = []
reason_of (retried m) = m
reason_of (discarded m) = m

abbrev pub reasons : List AttemptResult → List Text
reasons = map reason_of

-- The log holds the last of the reasons.
abbrev Tail : List Text → StepLoop → Type 0
Tail given l = (earlier : List Text) × (given ≡ earlier ++ l.attempt_logs)

failure-Tail :
    (a r n : ℕ) (l : StepLoop) (reason : Text) (k : Bool) (given : List Text)
    → a < u32_mod
    → Spent a r n l
    → suc n < a * suc r
    → Tail given l
    → Tail (given ++ reason ∷ []) (on_failure l reason k).0
unfolding on_failure
failure-Tail a r n l reason k given ha v h (earlier, e) =
    elim (Bool-cases (ltb (l.attempts + 1) a)) [
      | inl y ↦ (
        earlier,
        ap (λ z. z ++ reason ∷ []) e
            ∙ append_assoc earlier l.attempt_logs (reason ∷ [])
            ∙ ap (λ z. earlier ++ z) (ground (arith, y, v)),
      )
      | inr m ↦
          let last : l.attempts + 1 ≡ a = ground (arith, m, v.few) in
          let more = not_last a r n l v h last in
          let empty : (on_failure l reason k).0.attempt_logs ≡ [] = ground (arith, v, last, more) in
          (given ++ reason ∷ [], sym (ap (λ z. (given ++ reason ∷ []) ++ z) empty ∙ append-nil _))
    ]

attempt-Tail :
    (a r n : ℕ) (l : StepLoop) (f : AttemptResult) (given : List Text)
    → a < u32_mod
    → Spent a r n l
    → IsFailure f
    → suc n < a * suc r
    → Tail given l
    → Tail (given ++ reason_of f ∷ []) (on_attempt l f).0
unfolding on_attempt
attempt-Tail a r n l success given ha v nf h t = absurd (nf refl)
attempt-Tail a r n l (retried m) given ha v nf h t = failure-Tail a r n l m true given ha v h t
attempt-Tail a r n l (discarded m) given ha v nf h t = failure-Tail a r n l m false given ha v h t

run-Tail :
    (a r n : ℕ) (l : StepLoop) (fs : List AttemptResult) (given : List Text)
    → a < u32_mod
    → r < u32_mod
    → Spent a r n l
    → All IsFailure fs
    → n + length fs < a * suc r
    → Tail given l
    → Tail (given ++ reasons fs) (loop_after l fs)
run-Tail a r n l [] given ha hr v nf h t = rw (append-nil given) t
run-Tail a r n l (f ∷ fs) given ha hr v nf h t =
    let (w, d) = attempt-Spent a r n l f ha hr v nf.0 (omega arith) in
    let here = attempt-Tail a r n l f given ha v nf.0 (omega arith) t in
    rw (append_assoc given (reason_of f ∷ []) (reasons fs)) at (
      run-Tail a r (suc n) (on_attempt l f).0 fs (given ++ reason_of f ∷ []) ha hr w nf.1
        (omega arith) here)

-- After fewer failures than the product of the attempts in a budget and the budgets, the attempts
-- and replans made account for all of them; and the log holds the reasons of the failures since the
-- last replan, which are the last ones, as many as the attempts made since then.
pub loop_after-Spent :
    (a r : ℕ) (fs : List AttemptResult)
    → 0 < a
    → a < u32_mod
    → r < u32_mod
    → All IsFailure fs
    → length fs < a * suc r
    → Spent a r (length fs) (loop_after (new a r) fs)
      × ((earlier : List Text) × (reasons fs ≡ earlier ++ (loop_after (new a r) fs).attempt_logs))
unfolding new
loop_after-Spent a r fs ha hb hr nf h = (
  rw (zero_plus (length fs)) at
      ((run-Spent a r 0 (new a r) fs hb hr (new-Spent a r ha) nf (omega arith)).0),
  run-Tail a r 0 (new a r) fs [] hb hr (new-Spent a r ha) nf (omega arith) ([], refl),
)
