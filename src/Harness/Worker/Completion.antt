-- ===== src/Harness/Worker/Completion.antt =====
-- When the worker commits a step.
use unshackled.Prelude.{
  ℕ, ◌≤◌, ◌<◌, ◌≡◌, refl, ◌↔◌, Bool, true, false, ◌&&◌, some, List, [], ◌∷◌, ◌++◌, arith, ltb, leb,
  All, All-append,
}
use unshackled.Text.{Text}
use unshackled.Harness.Config.{CheckOutcome, block}
use unshackled.Harness.Verdicts.Gate.{Worst, start_stays, first_worst, gate_verdict-Worst}
use unshackled.Harness.Rules.{
  post_test, pre_commit, step_complete, RuleContext, RuleEngine, evaluate, with_baseline, is_no,
  is_prohibited,
}
use unshackled.Harness.Verdicts.{
  Verdict, allowed, warned, retry, discard, blocked, gate_verdict, rank, outcome_verdict,
}
use unshackled.Harness.Worker.{
  StepAction, CompletionInputs, completion_context, candidate, action_rank, higher, reduce,
  reduce_triggers, decide_step,
}

-- A verdict that lets a step pass: an allowance or a warning.
abbrev pub Passes : Verdict → Type 0
Passes v = rank v ≤ 1

higher-commit :
    (a : StepAction) (n : Text) (v : Verdict)
    → (higher a (candidate (n, v)) ≡ StepAction.commit) ↔ ((a ≡ StepAction.commit) × Passes v)
unfolding candidate action_rank rank
higher-commit a n allowed = (λ h. (h, omega arith), λ h. h.0)
higher-commit a n (warned m) = (λ h. (h, omega arith), λ h. h.0)
higher-commit a n (retry m) = (λ h. ground arith, λ h. absurd (ground arith))
higher-commit a n (discard m) = (λ h. ground arith, λ h. absurd (ground arith))
higher-commit a n (blocked m) = (λ h. ground arith, λ h. absurd (ground arith))

reduce-commit :
    (a : StepAction) (vs : List (Text × Verdict))
    → (reduce a vs ≡ StepAction.commit) ↔ ((a ≡ StepAction.commit) × All (λ v. Passes v.1) vs)
unfolding reduce
reduce-commit a [] = (λ h. (h, tt), λ h. h.0)
reduce-commit a ((n, v) ∷ vs) = (
  λ h.
      let (x, xs) = (reduce-commit (higher a (candidate (n, v))) vs).0 h in
      let (y, p) = (higher-commit a n v).0 x in (y, (p, xs)),
  λ h.
      (reduce-commit (higher a (candidate (n, v))) vs).1
        ((higher-commit a n v).1 (h.0, h.1.0), h.1.1),
)

-- A step is committed exactly if every verdict on its three triggers is a warning at most.
pub decide_step-commit_iff :
    (e : RuleEngine) (inputs : CompletionInputs) (os : List CheckOutcome)
    → (decide_step e inputs os ≡ StepAction.commit) ↔ (
        All (λ v. Passes v.1) (evaluate e post_test (completion_context inputs os))
        × All (λ v. Passes v.1) (evaluate e pre_commit (completion_context inputs os))
        × All (λ v. Passes v.1) (evaluate e step_complete (completion_context inputs os)))
unfolding decide_step reduce_triggers
decide_step-commit_iff e inputs os = (
  λ h.
      let (ab, c) = (reduce-commit _ (evaluate e step_complete ctx)).0 h in
      let (a, b) = (reduce-commit _ (evaluate e pre_commit ctx)).0 ab in
      (((reduce-commit StepAction.commit (evaluate e post_test ctx)).0 a).1, b, c),
  λ h. (reduce-commit _ (evaluate e step_complete ctx)).1 (
    (reduce-commit _ (evaluate e pre_commit ctx)).1
        ((reduce-commit StepAction.commit (evaluate e post_test ctx)).1 (refl, h.0), h.1),
    h.2,
  ),
)
  where
    ctx : RuleContext
    ctx = completion_context inputs os

abbrev OutcomesPass : List CheckOutcome → Type 0
OutcomesPass = All (λ o. Passes (outcome_verdict o))

AtMost-Pass :
    (n : ℕ) (os : List CheckOutcome)
    → n ≤ 1
    → All (λ o. rank (outcome_verdict o) ≤ n) os
    → OutcomesPass os
AtMost-Pass n [] h m = tt
AtMost-Pass n (o ∷ os) h m = (omega (arith, m.0), AtMost-Pass n os h m.1)

Below-Pass :
    (n : ℕ) (os : List CheckOutcome)
    → n ≤ 1
    → All (λ o. rank (outcome_verdict o) < n) os
    → OutcomesPass os
Below-Pass n [] h m = tt
Below-Pass n (o ∷ os) h m = (omega (arith, m.0), Below-Pass n os h m.1)

split-Pass :
    (xs : List CheckOutcome) (o : CheckOutcome) (ys : List CheckOutcome)
    → OutcomesPass (xs ++ o ∷ ys)
    → Passes (outcome_verdict o)
split-Pass [] o ys h = h.0
split-Pass (x ∷ xs) o ys h = split-Pass xs o ys h.1

Worst-Passes :
    (os : List CheckOutcome) (v : Verdict) → Worst allowed os v → Passes v ↔ OutcomesPass os
unfolding rank
Worst-Passes os v (start_stays e m) =
    (λ h. AtMost-Pass 0 os (omega arith) m, λ h. rw e (omega arith))
Worst-Passes os v (first_worst xs o ys e f g b m) = (
  λ h. rw e (
      All-append _ xs (o ∷ ys) (Below-Pass (rank v) xs h b)
        (rw f at h, AtMost-Pass (rank v) ys h m)),
  λ h. rw f (split-Pass xs o ys (rw e at h)),
)

is_no-false : (b : Bool) → is_no (some b) ≡ false → b ≡ true
is_no-false b h = ground arith

module _ (cs : Text → Bool) (ctx : RuleContext) where
  post_test-Passes :
      All (λ v. Passes v.1) (evaluate (with_baseline cs []) post_test ctx)
      ↔ (is_no ctx.tests_passed ≡ false)
  unfolding evaluate with_baseline rank
  post_test-Passes = (λ h. ground (arith, h), λ h. ground (arith, h))

  pre_commit-Passes : All (λ v. Passes v.1) (evaluate (with_baseline cs []) pre_commit ctx) ↔ (
      (is_no ctx.progress_reflects_completion ≡ false)
      × (is_prohibited cs ctx.commit_message ≡ false))
  unfolding evaluate with_baseline rank
  pre_commit-Passes = (λ h. ground (arith, h), λ h. ground (arith, h))

  step_complete-Passes :
      All (λ v. Passes v.1) (evaluate (with_baseline cs []) step_complete ctx) ↔ (
        (is_no ctx.tests_passed ≡ false)
        × (is_no ctx.progress_reflects_completion ≡ false)
        × ((ltb 0 ctx.max_attempts && leb ctx.max_attempts ctx.attempts) ≡ false)
        × Passes (gate_verdict ctx.gate_outcomes block))
  unfolding evaluate with_baseline rank
  step_complete-Passes = (λ h. ground (arith, h), λ h. ground (arith, h))

-- With the default severities, a step is committed exactly if its tests did not fail, the progress
-- file reflects it, its commit message is clean, it has attempts left, and no quality check gives
-- more than a warning.
pub decide_step-default_iff :
    (cs : Text → Bool) (inputs : CompletionInputs) (os : List CheckOutcome)
    → (decide_step (with_baseline cs []) inputs os ≡ StepAction.commit) ↔ (
        (is_no inputs.tests_passed ≡ false)
        × (inputs.progress_reflects_completion ≡ true)
        × (is_prohibited cs (some inputs.commit_message) ≡ false)
        × ((ltb 0 inputs.max_attempts && leb inputs.max_attempts inputs.attempts) ≡ false)
        × All (λ o. Passes (outcome_verdict o)) os)
decide_step-default_iff cs inputs os = (
  λ h.
      let (a, b, c) = (decide_step-commit_iff (with_baseline cs []) inputs os).0 h in
      let tests = (post_test-Passes cs ctx).0 a in
      let pre = (pre_commit-Passes cs ctx).0 b in
      let last = (step_complete-Passes cs ctx).0 c in
      (unfold completion_context in
        (
          tests,
          is_no-false _ pre.0,
          pre.1,
          last.2,
          (Worst-Passes os _ (gate_verdict-Worst os).0).0 last.3,
        )),
  λ h. (decide_step-commit_iff (with_baseline cs []) inputs os).1 (
      unfold completion_context in
      (
        (post_test-Passes cs ctx).1 h.0,
        (pre_commit-Passes cs ctx).1 (ground (arith, h.1), h.2),
        (step_complete-Passes cs ctx).1
            (h.0, ground (arith, h.1), h.3, (Worst-Passes os _ (gate_verdict-Worst os).0).1 h.4),
      )),
)
  where
    ctx : RuleContext
    ctx = completion_context inputs os
