-- ===== src/Harness/Resume/Ends.antt =====
-- The end of the loop over the attempts at a step.
use unshackled.Prelude.{
  ℕ, zero, suc, ◌+◌, ◌%◌, ◌≤◌, ◌<◌, ◌≡◌, refl, true, false, Option, none, some, List, [], ◌∷◌, ◌++◌,
  All, arith,
}
use unshackled.Text.{Text, codes}
use unshackled.Harness.Config.{CheckConfig, CheckOutcome}
use unshackled.Harness.Rules.{RuleEngine}
use unshackled.Harness.Worker.{
  StepLoop, retry_same_context, replan, u32_mod, StepAction, try_again, stop, decide_step,
  on_attempt, on_failure,
}
use unshackled.Harness.Progress.{Step}
use unshackled.Harness.Progress.File.{HarnessError, Parsed, ok, err}
use unshackled.Harness.Resume.Driver.{
  StopReason, done, cancelled, degraded, provider_error, Action, turn, gate_run, file_written,
  step_completed, Outside, Continue, replanned, LoopEnd, to_commit, returned, failed, retry_prompt,
}
use unshackled.Harness.Resume.Run.{
  completion_inputs, after_replan, on_decision, on_action, after_turn, attempts_loop,
}

-- The number of turns that were run.
abbrev pub turns : List Action → ℕ
turns [] = 0
turns (turn prompt ∷ log) = suc (turns log)
turns (e ∷ log) = turns log

abbrev pub IsOpen : Action → Type 0
IsOpen (step_completed n c a) = ⊥
IsOpen (file_written path t) = path ≡ codes "DECISIONS.md"
IsOpen e = Unit {0}

-- No step is recorded as completed, and no file written but that of the decisions.
abbrev pub AreOpen : List Action → Type 0
AreOpen = All IsOpen

-- A loop of which `left` attempts are left, and no replan was made.
pub record HasLeft (left : ℕ) (l : StepLoop) : Type 0 where
  pub total : l.attempts + left ≡ l.max_attempts
  pub small : l.max_attempts < u32_mod
  pub replan_cap : l.max_replans ≡ 1
  pub no_replan : l.replans ≡ 0

module _ (outside : Outside) (engine : RuleEngine) (checks : List CheckConfig)
    (max_attempts : ℕ) where
  module _ (name : Text) (s : Step) (anchor : Option Text) where
    -- The loop is left for a commit only on the decision to commit, with no replan made.
    abbrev pub IsGood : LoopEnd → Type 0
    IsGood (to_commit l gate) =
        (l.replans ≡ 0)
        × (decide_step engine (completion_inputs s max_attempts gate) gate ≡ StepAction.commit)
    IsGood (returned o) = (o.is_committed ≡ false) × (o.step_number ≡ s.number)
    IsGood (failed e) = Unit {0}

    abbrev pub Ends : ℕ → Option (List Action × LoopEnd) → Type 0
    Ends limit none = ⊥
    Ends limit (some (log, e)) = (turns log ≤ limit) × AreOpen log × IsGood e

    -- What the next rounds do with the attempts that are left.
    abbrev Goes : ℕ → ℕ → Continue → Type 0
    Goes limit left next =
        (l : StepLoop) (prompt : Text) (log : List Action)
        → HasLeft left l
        → 0 < left
        → turns log + left ≤ limit
        → AreOpen log
        → Ends limit (next l prompt log)

    keep_trying :
        (left : ℕ) (l : StepLoop) (reason : Text)
        → HasLeft (suc left) l
        → 0 < left
        → on_failure l reason true ≡ (
          record l { attempts = l.attempts + 1; attempt_logs = l.attempt_logs ++ reason ∷ [] },
          retry_same_context reason,
        )
    unfolding on_failure
    keep_trying left l reason h q = ground (arith, h.total, h.small)

    spent_up :
        (l : StepLoop) (reason : Text)
        → HasLeft 1 l
        → on_failure l reason true ≡ (
          record l { replans = (l.replans + 1) % u32_mod; attempts = 0; attempt_logs = [] },
          replan (l.attempt_logs ++ reason ∷ []),
        )
    unfolding on_failure
    spent_up l reason h = ground (arith, h.total, h.small, h.replan_cap, h.no_replan)

    replanned-IsGood :
        (logs : List Text) (gate : List CheckOutcome) (o : Option HarnessError)
        → IsGood (replanned s logs gate o)
    replanned-IsGood logs gate none = (refl, refl)
    replanned-IsGood logs gate (some e) = tt

    after_replan-Ends :
        (limit : ℕ) (logs : List Text) (gate : List CheckOutcome) (log : List Action)
        (r : Parsed Text)
        → turns log ≤ limit
        → AreOpen log
        → Ends limit
            (some (after_replan outside engine checks max_attempts name s anchor logs gate log r))
    after_replan-Ends limit logs gate log (err e) t o = (t, o, tt)
    after_replan-Ends limit logs gate log (ok file) t o =
        (t, (refl, o), replanned-IsGood logs gate _)

    on_decision-Ends :
        (limit left : ℕ) (l : StepLoop) (gate : List CheckOutcome) (log : List Action)
        (next : Continue) (reason : Text)
        → HasLeft (suc left) l
        → turns log + left ≤ limit
        → AreOpen log
        → Goes limit left next
        → Ends limit (
            on_decision outside engine checks max_attempts name s anchor gate log next
              (on_failure l reason true))
    on_decision-Ends limit zero l gate log next reason h t o g =
        rw (spent_up l reason h) (after_replan-Ends limit _ gate _ _ (omega (arith, t)) (tt, o))
    on_decision-Ends limit (suc left) l gate log next reason h t o g =
        rw (keep_trying (suc left) l reason h (omega arith)) (
          g _ (retry_prompt s reason) log
            (record {
              total = omega (arith, h.total);
              small = h.small;
              replan_cap = h.replan_cap;
              no_replan = h.no_replan;
            })
            (omega arith) t o)

    on_action-Ends :
        (limit left : ℕ) (l : StepLoop) (gate : List CheckOutcome) (log : List Action)
        (next : Continue) (a : StepAction)
        → decide_step engine (completion_inputs s max_attempts gate) gate ≡ a
        → HasLeft (suc left) l
        → turns log + left ≤ limit
        → AreOpen log
        → Goes limit left next
        → Ends limit (on_action outside engine checks max_attempts name s anchor gate log l next a)
    unfolding on_attempt
    on_action-Ends limit left l gate log next StepAction.commit e h t o g =
        (omega (arith, t), o, (h.no_replan, e))
    on_action-Ends limit left l gate log next (stop reason) e h t o g =
        (omega (arith, t), o, (refl, refl))
    on_action-Ends limit left l gate log next (try_again reason) e h t o g =
        on_decision-Ends limit left l gate log next reason h t o g

    after_turn-Ends :
        (limit left : ℕ) (l : StepLoop) (log : List Action) (next : Continue) (r : StopReason)
        → HasLeft (suc left) l
        → turns log + left ≤ limit
        → AreOpen log
        → Goes limit left next
        → Ends limit (after_turn outside engine checks max_attempts name s anchor log l next r)
    after_turn-Ends limit left l log next provider_error h t o g =
        (omega (arith, t), (tt, o), (refl, refl))
    after_turn-Ends limit left l log next cancelled h t o g = (omega (arith, t), o, (refl, refl))
    after_turn-Ends limit left l log next degraded h t o g = (omega (arith, t), o, (refl, refl))
    after_turn-Ends limit left l log next done h t o g =
        let later = gate_run checks ∷ log in
        on_action-Ends limit left l (outside.run_gate later) later next _ refl h t (tt, o) g

    -- With as much fuel as attempts are left the loop ends.
    pub attempts_loop-Goes :
        (limit left : ℕ)
        → Goes limit left (attempts_loop outside engine checks max_attempts name s anchor left)
    unfolding attempts_loop
    attempts_loop-Goes limit zero l prompt log h q t o = absurd (omega (arith, q))
    attempts_loop-Goes limit (suc left) l prompt log h q t o =
        after_turn-Ends limit left l (turn prompt ∷ log)
          (attempts_loop outside engine checks max_attempts name s anchor left)
          (outside.run_turn (turn prompt ∷ log)) h (omega (arith, t)) (tt, o)
          (attempts_loop-Goes limit left)
