-- ===== src/Tests/Harness.antt =====
-- The harness at concrete inputs.
use unshackled.Prelude.{
  ◌++◌, ◌≡◌, ◌≢◌, refl, ◌↔◌, Bool, true, false, ◌&&◌, none, some, List, [], ◌∷◌, arith, leb, ltb,
  All, In,
}
use unshackled.Text.{Text, codes}
use unshackled.Harness.Config.{RuleSeverity, off, warn, block, CheckOutcome, passed, failed, denied}
use unshackled.Harness.Rules.{
  pre_edit, RuleContext, workspace_boundary, applies_to, name, with_baseline, evaluate, is_no,
  is_prohibited,
}
use unshackled.Harness.Verdicts.{Verdict, allowed, gate_verdict, softened, outcome_verdict}
use unshackled.Harness.Verdicts.Gate.{Worst, kind_of, kind_for, gate_verdict-Worst}
use unshackled.Harness.Rules.Engine.{outside, critical-evaluate}
use unshackled.Harness.Worker.{
  AttemptResult, retried, discarded, give_up, new, on_attempt, CompletionInputs, StepAction,
  decide_step,
}
use unshackled.Harness.Worker.Loop.{
  give_up_at_last, loop_after-Spent, Spent, reasons, IsFailure, loop_after, decisions,
}
use unshackled.Harness.Worker.Completion.{Passes, decide_step-default_iff}
use unshackled.Harness.Progress.{Step, Progress, select_next_step, completed_count, mark_complete}
use unshackled.Harness.Progress.Completion.{numbers, select_next_step-mark_complete}

abbrev outcomes : List CheckOutcome
outcomes =
    record { name = codes "fmt"; status = passed; detail = []; fixed = false; severity = none }
    ∷ record { name = codes "lint"; status = failed; detail = []; fixed = false; severity = none }
    ∷ record { name = codes "test"; status = denied; detail = []; fixed = false; severity = none }
    ∷ []

gate_verdict-Worst_example :
    Worst allowed outcomes (gate_verdict outcomes block)
    × (kind_of (gate_verdict outcomes block) ≡ kind_for outcomes)
    × (gate_verdict outcomes warn ≡ softened (gate_verdict outcomes block))
    × (gate_verdict outcomes off ≡ allowed)
gate_verdict-Worst_example = gate_verdict-Worst outcomes

abbrev silent : Text → Bool
silent _ = false

abbrev escape : RuleContext
escape = record {
  uncommitted_unrelated = false;
  path_inside_workspace = some false;
  path_secret_like = false;
  commit_message = none;
  tests_passed = none;
  progress_reflects_completion = none;
  test_first_required = false;
  editing_impl_before_tests = false;
  attempts = 0;
  max_attempts = 0;
  gate_outcomes = [];
}

abbrev switched_off : List (Text × RuleSeverity)
switched_off = (codes "workspace_boundary", off) ∷ []

critical-evaluate_example :
    (v : Verdict) × (v ≢ allowed)
    × In (name workspace_boundary, v) (evaluate (with_baseline silent switched_off) pre_edit escape)
unfolding applies_to
critical-evaluate_example =
    critical-evaluate silent switched_off pre_edit escape workspace_boundary refl (outside refl)

abbrev inputs : CompletionInputs
inputs = record {
  tests_passed = some true;
  progress_reflects_completion = true;
  commit_message = codes "add parser";
  attempts = 1;
  max_attempts = 3;
}

decide_step-default_iff_example :
    (decide_step (with_baseline silent []) inputs outcomes ≡ StepAction.commit) ↔ (
      (is_no inputs.tests_passed ≡ false)
      × (inputs.progress_reflects_completion ≡ true)
      × (is_prohibited silent (some inputs.commit_message) ≡ false)
      × ((ltb 0 inputs.max_attempts && leb inputs.max_attempts inputs.attempts) ≡ false)
      × All (λ o. Passes (outcome_verdict o)) outcomes)
decide_step-default_iff_example = decide_step-default_iff silent inputs outcomes

abbrev failures : List AttemptResult
failures = retried (codes "red") ∷ discarded (codes "off course") ∷ retried (codes "red") ∷ []

failures-IsFailure : All IsFailure (discarded (codes "red") ∷ failures)
failures-IsFailure = (ground arith, (ground arith, (ground arith, (ground arith, tt))))

give_up_at_last_example :
    All (λ d. d ≢ give_up) (decisions (new 2 1) failures)
    × ((on_attempt (loop_after (new 2 1) failures) (discarded (codes "red"))).1 ≡ give_up)
give_up_at_last_example =
    give_up_at_last 2 1 failures (discarded (codes "red")) (omega arith) (omega arith) (omega arith)
      failures-IsFailure refl

loop_after-Spent_example :
    Spent 2 1 3 (loop_after (new 2 1) failures)
    × ((earlier : List Text) × (reasons failures
          ≡ earlier ++ (loop_after (new 2 1) failures).attempt_logs))
loop_after-Spent_example =
    loop_after-Spent 2 1 failures (omega arith) (omega arith) (omega arith) failures-IsFailure.1
      (omega arith)

abbrev closed_step : Step
closed_step = record {
  number = 1;
  description = codes "add parser";
  done = true;
  commit = some (codes "abc123");
  attempts = 1;
}

abbrev open_step : Step
open_step = record {
  number = 2;
  description = codes "add printer";
  done = false;
  commit = none;
  attempts = 0;
}

abbrev plan : Progress
plan = record { name = codes "demo"; branch = codes "main"; steps = closed_step ∷ open_step ∷ [] }

abbrev finished : Progress
finished = record plan { steps = closed_step ∷ [] }

select_next_step-mark_complete_example :
    ((mark_complete plan 2 none 1).1 ≡ true)
    × (completed_count (mark_complete plan 2 none 1).0 ≡ 2)
    × (numbers (mark_complete plan 2 none 1).0.steps ≡ 1 ∷ 2 ∷ [])
unfolding select_next_step completed_count
select_next_step-mark_complete_example =
    select_next_step-mark_complete plan open_step none 1 refl (refl, (refl, tt))
