-- ===== src/Harness/Worker.antt =====
-- crates/localpilot-harness/src/worker.rs: the gate at the end of a step and the loop that retries,
-- discards and replans it.
use unshackled.Prelude.{
  ℕ, ◌+◌, ◌%◌, ◌^◌, Bool, true, false, Option, none, some, List, [], ◌∷◌, ◌++◌, leb, ltb,
  if◌then◌else◌,
}
use unshackled.Text.{Text, codes}
use unshackled.Harness.Config.{CheckOutcome}
use unshackled.Harness.Rules.{
  Trigger, post_test, pre_commit, step_complete, RuleContext, RuleEngine, evaluate,
}
use unshackled.Harness.Verdicts.{Verdict, allowed, warned, retry, discard, blocked}
pub mod Loop
pub mod Completion

pub data AttemptResult : Type 0 where
  success : AttemptResult
  retried discarded : Text → AttemptResult

pub data StepDecision : Type 0 where
  commit give_up : StepDecision
  retry_same_context discard_and_reset : Text → StepDecision
  replan : List Text → StepDecision

pub record StepLoop : Type 0 where
  pub max_attempts : ℕ
  pub max_replans : ℕ
  pub attempts : ℕ
  pub replans : ℕ
  pub attempt_logs : List Text

unfoldable pub new : ℕ → ℕ → StepLoop
new max_attempts max_replans = record {
  max_attempts = max_attempts;
  max_replans = max_replans;
  attempts = 0;
  replans = 0;
  attempt_logs = [];
}

abbrev pub u32_mod : ℕ
u32_mod = 2 ^ 32

-- The part of `on_attempt` behind the match on the result; the counters are `u32`.
unfoldable pub on_failure : StepLoop → Text → Bool → StepLoop × StepDecision
on_failure l reason keep_context =
    let attempts = (l.attempts + 1) % u32_mod in
    let logs = l.attempt_logs ++ reason ∷ [] in
    let failed = record l { attempts = attempts; attempt_logs = logs } in
    if leb l.max_attempts attempts
    then (if leb l.max_replans l.replans then (failed, give_up) else (
      record l { replans = (l.replans + 1) % u32_mod; attempts = 0; attempt_logs = [] },
      replan logs,
    ))
    else (failed, if keep_context then retry_same_context reason else discard_and_reset reason)

unfoldable pub on_attempt : StepLoop → AttemptResult → StepLoop × StepDecision
unfolding on_failure
on_attempt l success = (l, commit)
on_attempt l (retried reason) = on_failure l reason true
on_attempt l (discarded reason) = on_failure l reason false

pub record CompletionInputs : Type 0 where
  pub tests_passed : Option Bool
  pub progress_reflects_completion : Bool
  pub commit_message : Text
  pub attempts : ℕ
  pub max_attempts : ℕ

pub data CompletionDecision : Type 0 where
  committed : CompletionDecision
  stopped : Text → CompletionDecision

pub data StepAction : Type 0 where
  commit : StepAction
  try_again stop : Text → StepAction

unfoldable pub action_rank : StepAction → ℕ
action_rank StepAction.commit = 0
action_rank (try_again m) = 1
action_rank (stop m) = 2

-- `..RuleContext::default()`.
unfoldable pub completion_context : CompletionInputs → List CheckOutcome → RuleContext
completion_context inputs gate_outcomes = record {
  uncommitted_unrelated = false;
  path_inside_workspace = none;
  path_secret_like = false;
  commit_message = some inputs.commit_message;
  tests_passed = inputs.tests_passed;
  progress_reflects_completion = some inputs.progress_reflects_completion;
  test_first_required = false;
  editing_impl_before_tests = false;
  attempts = inputs.attempts;
  max_attempts = inputs.max_attempts;
  gate_outcomes = gate_outcomes;
}

-- The action that a verdict asks for; none of an allowance or a warning.
unfoldable pub candidate : Text × Verdict → Option StepAction
candidate (name, allowed) = none
candidate (name, warned m) = none
candidate (name, retry m) = some (try_again m)
candidate (name, discard m) = some (try_again m)
candidate (name, blocked m) = some (stop (name ++ (codes ": " ++ m)))

abbrev pub higher : StepAction → Option StepAction → StepAction
higher action none = action
higher action (some c) = if ltb (action_rank action) (action_rank c) then c else action

-- The inner loop of `decide_step`, over the verdicts of one trigger.
unfoldable pub reduce : StepAction → List (Text × Verdict) → StepAction
unfolding candidate action_rank
reduce action [] = action
reduce action (v ∷ vs) = reduce (higher action (candidate v)) vs

unfoldable pub reduce_triggers : RuleEngine → RuleContext → StepAction → List Trigger → StepAction
unfolding reduce evaluate
reduce_triggers e ctx action [] = action
reduce_triggers e ctx action (t ∷ ts) = reduce_triggers e ctx (reduce action (evaluate e t ctx)) ts

unfoldable pub decide_step : RuleEngine → CompletionInputs → List CheckOutcome → StepAction
unfolding reduce_triggers completion_context
decide_step e inputs gate_outcomes =
    reduce_triggers e (completion_context inputs gate_outcomes) StepAction.commit
      (post_test ∷ pre_commit ∷ step_complete ∷ [])

abbrev pub completed : StepAction → CompletionDecision
completed StepAction.commit = committed
completed (try_again m) = stopped m
completed (stop m) = stopped m

unfoldable pub evaluate_completion : RuleEngine → CompletionInputs → CompletionDecision
unfolding decide_step
evaluate_completion e inputs = completed (decide_step e inputs [])
