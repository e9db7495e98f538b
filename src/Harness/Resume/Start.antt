-- ===== src/Harness/Resume/Start.antt =====
-- crates/localpilot-harness/src/resume.rs: `resume_one_step_with_events`, from the progress file on.
use unshackled.Prelude.{ℕ, max, false, not, Option, none, some, List, [], ◌∷◌}
use unshackled.Text.{Text, codes}
use unshackled.Core.Summary.{has_none}
use unshackled.Harness.Config.{CheckConfig}
use unshackled.Harness.Rules.{session_start, RuleContext, RuleEngine}
use unshackled.Harness.Worker.{new}
use unshackled.Harness.Progress.{Step, Progress, next_incomplete}
use unshackled.Harness.Progress.File.{malformed, Parsed, ok, err, parse}
use unshackled.Harness.Resume.Status.{committable_paths, first_blocking_reason, legacy_test_check}
use unshackled.Harness.Resume.Driver.{
  Action, git_call, step_started, ResumeOutcome, Outside, max_replans, step_prompt, ended,
}
use unshackled.Harness.Resume.Run.{status_args, step_checks, attempts_loop, finish}

-- `..RuleContext::default()`.
abbrev pub start_context : Text → RuleContext
start_context status = record {
  uncommitted_unrelated = not (has_none (committable_paths status));
  path_inside_workspace = none;
  path_secret_like = false;
  commit_message = none;
  tests_passed = none;
  progress_reflects_completion = none;
  test_first_required = false;
  editing_impl_before_tests = false;
  attempts = 0;
  max_attempts = 0;
  gate_outcomes = [];
}

module _ (outside : Outside) (engine : RuleEngine) (checks : List CheckConfig)
    (max_attempts : ℕ) where
  -- The run of a step, behind the guard of the session's start.
  unfoldable pub work_step :
      ℕ → Progress → Step → List Action → Option (List Action × Parsed ResumeOutcome)
  unfolding attempts_loop finish
  work_step fuel p s log =
      let started = step_started s.number s.description ∷ log in
      finish outside p s (
        attempts_loop outside engine checks max_attempts p.name s (outside.last_event started) fuel
          (new (max max_attempts 1) max_replans) (step_prompt s) started)

  abbrev pub guarded :
      ℕ → Progress → Step → List Action → Option Text → Option (List Action × Parsed ResumeOutcome)
  guarded fuel p s log (some reason) = some (log, ok (ended s reason []))
  guarded fuel p s log none = work_step fuel p s log

  abbrev pub started_with :
      ℕ → Progress → Step → List Action → Parsed Text → Option (List Action × Parsed ResumeOutcome)
  started_with fuel p s log (err e) = some (log, err e)
  started_with fuel p s log (ok status) =
      guarded fuel p s log (first_blocking_reason engine session_start (start_context status))

  abbrev pub of_step : ℕ → Progress → Option Step → Option (List Action × Parsed ResumeOutcome)
  of_step fuel p none =
      some ([], err (malformed (codes "PROGRESS.md") (codes "no incomplete steps remain")))
  of_step fuel p (some s) =
      started_with fuel p s (git_call status_args ∷ []) (outside.git (git_call status_args ∷ []))

  abbrev pub of_file : ℕ → Parsed Progress → Option (List Action × Parsed ResumeOutcome)
  of_file fuel (err e) = some ([], err e)
  of_file fuel (ok p) = of_step fuel p (next_incomplete p)

  abbrev pub of_text : ℕ → Parsed Text → Option (List Action × Parsed ResumeOutcome)
  of_text fuel (err e) = some ([], err e)
  of_text fuel (ok file) = of_file fuel (parse file)

-- `resume_one_step_with_events`, with fuel for the loop; `none` if it does not suffice.
unfoldable pub resume_one_step :
    Outside
    → RuleEngine
    → Option Text
    → List CheckConfig
    → ℕ
    → ℕ
    → Option (List Action × Parsed ResumeOutcome)
unfolding work_step parse next_incomplete first_blocking_reason committable_paths legacy_test_check
resume_one_step outside engine test_command checks max_attempts fuel =
    of_text outside engine (step_checks test_command checks) max_attempts fuel outside.progress_file
