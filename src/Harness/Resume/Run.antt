-- ===== src/Harness/Resume/Run.antt =====
-- crates/localpilot-harness/src/resume.rs: the loop of `resume_one_step_with_events`, and the commit.
use unshackled.Prelude.{
  ℕ, zero, suc, ◌+◌, ◌%◌, true, false, Option, none, some, List, [], ◌∷◌, ◌++◌,
}
use unshackled.Text.{Text, codes, text_eq}
use unshackled.Text.Trim.{trim}
use unshackled.Quota.{pause, estimate_window}
use unshackled.Harness.Config.{CheckConfig, CheckOutcome}
use unshackled.Harness.Rules.{RuleEngine}
use unshackled.Harness.Worker.{
  StepLoop, StepDecision, give_up, retry_same_context, discard_and_reset, replan, retried, u32_mod,
  StepAction, try_again, stop, CompletionInputs, decide_step, on_attempt,
}
use unshackled.Harness.Progress.{Step, Progress, mark_complete}
use unshackled.Harness.Progress.File.{HarnessError, Parsed, ok, err, render}
use unshackled.Harness.Resume.Status.{
  committable_paths, without, legacy_test_check, tests_passed_of,
}
use unshackled.Harness.Resume.Replan.{record_replan}
use unshackled.Harness.Resume.Driver.{
  StopReason, done, provider_error, debug_reason, Action, turn, gate_run, git_call, file_written,
  pause_stored, step_completed, branch_closed, ResumeOutcome, Outside, retry_prompt,
  commit_message_of, ended, LoopEnd, to_commit, returned, failed, abandoned, fork_from, or_quota,
  Continue, replanned,
}

abbrev pub completion_inputs : Step → ℕ → List CheckOutcome → CompletionInputs
completion_inputs s max_attempts gate = record {
  tests_passed = tests_passed_of gate;
  progress_reflects_completion = true;
  commit_message = commit_message_of s;
  attempts = 1;
  max_attempts = max_attempts;
}

abbrev pub cons_check : Option CheckConfig → List CheckConfig → List CheckConfig
cons_check none checks = checks
cons_check (some c) checks = c ∷ checks

abbrev pub step_checks : Option Text → List CheckConfig → List CheckConfig
step_checks none checks = checks
step_checks (some command) checks = cons_check (legacy_test_check command) checks

abbrev pub status_args : List Text
status_args = codes "status" ∷ codes "--porcelain" ∷ codes "--untracked-files=all" ∷ []

module _ (outside : Outside) (engine : RuleEngine) (checks : List CheckConfig)
    (max_attempts : ℕ) where
  module _ (name : Text) (s : Step) (anchor : Option Text) where
    abbrev pub after_replan :
        List Text → List CheckOutcome → List Action → Parsed Text → List Action × LoopEnd
    after_replan logs gate log (err e) = (log, failed e)
    after_replan logs gate log (ok file) =
        let later = file_written (codes "DECISIONS.md") file ∷ log in
        (later, replanned s logs gate (outside.written later))

    abbrev pub on_decision :
        List CheckOutcome
        → List Action
        → Continue
        → StepLoop × StepDecision
        → Option (List Action × LoopEnd)
    on_decision gate log next (l, StepDecision.commit) = some (log, to_commit l gate)
    on_decision gate log next (l, retry_same_context feedback) =
        next l (retry_prompt s feedback) log
    on_decision gate log next (l, discard_and_reset feedback) =
        next l (retry_prompt s feedback)
          (fork_from anchor (branch_closed (abandoned (feedback ∷ [])) ∷ log))
    on_decision gate log next (l, replan logs) =
        let closed = branch_closed (abandoned logs) ∷ log in
        some (
          after_replan logs gate closed
            (record_replan outside.today name s.number logs (outside.decisions_file closed)))
    on_decision gate log next (l, give_up) =
        some
          (log, returned (ended s (codes "gave up: the replan cap was reached for this step") gate))

    abbrev pub on_action :
        List CheckOutcome
        → List Action
        → StepLoop
        → Continue
        → StepAction
        → Option (List Action × LoopEnd)
    on_action gate log l next StepAction.commit = some (log, to_commit l gate)
    on_action gate log l next (stop reason) = some (log, returned (ended s reason gate))
    on_action gate log l next (try_again reason) =
        on_decision gate log next (on_attempt l (retried reason))

    abbrev pub paused_end : List Action → List Action × LoopEnd
    paused_end log =
        let window =
          estimate_window outside.jittered outside.now (or_quota (outside.last_quota log)) 1 in
        (
          pause_stored (pause outside.now s.number (codes "provider") window) ∷ log,
          returned (record (ended s (codes "paused on provider limit: " ++ window.reason) []) {
            is_paused = true;
          }),
        )

    abbrev pub after_turn :
        List Action → StepLoop → Continue → StopReason → Option (List Action × LoopEnd)
    after_turn log l next provider_error = some (paused_end log)
    after_turn log l next done =
        let later = gate_run checks ∷ log in
        let gate = outside.run_gate later in
        on_action gate later l next
          (decide_step engine (completion_inputs s max_attempts gate) gate)
    after_turn log l next reason = some (
      log,
      returned (ended s (codes "turn did not complete (" ++ (debug_reason reason ++ codes ")")) []),
    )

    -- The loop, of at most as many rounds as the fuel.
    unfoldable pub attempts_loop : ℕ → Continue
    unfolding record_replan retry_prompt estimate_window pause debug_reason on_attempt decide_step
        commit_message_of tests_passed_of
    attempts_loop zero l prompt log = none
    attempts_loop (suc fuel) l prompt log =
        after_turn (turn prompt ∷ log) l (attempts_loop fuel) (outside.run_turn (turn prompt ∷ log))

-- One call of git, and what comes after it if it succeeds.
abbrev pub then_git :
    {A : Type 0}
    → List Action
    → Parsed Text
    → (Text → List Action × Parsed A)
    → List Action × Parsed A
then_git log (err e) k = (log, err e)
then_git log (ok out) k = k out

module _ (outside : Outside) where
  unfoldable pub call_git :
      {A : Type 0}
      → List Text
      → List Action
      → (Text → List Action → List Action × Parsed A)
      → List Action × Parsed A
  call_git args log k =
      then_git (git_call args ∷ log) (outside.git (git_call args ∷ log))
        λ out. k out (git_call args ∷ log)

  unfoldable pub then_written :
      {A : Type 0}
      → List Action
      → Option HarnessError
      → (List Action → List Action × Parsed A)
      → List Action × Parsed A
  then_written log (some e) k = (log, err e)
  then_written log none k = k log

  module _ (p : Progress) (s : Step) where
    abbrev pub committed_outcome : List CheckOutcome → ResumeOutcome
    committed_outcome gate = record {
      step_number = s.number;
      is_committed = true;
      blocked_reason = none;
      is_paused = false;
      gate = gate;
    }

    -- What follows the commit of the step: the event, and the progress file.
    unfoldable pub record_completion :
        StepLoop
        → List CheckOutcome
        → Option Text
        → List Action
        → List Action × Parsed ResumeOutcome
    record_completion l gate hash log =
        let attempts = (l.replans + 1) % u32_mod in
        let marked = (mark_complete p s.number hash attempts).0 in
        let later =
          file_written (codes "PROGRESS.md") (render marked)
          ∷ step_completed s.number hash attempts
          ∷ log in
        then_written later (outside.written later) λ log1.
          call_git (codes "add" ∷ codes "PROGRESS.md" ∷ []) log1 λ out1 log2.
            call_git (codes "commit" ∷ codes "-m" ∷ codes "harness: update progress" ∷ []) log2
              λ out2 log3. (log3, ok (committed_outcome gate))

    unfoldable pub commit_paths :
        StepLoop → List CheckOutcome → List Text → List Action → List Action × Parsed ResumeOutcome
    commit_paths l gate [] log = record_completion l gate none log
    commit_paths l gate (path ∷ paths) log =
        call_git (codes "add" ∷ codes "--" ∷ path ∷ paths) log λ out1 log1.
          call_git (codes "commit" ∷ codes "-m" ∷ commit_message_of s ∷ []) log1 λ out2 log2.
            call_git (codes "rev-parse" ∷ codes "--short" ∷ codes "HEAD" ∷ []) log2
              λ head log3. record_completion l gate (some (trim head)) log3

    unfoldable pub finish :
        Option (List Action × LoopEnd) → Option (List Action × Parsed ResumeOutcome)
    finish none = none
    finish (some (log, returned outcome)) = some (log, ok outcome)
    finish (some (log, failed e)) = some (log, err e)
    finish (some (log, to_commit l gate)) = some (
        call_git status_args log λ status log1.
          commit_paths l gate
            (without (λ path. text_eq path (codes "PROGRESS.md")) (committable_paths status)) log1)
