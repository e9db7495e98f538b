-- ===== src/Tests/Resume.antt =====
-- The run of a step at a concrete input.
use unshackled.Prelude.{max, false, none, [], arith}
use unshackled.Text.{codes}
use unshackled.Harness.Rules.{RuleEngine, with_baseline}
use unshackled.Harness.Progress.File.{ok}
use unshackled.Harness.Resume.Driver.{Outside, done}
use unshackled.Harness.Resume.Start.{resume_one_step}
use unshackled.Harness.Resume.Whole.{IsFinished, resume_one_step-IsFinished}

-- Every turn is done, no check is configured, and git prints nothing.
abbrev quiet_outside : Outside
quiet_outside = record {
  progress_file =
      ok (codes "# Progress: parser\nBranch: main\n\n## Steps\n\n- [ ] 1. Write a test\n");
  run_turn = λ log. done;
  last_quota = λ log. none;
  run_gate = λ log. [];
  git = λ log. ok [];
  written = λ log. none;
  decisions_file = λ log. none;
  today = codes "2026-06-04";
  last_event = λ log. none;
  now = 0;
  jittered = λ d. d;
}

abbrev plain_engine : RuleEngine
plain_engine = with_baseline (λ t. false) []

resume_one_step-IsFinished_example :
    IsFinished quiet_outside plain_engine 3
      (max 3 1)
      (resume_one_step quiet_outside plain_engine none [] 3 (max 3 1))
resume_one_step-IsFinished_example =
    resume_one_step-IsFinished quiet_outside plain_engine none [] 3 (omega arith)
