-- ===== src/Harness/Resume/Driver.antt =====
-- crates/localpilot-harness/src/resume.rs: what the run of a step asks of the outside, and its outcomes. What
-- the session, git and the file system answer may depend on all that was done before.
use unshackled.Prelude.{ℕ, Bool, true, false, Option, none, some, List, ◌∷◌, ◌++◌, length}
use unshackled.Text.{Text, codes}
use unshackled.Text.Decimal.{decimal}
use unshackled.Llm.Errors.{QuotaInfo}
use unshackled.Core.Summary.{StructuredSummary, has_none}
use unshackled.Core.Summary
use unshackled.Quota.{PausedRun}
use unshackled.Harness.Config.{CheckConfig, CheckOutcome}
use unshackled.Harness.Worker.{StepLoop}
use unshackled.Harness.Progress.{Step}
use unshackled.Harness.Progress.File.{HarnessError, Parsed}

pub data StopReason : Type 0 where
  done cancelled degraded provider_error : StopReason

-- `{reason:?}`.
unfoldable pub debug_reason : StopReason → Text
debug_reason done = codes "Done"
debug_reason cancelled = codes "Cancelled"
debug_reason degraded = codes "Degraded"
debug_reason provider_error = codes "ProviderError"

-- What the run asks of the outside and writes to the log of events, in order.
pub data Action : Type 0 where
  turn : Text → Action
  gate_run : List CheckConfig → Action
  git_call : List Text → Action
  file_written : Text → Text → Action
  pause_stored : PausedRun → Action
  step_started : ℕ → Text → Action
  step_completed : ℕ → Option Text → ℕ → Action
  branch_closed : StructuredSummary → Action
  branch_forked : Text → Action

pub record ResumeOutcome : Type 0 where
  pub step_number : ℕ
  pub is_committed : Bool
  pub blocked_reason : Option Text
  pub is_paused : Bool
  pub gate : List CheckOutcome

-- The answers of the outside: each depends on what was done before, latest first.
pub record Outside : Type 0 where
  pub progress_file : Parsed Text
  pub run_turn : List Action → StopReason
  pub last_quota : List Action → Option QuotaInfo
  pub run_gate : List Action → List CheckOutcome
  pub git : List Action → Parsed Text
  pub written : List Action → Option HarnessError
  pub decisions_file : List Action → Option Text
  pub today : Text
  pub last_event : List Action → Option Text
  pub now : ℕ
  pub jittered : ℕ → ℕ

abbrev pub worker_prompt : Text
worker_prompt =
    codes
      "You are completing exactly one step of an implementation plan. Make the change using the available tools, then briefly confirm completion. Do not start any other step.\n\nStep: "

abbrev pub max_replans : ℕ
max_replans = 1

abbrev pub step_prompt : Step → Text
step_prompt s = worker_prompt ++ (decimal s.number ++ (codes ". " ++ s.description))

unfoldable pub retry_prompt : Step → Text → Text
unfolding decimal
retry_prompt s feedback =
    step_prompt s
    ++ (codes "\n\nThe previous attempt did not pass the quality gate: "
        ++ (feedback ++ codes ". Address the findings and complete the step."))

unfoldable pub commit_message_of : Step → Text
commit_message_of s = codes "harness: " ++ s.description

abbrev pub ended : Step → Text → List CheckOutcome → ResumeOutcome
ended s reason gate = record {
  step_number = s.number;
  is_committed = false;
  blocked_reason = some reason;
  is_paused = false;
  gate = gate;
}

-- How the loop is left: for the commit of the step, with an outcome, or with an error.
pub data LoopEnd : Type 0 where
  to_commit : StepLoop → List CheckOutcome → LoopEnd
  returned : ResumeOutcome → LoopEnd
  failed : HarnessError → LoopEnd

abbrev pub abandoned : List Text → StructuredSummary
abandoned logs = Summary.new (codes "Step attempt abandoned:") logs

abbrev pub fork_from : Option Text → List Action → List Action
fork_from none done_before = done_before
fork_from (some from) done_before = branch_forked from ∷ done_before

abbrev pub default_quota : QuotaInfo
default_quota = record {
  retry_after = none;
  reset_at = none;
  limit_kind = none;
  retryable = true;
  raw_provider_code = none;
}

abbrev pub or_quota : Option QuotaInfo → QuotaInfo
or_quota none = default_quota
or_quota (some q) = q

abbrev pub Continue : Type 0
Continue = StepLoop → Text → List Action → Option (List Action × LoopEnd)

abbrev pub replanned : Step → List Text → List CheckOutcome → Option HarnessError → LoopEnd
replanned s logs gate (some e) = failed e
replanned s logs gate none = returned (
    ended s
      (codes "replanned after "
        ++ (decimal (length logs) ++ codes " failed attempts; recorded in DECISIONS.md"))
      gate)
