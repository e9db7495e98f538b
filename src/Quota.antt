-- ===== src/Quota.antt =====
-- crates/localpilot-quota/src/lib.rs: windows of a provider's quota, and when a paused run resumes.
-- The clock is an argument `now`, the product with a random fraction the argument `jittered`, and a
-- duration is its number of nanoseconds.
use Prim.Native.Nat.{min}
use unshackled.Prelude.{
  ℕ, ◌+◌, ◌-◌, ◌*◌, ◌/◌, ◌^◌, Bool, true, false, not, ◌&&◌, Option, none, some, List, [], ◌∷◌, ltb,
  if◌then◌else◌,
}
use unshackled.Text.{Text, codes}
use unshackled.Llm.Errors.{QuotaInfo}
pub mod Gates
pub mod Window

pub record QuotaWindow : Type 0 where
  pub wait : ℕ
  pub reset_at : Option ℕ
  pub retryable : Bool
  pub reason : Text

abbrev pub second : ℕ
second = 1_000_000_000

abbrev pub min_backoff : ℕ
min_backoff = 15 * second

abbrev pub max_backoff : ℕ
max_backoff = 15 * 60 * second

abbrev pub duration_max : ℕ
duration_max = 2 ^ 64 * second - 1

abbrev pub backoff_base : ℕ → ℕ
backoff_base attempt = min (min (min_backoff * 2 ^ min (attempt - 1) 16) duration_max) max_backoff

unfoldable pub backoff_with_jitter : (ℕ → ℕ) → ℕ → ℕ
backoff_with_jitter jittered attempt =
    backoff_base attempt / 2 + jittered (backoff_base attempt / 2)

abbrev pub stated_wait : (ℕ → ℕ) → ℕ → ℕ → Option ℕ → Option ℕ → ℕ
stated_wait jittered now attempt (some retry_after) reset_at = retry_after
stated_wait jittered now attempt none (some reset_at) = (reset_at - now) * second
stated_wait jittered now attempt none none = backoff_with_jitter jittered attempt

abbrev pub first_of_two : Option Text → Option Text → Text → Text
first_of_two (some a) b c = a
first_of_two none (some b) c = b
first_of_two none none c = c

unfoldable pub estimate_window : (ℕ → ℕ) → ℕ → QuotaInfo → ℕ → QuotaWindow
unfolding backoff_with_jitter
estimate_window jittered now info attempt = record {
  wait = stated_wait jittered now attempt info.retry_after info.reset_at;
  reset_at = info.reset_at;
  retryable = info.retryable;
  reason =
      first_of_two info.raw_provider_code info.limit_kind (codes "provider quota or rate limit");
}

pub record PausedRun : Type 0 where
  pub paused_at_unix : ℕ
  pub reason : Text
  pub resume_eligible_unix : Option ℕ
  pub step_number : ℕ
  pub provider_id : Text

-- `PausedRun::new`; the sum is not checked for overflow of 64 bits.
unfoldable pub pause : ℕ → ℕ → Text → QuotaWindow → PausedRun
pause now step_number provider_id window = record {
  paused_at_unix = now;
  reason = window.reason;
  resume_eligible_unix = some (now + window.wait / second);
  step_number = step_number;
  provider_id = provider_id;
}

pub data QuotaAutoResume : Type 0 where
  off ask run global : QuotaAutoResume

pub data ResumeMode : Type 0 where
  off ask run global : ResumeMode

unfoldable pub mode_of : QuotaAutoResume → ResumeMode
mode_of QuotaAutoResume.off = ResumeMode.off
mode_of QuotaAutoResume.ask = ResumeMode.ask
mode_of QuotaAutoResume.run = ResumeMode.run
mode_of QuotaAutoResume.global = ResumeMode.global

pub record QuotaConfig : Type 0 where
  pub auto_resume : QuotaAutoResume
  pub max_wait_minutes : ℕ
  pub resume_requires_clean_workspace : Bool
  pub resume_requires_no_pending_approval : Bool
  pub resume_only_at_step_boundary : Bool

pub record ResumePolicy : Type 0 where
  pub mode : ResumeMode
  pub max_wait : ℕ
  pub requires_clean_workspace : Bool
  pub requires_no_pending_approval : Bool
  pub only_at_step_boundary : Bool

unfoldable pub policy_of : QuotaConfig → ResumePolicy
unfolding mode_of
policy_of config = record {
  mode = mode_of config.auto_resume;
  max_wait = config.max_wait_minutes * 60 * second;
  requires_clean_workspace = config.resume_requires_clean_workspace;
  requires_no_pending_approval = config.resume_requires_no_pending_approval;
  only_at_step_boundary = config.resume_only_at_step_boundary;
}

pub record ResumeContext : Type 0 where
  pub window_elapsed : Bool
  pub at_step_boundary : Bool
  pub workspace_clean : Bool
  pub pending_destructive_approval : Bool
  pub user_cancelled : Bool
  pub provider_identity_changed : Bool
  pub waited : ℕ

pub data ResumeDecision : Type 0 where
  resume wait ask_user : ResumeDecision
  blocked_by : Text → ResumeDecision

abbrev pub decide_mode : ResumeMode → ResumeDecision
decide_mode ResumeMode.off = blocked_by (codes "auto-resume is off")
decide_mode ResumeMode.ask = ask_user
decide_mode ResumeMode.run = resume
decide_mode ResumeMode.global = resume

unfoldable pub decide_resume : ResumePolicy → ResumeContext → ResumeDecision
decide_resume policy ctx =
    if ctx.user_cancelled
    then blocked_by (codes "the run was cancelled by the user")
    else if ctx.provider_identity_changed
    then blocked_by (codes "the provider configuration changed during the wait")
    else if ltb policy.max_wait ctx.waited
    then blocked_by (codes "the maximum wait time was exceeded")
    else if not ctx.window_elapsed
    then wait
    else if policy.only_at_step_boundary && not ctx.at_step_boundary
    then blocked_by (codes "not at a harness step boundary")
    else if policy.requires_no_pending_approval && ctx.pending_destructive_approval
    then blocked_by (codes "a destructive action is pending approval")
    else if policy.requires_clean_workspace && not ctx.workspace_clean
    then blocked_by (codes "the workspace has unrelated uncommitted changes")
    else decide_mode policy.mode
