-- ===== src/Tests/Providers.antt =====
-- The model of the providers, the quota and the framing at concrete inputs.
use unshackled.Prelude.{
  ℕ, ◌≤◌, ◌≡◌, refl, ◌↔◌, ◌/◌, ◌*◌, true, false, none, some, List, [], ◌∷◌, arith, All, leb,
  if◌then◌else◌,
}
use unshackled.Text.{codes}
use unshackled.Text.Split.{strip_cr}
use unshackled.Llm.Errors.{QuotaInfo, server}
use unshackled.Llm.Retry.{default_policy, Result, ok, err, Trace, retry}
use unshackled.Llm.Retry.Facts.{Retries, retry-Retries}
use unshackled.Quota.{
  ResumeMode, ResumePolicy, ResumeContext, decide_resume, resume, ask_user, estimate_window, second,
}
use unshackled.Quota.Gates.{IsSafe, Automatic, decide_resume_iff}
use unshackled.Quota.Window.{estimate_window-wait_bounds}
use unshackled.Rpc.Framing.{Bytes, LineFraming, push}
use unshackled.Rpc.Framing.Frames.{IsRecord, unlines, push-unlines}

abbrev info : QuotaInfo
info = record {
  retry_after = none;
  reset_at = none;
  limit_kind = none;
  retryable = true;
  raw_provider_code = none;
}

-- A jitter of one third.
abbrev third : ℕ → ℕ
third d = d / 3

third-le : (d : ℕ) → third d ≤ d
third-le d = omega arith

-- It works at the third attempt.
abbrev flaky : ℕ → Result ℕ
flaky attempt = if leb 3 attempt then ok 7 else err (server 503 none)

retry-Retries_example :
    (t : Trace ℕ) × (retry third default_policy flaky ≡ some t)
    × Retries third default_policy flaky 1 t
retry-Retries_example = retry-Retries third default_policy flaky third-le

abbrev policy : ResumePolicy
policy = record {
  mode = ResumeMode.run;
  max_wait = 60 * second;
  requires_clean_workspace = true;
  requires_no_pending_approval = true;
  only_at_step_boundary = true;
}

abbrev ctx : ResumeContext
ctx = record {
  window_elapsed = true;
  at_step_boundary = true;
  workspace_clean = true;
  pending_destructive_approval = false;
  user_cancelled = false;
  provider_identity_changed = false;
  waited = 20 * second;
}

decide_resume_iff_example :
    ((decide_resume policy ctx ≡ resume) ↔ (IsSafe policy ctx × Automatic ResumeMode.run))
    × ((decide_resume policy ctx ≡ ask_user)
        ↔ (IsSafe policy ctx × (ResumeMode.run ≡ ResumeMode.ask)))
decide_resume_iff_example = decide_resume_iff policy ctx

estimate_window-wait_bounds_example :
    (7_500_000_000 ≤ (estimate_window third 0 info 3).wait)
    × ((estimate_window third 0 info 3).wait ≤ 15 * 60 * second)
estimate_window-wait_bounds_example = estimate_window-wait_bounds third 0 info 3 third-le refl refl

abbrev buffered : LineFraming
buffered = record { buf = codes "{\"a\"" }

abbrev sent : List Bytes
sent = codes "{\"a\":1}\r" ∷ codes "{}" ∷ []

sent-IsRecord : All IsRecord sent
unfolding IsRecord
sent-IsRecord =
    ((refl, (refl, (refl, (refl, (refl, (refl, (refl, (refl, tt)))))))), ((refl, (refl, tt)), tt))

push-unlines_example :
    push buffered (codes ":1}\r\n{}\n{")
    ≡ (codes "{\"a\":1}" ∷ codes "{}" ∷ [], record { buf = codes "{" })
unfolding strip_cr unlines IsRecord
push-unlines_example =
    push-unlines buffered (codes ":1}\r\n{}\n{") sent (codes "{") sent-IsRecord (refl, tt) refl
