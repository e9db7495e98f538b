-- ===== src/Quota/Gates.antt =====
-- The safety gates of a resumed run.
use unshackled.Prelude.{◌≤◌, ◌≡◌, sym, ◌∙◌, ◌↔◌, ◌⊎◌, inl, inr, true, false, arith}
use unshackled.Quota.{
  ResumeMode, ResumePolicy, ResumeContext, resume, ask_user, decide_mode, decide_resume,
}

-- Every condition under which a run may go on.
pub record IsSafe (policy : ResumePolicy) (ctx : ResumeContext) : Type 0 where
  pub not_cancelled : ctx.user_cancelled ≡ false
  pub same_provider : ctx.provider_identity_changed ≡ false
  pub in_time : ctx.waited ≤ policy.max_wait
  pub elapsed : ctx.window_elapsed ≡ true
  pub at_boundary : policy.only_at_step_boundary ≡ true → ctx.at_step_boundary ≡ true
  pub nothing_pending :
      policy.requires_no_pending_approval ≡ true → ctx.pending_destructive_approval ≡ false
  pub is_clean : policy.requires_clean_workspace ≡ true → ctx.workspace_clean ≡ true

-- Some modes go on by themselves.
abbrev pub Automatic : ResumeMode → Type 0
Automatic m = (m ≡ ResumeMode.run) ⊎ (m ≡ ResumeMode.global)

safe-decide :
    (policy : ResumePolicy) (ctx : ResumeContext)
    → IsSafe policy ctx
    → decide_resume policy ctx ≡ decide_mode policy.mode
unfolding decide_resume
safe-decide policy ctx s = ground (arith, s, s.at_boundary, s.nothing_pending, s.is_clean)

decide-IsSafe :
    (policy : ResumePolicy) (ctx : ResumeContext)
    → (decide_resume policy ctx ≡ resume) ⊎ (decide_resume policy ctx ≡ ask_user)
    → IsSafe policy ctx
unfolding decide_resume
decide-IsSafe policy ctx h = record {
  not_cancelled = ground (arith, h);
  same_provider = ground (arith, h);
  in_time = ground (arith, h);
  elapsed = ground (arith, h);
  at_boundary = λ b. ground (arith, h, b);
  nothing_pending = λ b. ground (arith, h, b);
  is_clean = λ b. ground (arith, h, b);
}

mode-resume_iff :
    (m : ResumeMode)
    → ((decide_mode m ≡ resume) ↔ Automatic m) × ((decide_mode m ≡ ask_user) ↔ (m ≡ ResumeMode.ask))
mode-resume_iff ResumeMode.off = ground arith
mode-resume_iff ResumeMode.ask = ground arith
mode-resume_iff ResumeMode.run = ground arith
mode-resume_iff ResumeMode.global = ground arith

-- A run resumes by itself exactly if every gate lets it and its mode is automatic, and the user is
-- asked exactly if every gate lets it and the mode is to ask.
pub decide_resume_iff :
    (policy : ResumePolicy) (ctx : ResumeContext)
    → ((decide_resume policy ctx ≡ resume) ↔ (IsSafe policy ctx × Automatic policy.mode))
      × ((decide_resume policy ctx ≡ ask_user)
          ↔ (IsSafe policy ctx × (policy.mode ≡ ResumeMode.ask)))
decide_resume_iff policy ctx =
    let (automatic, asked) = mode-resume_iff policy.mode in
    (
      (
        λ h.
            let s = decide-IsSafe policy ctx (inl h) in
            (s, (automatic.0) (sym (safe-decide policy ctx s) ∙ h)),
        λ (s, a). safe-decide policy ctx s ∙ automatic.1 a,
      ),
      (
        λ h.
            let s = decide-IsSafe policy ctx (inr h) in
            (s, (asked.0) (sym (safe-decide policy ctx s) ∙ h)),
        λ (s, a). safe-decide policy ctx s ∙ asked.1 a,
      ),
    )
