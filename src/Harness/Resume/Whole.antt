-- ===== src/Harness/Resume/Whole.antt =====
-- The whole run of a step, from the progress file on.
use unshackled.Prelude.{
  ℕ, ◌<◌, max, ◌≡◌, refl, Option, none, some, ◌⊎◌, inl, inr, List, [], ◌∷◌, arith,
}
use unshackled.Text.{Text}
use unshackled.Harness.Config.{CheckConfig}
use unshackled.Harness.Rules.{RuleEngine, session_start}
use unshackled.Harness.Worker.{u32_mod, new}
use unshackled.Harness.Progress.{Step, Progress, next_incomplete}
use unshackled.Harness.Progress.File.{Parsed, ok, err, parse}
use unshackled.Harness.Resume.Status.{first_blocking_reason}
use unshackled.Harness.Resume.Driver.{
  Action, git_call, step_started, ResumeOutcome, Outside, max_replans, step_prompt,
}
use unshackled.Harness.Resume.Run.{status_args, step_checks}
use unshackled.Harness.Resume.Start.{
  work_step, guarded, started_with, of_step, of_file, of_text, start_context, resume_one_step,
}
use unshackled.Harness.Resume.Ends.{attempts_loop-Goes}
use unshackled.Harness.Resume.Outcome.{IsEnd, IsSomeEnd, finish-IsSomeEnd}

-- The step that was run is the next of the plan in the file, and its end is right.
pub record Worked (outside : Outside) (engine : RuleEngine) (max_attempts limit : ℕ)
    (e : List Action × Parsed ResumeOutcome) : Type 0 where
  pub file : Text
  pub plan : Progress
  pub chosen : Step
  pub was_read : outside.progress_file ≡ ok file
  pub was_parsed : parse file ≡ ok plan
  pub was_next : next_incomplete plan ≡ some chosen
  pub end : IsEnd engine max_attempts plan chosen limit e

-- Nothing was done, and an error is given.
abbrev pub NothingDone : List Action × Parsed ResumeOutcome → Type 0
NothingDone ([], err x) = Unit {0}
NothingDone e = ⊥

-- The run ended, in one of these ways.
abbrev pub IsFinished :
    Outside → RuleEngine → ℕ → ℕ → Option (List Action × Parsed ResumeOutcome) → Type 0
IsFinished outside engine max_attempts limit none = ⊥
IsFinished outside engine max_attempts limit (some e) =
    NothingDone e ⊎ Worked outside engine max_attempts limit e

at_least_one : (n : ℕ) → 0 < max n 1
at_least_one n = omega arith

at_most : (n : ℕ) → n < u32_mod → max n 1 < u32_mod
at_most n h = omega (arith, h)

module _ (outside : Outside) (engine : RuleEngine) (checks : List CheckConfig) (max_attempts : ℕ)
    (small : max_attempts < u32_mod) where
  work_step-IsSomeEnd :
      (p : Progress) (s : Step)
      → IsSomeEnd engine max_attempts p s (max max_attempts 1) (
          work_step outside engine checks max_attempts
            (max max_attempts 1)
            p
            s
            (git_call status_args ∷ []))
  unfolding work_step new
  work_step-IsSomeEnd p s =
      let started = step_started s.number s.description ∷ git_call status_args ∷ [] in
      let anchor = outside.last_event started in
      let limit = max max_attempts 1 in
      finish-IsSomeEnd outside engine max_attempts p s limit checks p.name anchor _ (
        attempts_loop-Goes outside engine checks max_attempts p.name s anchor limit limit
          (new limit max_replans) (step_prompt s) started
          (record {
            total = omega arith;
            small = at_most max_attempts small;
            replan_cap = refl;
            no_replan = refl;
          })
          (at_least_one max_attempts) (omega arith) (tt, (tt, tt)))

  abbrev Finished : Option (List Action × Parsed ResumeOutcome) → Type 0
  Finished = IsFinished outside engine max_attempts (max max_attempts 1)

  IsSomeEnd-Finished :
      (file : Text) (p : Progress) (s : Step) (r : Option (List Action × Parsed ResumeOutcome))
      → outside.progress_file ≡ ok file
      → parse file ≡ ok p
      → next_incomplete p ≡ some s
      → IsSomeEnd engine max_attempts p s (max max_attempts 1) r
      → Finished r
  IsSomeEnd-Finished file p s none e f g h = h
  IsSomeEnd-Finished file p s (some r) e f g h = inr (record {
    file = file;
    plan = p;
    chosen = s;
    was_read = e;
    was_parsed = f;
    was_next = g;
    end = h;
  })

  guarded-IsSomeEnd :
      (p : Progress) (s : Step) (reason : Option Text)
      → IsSomeEnd engine max_attempts p s (max max_attempts 1) (
          guarded outside engine checks max_attempts
            (max max_attempts 1)
            p
            s
            (git_call status_args ∷ [])
            reason)
  guarded-IsSomeEnd p s (some reason) = record {
    few = omega arith;
    recorded = (tt, tt);
    right = (refl, λ c. absurd (ground (arith, c)));
  }
  guarded-IsSomeEnd p s none = work_step-IsSomeEnd p s

  started_with-IsSomeEnd :
      (p : Progress) (s : Step) (status : Parsed Text)
      → IsSomeEnd engine max_attempts p s (max max_attempts 1) (
          started_with outside engine checks max_attempts
            (max max_attempts 1)
            p
            s
            (git_call status_args ∷ [])
            status)
  started_with-IsSomeEnd p s (err e) = record { few = omega arith; recorded = (tt, tt); right = tt }
  started_with-IsSomeEnd p s (ok status) =
      guarded-IsSomeEnd p s (first_blocking_reason engine session_start (start_context status))

  of_step-Finished :
      (file : Text) (p : Progress) (o : Option Step)
      → outside.progress_file ≡ ok file
      → parse file ≡ ok p
      → next_incomplete p ≡ o
      → Finished (of_step outside engine checks max_attempts (max max_attempts 1) p o)
  of_step-Finished file p none e f g = inl tt
  of_step-Finished file p (some s) e f g =
      IsSomeEnd-Finished file p s _ e f g
        (started_with-IsSomeEnd p s (outside.git (git_call status_args ∷ [])))

  of_file-Finished :
      (file : Text) (r : Parsed Progress)
      → outside.progress_file ≡ ok file
      → parse file ≡ r
      → Finished (of_file outside engine checks max_attempts (max max_attempts 1) r)
  of_file-Finished file (err x) e f = inl tt
  of_file-Finished file (ok p) e f = of_step-Finished file p (next_incomplete p) e f refl

  of_text-Finished :
      (t : Parsed Text)
      → outside.progress_file ≡ t
      → Finished (of_text outside engine checks max_attempts (max max_attempts 1) t)
  of_text-Finished (err x) e = inl tt
  of_text-Finished (ok file) e = of_file-Finished file (parse file) e refl

-- Whatever the session, git and the file system answer, the run of the next step ends, for every
-- `max_attempts` of 32 bits. Either nothing
-- is done and an error is given, or the run is about the step that is the next of the plan in the file:
-- it ends after at most `max_attempts` turns, and one if that is none; it reports that step's number;
-- it reports the step as committed only if the decision on the reported outcomes of the gate was
-- to commit, and its completion is among the events and the file of progress was written with it
-- completed; it records no other step as completed, and with one attempt; and it writes no other
-- text to a file, but to that of the decisions.
pub resume_one_step-IsFinished :
    (outside : Outside) (engine : RuleEngine) (test_command : Option Text)
    (checks : List CheckConfig) (max_attempts : ℕ)
    → max_attempts < u32_mod
    → IsFinished outside engine max_attempts
        (max max_attempts 1)
        (resume_one_step outside engine test_command checks max_attempts (max max_attempts 1))
unfolding resume_one_step
resume_one_step-IsFinished outside engine test_command checks max_attempts small =
    of_text-Finished outside engine (step_checks test_command checks) max_attempts small
      outside.progress_file refl
