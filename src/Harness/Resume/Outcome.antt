-- ===== src/Harness/Resume/Outcome.antt =====
-- How the run of a step ends.
use unshackled.Prelude.{
  ℕ, refl, sym, ap, ◌⊎◌, inl, inr, In, ◌+◌, ◌%◌, ◌≤◌, ◌≡◌, true, Option, none, some, List, [], ◌∷◌,
  All, arith,
}
use unshackled.Text.{Text, codes}
use unshackled.Harness.Config.{CheckConfig, CheckOutcome}
use unshackled.Harness.Rules.{RuleEngine}
use unshackled.Harness.Worker.{StepLoop, StepAction, decide_step, u32_mod}
use unshackled.Harness.Progress.{Step, Progress, mark_complete}
use unshackled.Harness.Progress.File.{HarnessError, Parsed, ok, err, render}
use unshackled.Harness.Resume.Driver.{
  Action, turn, gate_run, git_call, file_written, pause_stored, step_started, step_completed,
  branch_closed, branch_forked, ResumeOutcome, Outside, LoopEnd, to_commit, returned, failed,
}
use unshackled.Harness.Resume.Run.{
  completion_inputs, then_git, call_git, then_written, record_completion, commit_paths, finish,
}
use unshackled.Harness.Resume.Ends.{turns, IsOpen, AreOpen, Ends}

-- The text of the progress file with the step completed in one attempt.
abbrev pub marked : Progress → Step → Option Text → Text
marked p s hash = render (mark_complete p s.number hash 1).0

abbrev pub IsRecorded : Progress → Step → Action → Type 0
IsRecorded p s (step_completed n c a) = (n ≡ s.number) × (a ≡ 1)
IsRecorded p s (file_written path t) =
    (path ≡ codes "DECISIONS.md")
    ⊎ ((path ≡ codes "PROGRESS.md") × ((hash : Option Text) × (t ≡ marked p s hash)))
IsRecorded p s e = Unit {0}

-- No step but this one is recorded as completed, and with one attempt; and no file is written but
-- that of the decisions, and that of the progress with this step completed.
abbrev pub AreRecorded : Progress → Step → List Action → Type 0
AreRecorded p s = All (IsRecorded p s)

AreOpen-AreRecorded :
    (p : Progress) (s : Step) (log : List Action) → AreOpen log → AreRecorded p s log
AreOpen-AreRecorded p s [] h = tt
AreOpen-AreRecorded p s (e ∷ log) (h, hs) = (one e h, AreOpen-AreRecorded p s log hs)
  where
    one : (e : Action) → IsOpen e → IsRecorded p s e
    one (turn p) h = tt
    one (gate_run c) h = tt
    one (git_call a) h = tt
    one (file_written p t) h = inl h
    one (pause_stored p) h = tt
    one (step_started n d) h = tt
    one (step_completed n c a) h = absurd h
    one (branch_closed b) h = tt
    one (branch_forked f) h = tt

-- The step was committed: the gate of its last turn decided so, and the completion is recorded in
-- the events and in the progress file.
pub record Committed (engine : RuleEngine) (p : Progress) (s : Step) (max_attempts : ℕ)
    (log : List Action) (gate : List CheckOutcome) : Type 0 where
  pub was_passed :
      decide_step engine (completion_inputs s max_attempts gate) gate ≡ StepAction.commit
  pub hash : Option Text
  pub was_logged : In (step_completed s.number hash 1) log
  pub was_written : In (file_written (codes "PROGRESS.md") (marked p s hash)) log

-- A report is about the step, and it says committed only where the step was.
abbrev pub IsRight : RuleEngine → Progress → Step → ℕ → List Action → Parsed ResumeOutcome → Type 0
IsRight engine p s max_attempts log (err e) = Unit {0}
IsRight engine p s max_attempts log (ok o) =
    (o.step_number ≡ s.number)
    × (o.is_committed ≡ true → Committed engine p s max_attempts log o.gate)

-- The log and the result of a run: few turns, the right records, and the right report.
pub record IsEnd (engine : RuleEngine) (max_attempts : ℕ) (p : Progress) (s : Step) (limit : ℕ)
    (e : List Action × Parsed ResumeOutcome) : Type 0 where
  pub few : turns e.0 ≤ limit
  pub recorded : AreRecorded p s e.0
  pub right : IsRight engine p s max_attempts e.0 e.1

abbrev pub IsSomeEnd :
    RuleEngine → ℕ → Progress → Step → ℕ → Option (List Action × Parsed ResumeOutcome) → Type 0
IsSomeEnd engine max_attempts p s limit none = ⊥
IsSomeEnd engine max_attempts p s limit (some e) = IsEnd engine max_attempts p s limit e

module _ (outside : Outside) (engine : RuleEngine) (max_attempts : ℕ) (p : Progress) (s : Step)
    (limit : ℕ) where
  abbrev Good : List Action × Parsed ResumeOutcome → Type 0
  Good = IsEnd engine max_attempts p s limit

  then_git-IsEnd :
      (log : List Action) (r : Parsed Text) (k : Text → List Action × Parsed ResumeOutcome)
      → turns log ≤ limit
      → AreRecorded p s log
      → ((out : Text) → Good (k out))
      → Good (then_git log r k)
  then_git-IsEnd log (err e) k t o h = record { few = t; recorded = o; right = tt }
  then_git-IsEnd log (ok out) k t o h = h out

  -- What comes after a call of git starts where the log was good.
  call_git-IsEnd :
      (args : List Text) (log : List Action)
      (k : Text → List Action → List Action × Parsed ResumeOutcome)
      → turns log ≤ limit
      → AreRecorded p s log
      → ((out : Text) → Good (k out (git_call args ∷ log)))
      → Good (call_git outside args log k)
  unfolding call_git
  call_git-IsEnd args log k t o h =
      then_git-IsEnd (git_call args ∷ log) (outside.git (git_call args ∷ log))
        (λ out. k out (git_call args ∷ log)) t (tt, o) h

  then_written-IsEnd :
      (log : List Action) (e : Option HarnessError)
      (k : List Action → List Action × Parsed ResumeOutcome)
      → turns log ≤ limit
      → AreRecorded p s log
      → Good (k log)
      → Good (then_written outside log e k)
  unfolding then_written
  then_written-IsEnd log none k t o h = h
  then_written-IsEnd log (some e) k t o h = record { few = t; recorded = o; right = tt }

  module _ (l : StepLoop) (gate : List CheckOutcome) (no_replan : l.replans ≡ 0)
      (commits : decide_step engine (completion_inputs s max_attempts gate) gate
        ≡ StepAction.commit) where
    record_completion-IsEnd :
        (hash : Option Text) (log : List Action)
        → turns log ≤ limit
        → AreRecorded p s log
        → Good (record_completion outside p s l gate hash log)
    unfolding record_completion
    record_completion-IsEnd hash log t o =
        let a = (l.replans + 1) % u32_mod in
        let one : a ≡ 1 = omega (arith, no_replan) in
        let file = render (mark_complete p s.number hash a).0 in
        let same : file ≡ marked p s hash =
          ap (λ n. render (mark_complete p s.number hash n).0) one in
        let now : AreRecorded p s
            (file_written (codes "PROGRESS.md") file ∷ step_completed s.number hash a ∷ log) =
          (inr (refl, (hash, same)), ((refl, one), o)) in
        then_written-IsEnd _ _ _ t now (
          call_git-IsEnd _ _ _ t now λ out1.
            call_git-IsEnd _ _ _ t (tt, now)
              λ out2. record {
                few = t;
                recorded = (tt, (tt, now));
                right = (
                  refl,
                  λ c. record {
                    was_passed = commits;
                    hash = hash;
                    was_logged =
                        inr (inr (inr (inl (ap (step_completed s.number hash) (sym one)))));
                    was_written =
                        inr (inr (inl (ap (file_written (codes "PROGRESS.md")) (sym same))));
                  },
                );
              })

    commit_paths-IsEnd :
        (paths : List Text) (log : List Action)
        → turns log ≤ limit
        → AreRecorded p s log
        → Good (commit_paths outside p s l gate paths log)
    unfolding commit_paths
    commit_paths-IsEnd [] log t o = record_completion-IsEnd none log t o
    commit_paths-IsEnd (path ∷ paths) log t o = call_git-IsEnd _ _ _ t o λ out1.
        call_git-IsEnd _ _ _ t (tt, o)
          λ out2.
            call_git-IsEnd _ _ _ t (tt, (tt, o))
              λ head. record_completion-IsEnd _ _ t (tt, (tt, (tt, o)))

  pub finish-IsSomeEnd :
      (checks : List CheckConfig) (name : Text) (anchor : Option Text)
      (r : Option (List Action × LoopEnd))
      → Ends outside engine checks max_attempts name s anchor limit r
      → IsSomeEnd engine max_attempts p s limit (finish outside p s r)
  unfolding finish
  finish-IsSomeEnd checks name anchor none h = h
  finish-IsSomeEnd checks name anchor (some (log, returned o)) (t, q, (g, n)) = record {
    few = t;
    recorded = AreOpen-AreRecorded p s log q;
    right = (n, λ c. absurd (ground (arith, c, g)));
  }
  finish-IsSomeEnd checks name anchor (some (log, failed e)) (t, q, g) = record {
    few = t;
    recorded = AreOpen-AreRecorded p s log q;
    right = tt;
  }
  finish-IsSomeEnd checks name anchor (some (log, to_commit l gate)) (t, q, (z, c)) =
      let o = AreOpen-AreRecorded p s log q in
      call_git-IsEnd _ _ _ t o λ status. commit_paths-IsEnd l gate z c _ _ t (tt, o)
