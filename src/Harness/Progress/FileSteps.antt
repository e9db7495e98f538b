-- ===== src/Harness/Progress/FileSteps.antt =====
-- The steps of a progress file that is written and read.
use unshackled.Prelude.{
  ℕ, zero, suc, ◌^◌, ◌<◌, ◌≡◌, refl, ap, ◌∙◌, sym, true, false, Option, none, some, List, [], ◌∷◌,
  ◌++◌, any-append, All, map, ◌==◌, arith, if◌then◌else◌, append_assoc, append-nil,
}
use unshackled.Text.{Text}
use unshackled.Text.Fields.{IsField}
use unshackled.Harness.Progress.{Step}
use unshackled.Harness.Progress.Completion.{has_number, Distinct}
use unshackled.Harness.Progress.File.{ok, parse_lines}
use unshackled.Harness.Progress.StepLines.{
  step_line, opened, commit_line, attempts_line, parse_line-step_line, parse_line-commit_line,
  parse_line-attempts_line,
}

abbrev pub commit_lines : Option Text → List Text
commit_lines none = []
commit_lines (some commit) = commit_line commit ∷ []

abbrev pub attempts_lines : ℕ → List Text
attempts_lines zero = []
attempts_lines (suc n) = attempts_line (suc n) ∷ []

abbrev pub step_lines : Step → List Text
step_lines s =
    step_line s ∷ (if s.done then commit_lines s.commit ++ attempts_lines s.attempts else [])

abbrev pub all_step_lines : List Step → List Text
all_step_lines [] = []
all_step_lines (s ∷ ss) = step_lines s ++ all_step_lines ss

-- A step as the file keeps it: of one that is not done neither commit nor attempts are written.
abbrev pub as_kept : Step → Step
as_kept s = if s.done then s else opened s

abbrev pub IsCommit : Option Text → Type 0
IsCommit none = Unit {0}
IsCommit (some c) = IsField c

-- What a step must be for its lines to be read back: its numbers fit their types, and its texts are
-- trimmed lines.
abbrev pub IsWritten : Step → Type 0
IsWritten s =
    (s.number < 2 ^ 64) × (s.attempts < 2 ^ 32) × IsField s.description × IsCommit s.commit

parse_lines-commit_lines :
    (steps : List Step) (s : Step) (c : Option Text) (rest : List Text)
    → IsCommit c
    → parse_lines (steps ++ opened s ∷ []) (commit_lines c ++ rest)
      ≡ parse_lines (steps ++ record s { commit = c; attempts = 0 } ∷ []) rest
unfolding parse_lines
parse_lines-commit_lines steps s none rest h = refl
parse_lines-commit_lines steps s (some c) rest h =
    rw (parse_line-commit_line steps (opened s) c h) refl

parse_lines-attempts_lines :
    (steps : List Step) (s : Step) (n : ℕ) (rest : List Text)
    → n < 2 ^ 32
    → parse_lines (steps ++ record s { attempts = 0 } ∷ []) (attempts_lines n ++ rest)
      ≡ parse_lines (steps ++ record s { attempts = n } ∷ []) rest
unfolding parse_lines
parse_lines-attempts_lines steps s zero rest h = refl
parse_lines-attempts_lines steps s (suc n) rest h =
    rw (parse_line-attempts_line steps (record s { attempts = 0 }) (suc n) h) refl

parse_lines-step_lines :
    (steps : List Step) (s : Step) (rest : List Text)
    → has_number s.number steps ≡ false
    → IsWritten s
    → parse_lines steps (step_lines s ++ rest) ≡ parse_lines (steps ++ as_kept s ∷ []) rest
unfolding parse_lines
parse_lines-step_lines steps s rest fresh (n, a, d, c) =
    rw (parse_line-step_line steps s fresh n d)
      (elim s.done
        as (λ b.
          parse_lines (steps ++ opened s ∷ [])
            ((if b then commit_lines s.commit ++ attempts_lines s.attempts else []) ++ rest)
          ≡ parse_lines (steps ++ (if b then s else opened s) ∷ []) rest) [
            | true ↦
                ap (parse_lines (steps ++ opened s ∷ []))
                  (append_assoc (commit_lines s.commit) (attempts_lines s.attempts) rest)
                ∙ parse_lines-commit_lines steps s s.commit (attempts_lines s.attempts ++ rest) c
                ∙ parse_lines-attempts_lines steps (record s { commit = s.commit }) s.attempts rest
                    a
            | false ↦ refl
          ])

as_kept-number : (s : Step) → (as_kept s).number ≡ s.number
as_kept-number s = elim s.done as (λ b. (if b then s else opened s).number ≡ s.number) [
  | true ↦ refl
  | false ↦ refl
]

-- The numbers of the steps that follow are not among those before.
abbrev pub Fresh : List Step → List Step → Type 0
Fresh steps = All (λ s. has_number s.number steps ≡ false)

Fresh-append :
    (steps ss : List Step) (s : Step)
    → Fresh steps ss
    → has_number s.number ss ≡ false
    → Fresh (steps ++ as_kept s ∷ []) ss
Fresh-append steps [] s f h = tt
Fresh-append steps (t ∷ ss) s (f, fs) h = (
  ground (
    arith,
    f,
    h,
    any-append (λ x. x.number == t.number) steps (as_kept s ∷ []),
    as_kept-number s,
  ),
  Fresh-append steps ss s fs (ground (arith, h)),
)

pub parse_lines-all_step_lines :
    (steps ss : List Step)
    → Fresh steps ss
    → Distinct ss
    → All IsWritten ss
    → parse_lines steps (all_step_lines ss) ≡ ok (steps ++ map as_kept ss)
unfolding parse_lines
parse_lines-all_step_lines steps [] f d w = ap ok (sym (append-nil steps))
parse_lines-all_step_lines steps (s ∷ ss) (f, fs) (n, d) (w, ws) =
    parse_lines-step_lines steps s (all_step_lines ss) f w
    ∙ parse_lines-all_step_lines (steps ++ as_kept s ∷ []) ss (Fresh-append steps ss s fs n) d ws
    ∙ ap ok (append_assoc steps (as_kept s ∷ []) (map as_kept ss))
