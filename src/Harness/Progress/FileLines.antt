-- ===== src/Harness/Progress/FileLines.antt =====
-- The lines of a progress file that is written.
use unshackled.Prelude.{
  ℕ, zero, suc, ◌≡◌, refl, ap, ◌∙◌, sym, Bool, true, false, Option, none, some, List, [], ◌∷◌, ◌++◌,
  All, All-append, ltb, arith, if◌then◌else◌, append_assoc,
}
use unshackled.Text.{Text, codes}
use unshackled.Text.Decimal.{decimal, decimal-all}
use unshackled.Text.Lines.{is_line, IsLine, unlines, unlines-append, IsLine-append}
use unshackled.Text.Fields.{IsField, IsField-digits}
use unshackled.Harness.Progress.{Step, Progress}
use unshackled.Harness.Progress.File.{render_step, render_steps, render, commit_text, attempts_text}
use unshackled.Harness.Progress.StepLines.{box, step_line}
use unshackled.Harness.Progress.FileSteps.{
  commit_lines, attempts_lines, step_lines, all_step_lines, IsCommit, IsWritten,
}

abbrev pub file_lines : Progress → List Text
file_lines p =
    (codes "# Progress: " ++ p.name)
    ∷ (codes "Branch: " ++ p.branch)
    ∷ []
    ∷ codes "## Steps"
    ∷ []
    ∷ all_step_lines p.steps

commit_text-lem : (c : Option Text) → commit_text c ≡ unlines (commit_lines c)
unfolding unlines
commit_text-lem none = refl
commit_text-lem (some c) = sym (append_assoc (codes "  - commit: ") c (codes "\n"))

attempts_text-lem : (n : ℕ) → attempts_text n ≡ unlines (attempts_lines n)
unfolding unlines
attempts_text-lem zero = refl
attempts_text-lem (suc n) =
    let positive : ltb 0 (suc n) ≡ true = ground arith in
    rw positive (sym (append_assoc (codes "  - attempts: ") (decimal (suc n)) (codes "\n")))

box_line :
    (b n d rest : Text)
    → codes "- [" ++ (b ++ (codes "] " ++ (n ++ (codes ". " ++ (d ++ (codes "\n" ++ rest))))))
      ≡ (codes "- [" ++ (b ++ (codes "] " ++ (n ++ (codes ". " ++ d))))) ++ b'\n' ∷ rest
box_line b n d rest = simp append_assoc refl

meta_text-lem :
    (s : Step)
    → (if s.done then commit_text s.commit ++ attempts_text s.attempts else [])
      ≡ unlines (if s.done then commit_lines s.commit ++ attempts_lines s.attempts else [])
unfolding unlines
meta_text-lem s =
    elim s.done
      as (λ b.
        (if b then commit_text s.commit ++ attempts_text s.attempts else [])
        ≡ unlines (if b then commit_lines s.commit ++ attempts_lines s.attempts else [])) [
          | true ↦
              ap (λ t. t ++ attempts_text s.attempts) (commit_text-lem s.commit)
              ∙ ap (λ t. unlines (commit_lines s.commit) ++ t) (attempts_text-lem s.attempts)
              ∙ sym (unlines-append (commit_lines s.commit) (attempts_lines s.attempts))
          | false ↦ refl
        ]

render_step-lem : (s : Step) → render_step s ≡ unlines (step_lines s)
unfolding render_step unlines
render_step-lem s =
    box_line (box s.done) (decimal s.number) s.description _
    ∙ ap (λ t. step_line s ++ b'\n' ∷ t) (meta_text-lem s)

render_steps-lem : (ss : List Step) → render_steps ss ≡ unlines (all_step_lines ss)
unfolding render_steps unlines
render_steps-lem [] = refl
render_steps-lem (s ∷ ss) =
    ap (λ t. t ++ render_steps ss) (render_step-lem s)
    ∙ ap (λ t. unlines (step_lines s) ++ t) (render_steps-lem ss)
    ∙ sym (unlines-append (step_lines s) (all_step_lines ss))

pub render-lem : (p : Progress) → render p ≡ unlines (file_lines p)
unfolding render unlines
render-lem p =
    ap
      (λ t.
        codes "# Progress: "
        ++ (p.name ++ (codes "\nBranch: " ++ (p.branch ++ (codes "\n\n## Steps\n\n" ++ t)))))
      (render_steps-lem p.steps)

box-IsLine : (b : Bool) → IsLine (box b)
unfolding is_line
box-IsLine true = refl
box-IsLine false = refl

step_line-IsLine : (s : Step) → IsField s.description → IsLine (step_line s)
unfolding is_line
step_line-IsLine s (d, e, f) =
    let named : IsLine (codes ". " ++ s.description) =
      IsLine-append (codes ". ") s.description refl d in
    let number : IsLine (decimal s.number ++ (codes ". " ++ s.description)) =
      IsLine-append (decimal s.number) (codes ". " ++ s.description)
        ((IsField-digits (decimal s.number) (decimal-all s.number)).0) named in
    let boxed : IsLine
        (box s.done ++ (codes "] " ++ (decimal s.number ++ (codes ". " ++ s.description)))) =
      IsLine-append (box s.done) (codes "] " ++ (decimal s.number ++ (codes ". " ++ s.description)))
        (box-IsLine s.done)
        (IsLine-append (codes "] ") (decimal s.number ++ (codes ". " ++ s.description)) refl
          number) in
    IsLine-append (codes "- [")
      (box s.done ++ (codes "] " ++ (decimal s.number ++ (codes ". " ++ s.description)))) refl boxed

commit_lines-IsLine : (c : Option Text) → IsCommit c → All IsLine (commit_lines c)
unfolding is_line
commit_lines-IsLine none h = tt
commit_lines-IsLine (some c) (l, a, b) = (IsLine-append (codes "  - commit: ") c refl l, tt)

attempts_lines-IsLine : (n : ℕ) → All IsLine (attempts_lines n)
unfolding is_line
attempts_lines-IsLine zero = tt
attempts_lines-IsLine (suc n) = (
  IsLine-append (codes "  - attempts: ") (decimal (suc n)) refl
      ((IsField-digits (decimal (suc n)) (decimal-all (suc n))).0),
  tt,
)

pub all_step_lines-IsLine : (ss : List Step) → All IsWritten ss → All IsLine (all_step_lines ss)
all_step_lines-IsLine [] h = tt
all_step_lines-IsLine (s ∷ ss) ((n, a, d, c), h) =
    All-append IsLine (step_lines s) (all_step_lines ss)
      (
        step_line-IsLine s d,
        elim s.done
            as (λ b.
              All IsLine (if b then commit_lines s.commit ++ attempts_lines s.attempts else [])) [
                | true ↦
                    All-append IsLine (commit_lines s.commit) (attempts_lines s.attempts)
                      (commit_lines-IsLine s.commit c) (attempts_lines-IsLine s.attempts)
                | false ↦ tt
              ],
      )
      (all_step_lines-IsLine ss h)
