-- ===== src/Harness/Progress/Append.antt =====
-- Adding a step at the end.
use unshackled.Prelude.{
  ℕ, ◌+◌, ◌%◌, ◌<◌, ◌≡◌, refl, ◌∙◌, false, ◌||◌, none, some, List, [], ◌∷◌, ◌++◌, ◌==◌, arith,
  length,
}
use unshackled.Text.{Text}
use unshackled.Harness.Progress.{
  Step, Progress, first_open, next_incomplete, select_next_step, count_done, completed_count,
  highest, usize_mod, append_step,
}
use unshackled.Harness.Progress.Completion.{has_number, Distinct, select_next_step-none_iff}

above_highest : (n : ℕ) (ss : List Step) → highest ss < n → has_number n ss ≡ false
unfolding highest
above_highest n [] h = refl
above_highest n (s ∷ ss) h = ground (arith, above_highest n ss (omega arith), h)

has_number-last :
    (n : ℕ) (ss : List Step) (t : Step)
    → has_number n (ss ++ t ∷ []) ≡ has_number n ss || (t.number == n)
has_number-last n [] t = ground arith
has_number-last n (s ∷ ss) t = ground (arith, has_number-last n ss t)

Distinct-last :
    (ss : List Step) (t : Step) → highest ss < t.number → Distinct ss → Distinct (ss ++ t ∷ [])
unfolding highest
Distinct-last [] t h d = (refl, tt)
Distinct-last (s ∷ ss) t h d =
    (has_number-last s.number ss t ∙ ground (arith, d.0, h), Distinct-last ss t (omega arith) d.1)

first_open-last :
    (ss : List Step) (t : Step)
    → t.done ≡ false
    → first_open ss ≡ none
    → first_open (ss ++ t ∷ []) ≡ some t
unfolding first_open
first_open-last [] t n h = rw n refl
first_open-last (s ∷ ss) t n h = ground (arith, first_open-last ss t n, h, n)

count_done-last :
    (ss : List Step) (t : Step) → t.done ≡ false → count_done (ss ++ t ∷ []) ≡ count_done ss
unfolding count_done
count_done-last [] t n = rw n refl
count_done-last (s ∷ ss) t n = ground (arith, count_done-last ss t n)

in_range : (n : ℕ) → n < usize_mod → n % usize_mod ≡ n
in_range n h = omega (arith, h)

abbrev pub appended : ℕ → Text → Step
appended n description = record {
  number = n;
  description = description;
  done = false;
  commit = none;
  attempts = 0;
}

-- A step that is appended gets a number of its own, as long as the highest one is below the bound
-- of the machine's integers: numbers stay distinct, and no step counts as completed in addition.
pub append_step-Distinct :
    (p : Progress) (description : Text)
    → highest p.steps + 1 < usize_mod
    → Distinct p.steps
    → (has_number (append_step p description).1 p.steps ≡ false)
      × Distinct (append_step p description).0.steps
      × (completed_count (append_step p description).0 ≡ completed_count p)
unfolding append_step completed_count
append_step-Distinct p description h d =
    let next = highest p.steps + 1 in
    rw (in_range next h) (
      above_highest next p.steps (omega arith),
      Distinct-last p.steps (appended next description) (omega arith) d,
      count_done-last p.steps (appended next description) refl,
    )

-- Where every step is completed, the step that is appended is the one that is selected next.
pub append_step-select_next_step :
    (p : Progress) (description : Text)
    → completed_count p ≡ length p.steps
    → select_next_step (append_step p description).0
      ≡ some (appended (append_step p description).1 description)
unfolding append_step select_next_step next_incomplete
append_step-select_next_step p description h =
    first_open-last p.steps (appended ((highest p.steps + 1) % usize_mod) description) refl
      ((select_next_step-none_iff p).1 h)
