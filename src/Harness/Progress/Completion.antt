-- ===== src/Harness/Progress/Completion.antt =====
-- Completing the selected step.
use unshackled.Prelude.{
  ℕ, suc, ◌≤◌, ◌≡◌, refl, sym, ap, ◌∙◌, ◌↔◌, Bool, true, false, Option, none, some, List, [], ◌∷◌,
  ◌==◌, any, arith, length, map, Bool-cases, inl, inr,
}
use unshackled.Text.{Text}
use unshackled.Harness.Progress.{
  Step, Progress, first_open, next_incomplete, select_next_step, count_done, completed_count,
  complete_first, mark_complete,
}

abbrev pub has_number : ℕ → List Step → Bool
has_number n = any λ s. s.number == n

-- No number stands twice.
abbrev pub Distinct : List Step → Type 0
Distinct [] = Unit {0}
Distinct (s ∷ ss) = (has_number s.number ss ≡ false) × Distinct ss

abbrev pub numbers : List Step → List ℕ
numbers = map λ s. s.number

count_done-le : (ss : List Step) → count_done ss ≤ length ss
unfolding count_done
count_done-le [] = omega arith
count_done-le (s ∷ ss) = ground (arith, count_done-le ss)

first_open-none_iff : (ss : List Step) → (first_open ss ≡ none) ↔ (count_done ss ≡ length ss)
unfolding first_open count_done
first_open-none_iff [] = ground arith
first_open-none_iff (s ∷ ss) = ground (arith, first_open-none_iff ss, count_done-le ss)

-- There is no step to select exactly if every step is counted as completed.
pub select_next_step-none_iff :
    (p : Progress) → (select_next_step p ≡ none) ↔ (completed_count p ≡ length p.steps)
unfolding select_next_step next_incomplete completed_count
select_next_step-none_iff p = first_open-none_iff p.steps

first_open-done :
    (t : Step) (ss : List Step) (s : Step)
    → t.done ≡ true
    → first_open (t ∷ ss) ≡ some s
    → first_open ss ≡ some s
unfolding first_open
first_open-done t ss s y h = ground (arith, y, h)

first_open-head :
    (t : Step) (ss : List Step) (s : Step) → t.done ≡ false → first_open (t ∷ ss) ≡ some s → t ≡ s
unfolding first_open
first_open-head t ss s n h = ground (arith, n, h)

first_open-has_number :
    (ss : List Step) (s : Step) → first_open ss ≡ some s → has_number s.number ss ≡ true
unfolding first_open
first_open-has_number [] s h = ground (arith, h)
first_open-has_number (t ∷ ss) s h = elim (Bool-cases t.done) [
  | inl y ↦
      let later = first_open-has_number ss s (first_open-done t ss s y h) in ground (arith, later)
  | inr n ↦ let same = first_open-head t ss s n h in rw same (ground arith)
]

complete_first-numbers :
    (n : ℕ) (commit : Option Text) (attempts : ℕ) (ss : List Step)
    → numbers (complete_first n commit attempts ss).0 ≡ numbers ss
unfolding complete_first
complete_first-numbers n commit attempts [] = refl
complete_first-numbers n commit attempts (s ∷ ss) =
    ground (arith, complete_first-numbers n commit attempts ss)

-- The head is not of the number of a step behind it.
apart :
    (t s : Step) (ss : List Step)
    → has_number t.number ss ≡ false
    → has_number s.number ss ≡ true
    → (t.number == s.number) ≡ false
apart t s ss n y = elim (Bool-cases (t.number == s.number)) [
  | inl e ↦
      let same : t.number ≡ s.number = ground (arith, e) in
      let clash : true ≡ false = sym y ∙ ap (λ k. has_number k ss) (sym same) ∙ n in
      ground (arith, clash)
  | inr e ↦ e
]

complete_first-open :
    (commit : Option Text) (attempts : ℕ) (ss : List Step) (s : Step)
    → first_open ss ≡ some s
    → Distinct ss
    → ((complete_first s.number commit attempts ss).1 ≡ true)
      × (count_done (complete_first s.number commit attempts ss).0 ≡ suc (count_done ss))
unfolding complete_first first_open count_done
complete_first-open commit attempts [] s h d = ground (arith, h)
complete_first-open commit attempts (t ∷ ss) s h d = elim (Bool-cases t.done) [
  | inl y ↦
      let here = first_open-done t ss s y h in
      let (found, more) = complete_first-open commit attempts ss s here d.1 in
      let other = apart t s ss d.0 (first_open-has_number ss s here) in
      rw (other, y) (found, ap suc more)
  | inr n ↦ let same = first_open-head t ss s n h in ground (arith, same, n)
]

-- Where no number stands twice, marking the selected step as complete finds it, counts exactly one
-- completed step more, and keeps the numbers of all steps and their order.
pub select_next_step-mark_complete :
    (p : Progress) (s : Step) (commit : Option Text) (attempts : ℕ)
    → select_next_step p ≡ some s
    → Distinct p.steps
    → ((mark_complete p s.number commit attempts).1 ≡ true)
      × (completed_count (mark_complete p s.number commit attempts).0 ≡ suc (completed_count p))
      × (numbers (mark_complete p s.number commit attempts).0.steps ≡ numbers p.steps)
unfolding select_next_step next_incomplete completed_count mark_complete
select_next_step-mark_complete p s commit attempts h d =
    let (found, more) = complete_first-open commit attempts p.steps s h d in
    (found, more, complete_first-numbers s.number commit attempts p.steps)
