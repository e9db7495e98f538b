-- ===== src/Harness/Progress.antt =====
-- crates/localpilot-harness/src/progress.rs: the steps of a plan and their completion; the worker
-- selects the next of them.
use Prim.Native.Nat.{max}
use unshackled.Prelude.{
  ℕ, suc, ◌+◌, ◌%◌, ◌^◌, Bool, true, false, Option, none, some, List, [], ◌∷◌, ◌++◌, ◌==◌,
  if◌then◌else◌,
}
use unshackled.Text.{Text}
pub mod Completion
pub mod Append
pub mod File
pub mod StepLines
pub mod FileSteps
pub mod FileLines
pub mod RoundTrip
pub mod Accepted

pub record Step : Type 0 where
  pub number : ℕ
  pub description : Text
  pub done : Bool
  pub commit : Option Text
  pub attempts : ℕ

pub record Progress : Type 0 where
  pub name : Text
  pub branch : Text
  pub steps : List Step

unfoldable pub first_open : List Step → Option Step
first_open [] = none
first_open (s ∷ ss) = if s.done then first_open ss else some s

unfoldable pub next_incomplete : Progress → Option Step
unfolding first_open
next_incomplete p = first_open p.steps

-- `select_next_step` of the worker.
unfoldable pub select_next_step : Progress → Option Step
unfolding next_incomplete
select_next_step p = next_incomplete p

unfoldable pub count_done : List Step → ℕ
count_done [] = 0
count_done (s ∷ ss) = if s.done then suc (count_done ss) else count_done ss

unfoldable pub completed_count : Progress → ℕ
unfolding count_done
completed_count p = count_done p.steps

-- `max().unwrap_or(0)`.
unfoldable pub highest : List Step → ℕ
highest [] = 0
highest (s ∷ ss) = max s.number (highest ss)

abbrev pub usize_mod : ℕ
usize_mod = 2 ^ 64

unfoldable pub append_step : Progress → Text → Progress × ℕ
unfolding highest
append_step p description =
    let number = (highest p.steps + 1) % usize_mod in
    let step : Step = record {
      number = number;
      description = description;
      done = false;
      commit = none;
      attempts = 0;
    } in
    (record p { steps = p.steps ++ step ∷ [] }, number)

-- The steps with the first of a number completed, and whether there is one.
unfoldable pub complete_first : ℕ → Option Text → ℕ → List Step → List Step × Bool
complete_first number commit attempts [] = ([], false)
complete_first number commit attempts (s ∷ ss) =
    let (rest, found) = complete_first number commit attempts ss in
    if s.number == number
    then (record s { done = true; commit = commit; attempts = attempts } ∷ ss, true)
    else (s ∷ rest, found)

unfoldable pub mark_complete : Progress → ℕ → Option Text → ℕ → Progress × Bool
unfolding complete_first
mark_complete p number commit attempts =
    let (steps, found) = complete_first number commit attempts p.steps in
    (record p { steps = steps }, found)
