-- ===== src/Tests/Progress.antt =====
-- Progress files and the log of decisions at concrete inputs.
use unshackled.Prelude.{◌+◌, ◌^◌, ◌<◌, ◌≡◌, refl, true, false, none, some, [], ◌∷◌, map, arith}
use unshackled.Text.{codes, trim_start, is_whitespace}
use unshackled.Text.Trim.{trim_end, strip_prefix}
use unshackled.Text.Lines.{is_line}
use unshackled.Harness.Progress.{Step, Progress}
use unshackled.Harness.Progress.Completion.{Distinct}
use unshackled.Harness.Progress.File.{ok, parse, render}
use unshackled.Harness.Progress.FileSteps.{as_kept, IsWritten}
use unshackled.Harness.Progress.RoundTrip.{IsTitle, parse-render}
use unshackled.Harness.Decisions.{Decisions, highest_id}
use unshackled.Harness.Progress.Accepted.{IsPlan, parse-IsPlan}

abbrev done_step : Step
done_step = record {
  number = 1;
  description = codes "Write a test";
  done = true;
  commit = some (codes "abc1234");
  attempts = 2;
}

abbrev failed_step : Step
failed_step = record {
  number = 2;
  description = codes "Implement it";
  done = false;
  commit = none;
  attempts = 1;
}

abbrev plan : Progress
plan = record { name = codes "parser"; branch = codes "main"; steps = done_step ∷ failed_step ∷ [] }

parser-IsTitle : IsTitle (codes "parser")
unfolding is_line trim_start trim_end is_whitespace
parser-IsTitle = ((refl, refl, refl), ground arith)

main-IsTitle : IsTitle (codes "main")
unfolding is_line trim_start trim_end is_whitespace
main-IsTitle = ((refl, refl, refl), ground arith)

done_step-IsWritten : IsWritten done_step
unfolding is_line trim_start trim_end is_whitespace
done_step-IsWritten = (omega arith, omega arith, (refl, refl, refl), (refl, refl, refl))

failed_step-IsWritten : IsWritten failed_step
unfolding is_line trim_start trim_end is_whitespace
failed_step-IsWritten = (omega arith, omega arith, (refl, refl, refl), tt)

plan-Distinct : Distinct plan.steps
plan-Distinct = (refl, (refl, tt))

parse-plan : parse (render plan) ≡ ok (record plan { steps = map as_kept plan.steps })
parse-plan =
    parse-render plan parser-IsTitle main-IsTitle (done_step-IsWritten, (failed_step-IsWritten, tt))
      plan-Distinct

parse-render_example : parse (render plan) ≡ ok (record plan { steps = map as_kept plan.steps })
parse-render_example =
    parse-render plan parser-IsTitle main-IsTitle (done_step-IsWritten, (failed_step-IsWritten, tt))
      plan-Distinct

parse-IsPlan_example : IsPlan (record plan { steps = map as_kept plan.steps })
parse-IsPlan_example =
    parse-IsPlan (render plan) (record plan { steps = map as_kept plan.steps }) parse-plan

abbrev replan_log : Decisions
replan_log = record {
  name = codes "parser";
  entries =
      record {
        id = codes "D007";
        date = codes "2026-06-04";
        title = codes "Replan step 1";
        decision = codes "queued";
        rationale = codes "lint failed";
        refs = codes "step 1";
      }
      ∷ [];
}

highest_replan : highest_id replan_log.entries + 1 < 2 ^ 32
unfolding highest_id strip_prefix
highest_replan = omega arith
