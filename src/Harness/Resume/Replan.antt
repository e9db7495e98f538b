-- ===== src/Harness/Resume/Replan.antt =====
-- crates/localpilot-harness/src/resume.rs: `record_replan`, the entry of a replan in DECISIONS.md.
use unshackled.Prelude.{ℕ, Option, none, some, List, [], ◌∷◌, ◌++◌}
use unshackled.Text.Decimal.{decimal}
use unshackled.Text.{Text, codes, join_with}
use unshackled.Harness.Progress.File.{Parsed, ok, err}
use unshackled.Harness.Decisions.{Decisions, no_decisions, append}
use unshackled.Harness.Decisions

abbrev pub rationale_of : List Text → Text
rationale_of [] = codes "the per-step attempt budget was exhausted"
rationale_of (l ∷ ls) = codes "attempts failed: " ++ join_with (codes "; ") (l ∷ ls)

abbrev pub decisions_of : Text → Option Text → Parsed Decisions
decisions_of name none = ok (no_decisions name)
decisions_of name (some file) = Decisions.parse file

abbrev pub with_replan : Text → ℕ → List Text → Parsed Decisions → Parsed Text
with_replan today number logs (err e) = err e
with_replan today number logs (ok d) = ok (
    Decisions.render
      (append d today (codes "Replan step " ++ decimal number)
        (codes "the automated attempt budget was exhausted; the step is queued for replanning")
        (rationale_of logs) (codes "step " ++ decimal number)).0)

-- `record_replan`, up to the writing of the file.
unfoldable pub record_replan : Text → Text → ℕ → List Text → Option Text → Parsed Text
unfolding Decisions.parse Decisions.render append decimal join_with
record_replan today name number logs file = with_replan today number logs (decisions_of name file)
