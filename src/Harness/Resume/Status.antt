-- ===== src/Harness/Resume/Status.antt =====
-- crates/localpilot-harness/src/resume.rs: the paths in the status that git prints, and what the run of a
-- step asks the rules and the checks.
use unshackled.Prelude.{
  Bool, true, false, ◌||◌, Option, none, some, List, [], ◌∷◌, ◌++◌, map, ◌==◌, if◌then◌else◌,
}
use unshackled.Text.{Text, codes, text_eq, starts_with}
use unshackled.Text.Trim.{trim, get_from, rsplit_once, trim_matches}
use unshackled.Text.Split.{lines, split_whitespace, is_empty}
use unshackled.Harness.Config.{step, never, CheckConfig, CheckOutcome, CheckStatus, passed}
use unshackled.Harness.Rules.{Trigger, RuleContext, RuleEngine, evaluate}
use unshackled.Harness.Verdicts.{Verdict, blocked}

-- `replace('\\', "/")`.
abbrev pub slashed : Text → Text
slashed = map λ c. if c == b'\\' then b'/' else c

abbrev pub new_path : Text → Option (Text × Text) → Text
new_path path none = path
new_path path (some (old, new)) = new

abbrev pub status_path : Option Text → Option Text
status_path none = none
status_path (some rest) =
    let path = new_path (trim rest) (rsplit_once (codes " -> ") (trim rest)) in
    if is_empty path then none else some (slashed (trim_matches (λ c. c == b'"') path))

abbrev pub cons_path : Option Text → List Text → List Text
cons_path none paths = paths
cons_path (some p) paths = p ∷ paths

unfoldable pub status_paths : List Text → List Text
unfolding get_from rsplit_once trim_matches
status_paths [] = []
status_paths (l ∷ ls) = cons_path (status_path (get_from 3 l)) (status_paths ls)

unfoldable pub parse_status_paths : Text → List Text
unfolding status_paths
parse_status_paths status = status_paths (lines status)

unfoldable pub is_runtime_state_path : Text → Bool
unfolding text_eq starts_with
is_runtime_state_path path =
    text_eq (slashed path) (codes ".localpilot")
    || starts_with (codes ".localpilot/") (slashed path)

-- `filter(|path| !test(path))`.
unfoldable pub without : (Text → Bool) → List Text → List Text
without test [] = []
without test (p ∷ ps) = let rest = without test ps in if test p then rest else p ∷ rest

-- `committable_status_paths`, of the status that git printed.
unfoldable pub committable_paths : Text → List Text
unfolding parse_status_paths is_runtime_state_path without
committable_paths status = without is_runtime_state_path (parse_status_paths status)

unfoldable pub blocking_of : List (Text × Verdict) → Option Text
blocking_of [] = none
blocking_of ((name, blocked reason) ∷ vs) = some (name ++ (codes ": " ++ reason))
blocking_of (v ∷ vs) = blocking_of vs

unfoldable pub first_blocking_reason : RuleEngine → Trigger → RuleContext → Option Text
unfolding blocking_of evaluate
first_blocking_reason e trigger ctx = blocking_of (evaluate e trigger ctx)

abbrev pub test_check : List Text → Option CheckConfig
test_check [] = none
test_check (program ∷ args) = some (record {
  name = codes "test";
  program = program;
  args = args;
  fix_program = none;
  fix_args = [];
  cadence = step;
  auto_fix = never;
  severity = none;
})

unfoldable pub legacy_test_check : Text → Option CheckConfig
legacy_test_check command = test_check (split_whitespace command)

abbrev pub is_passed : CheckStatus → Bool
is_passed passed = true
is_passed _ = false

-- Whether the first outcome named `test` passed.
unfoldable pub tests_passed_of : List CheckOutcome → Option Bool
unfolding text_eq
tests_passed_of [] = none
tests_passed_of (o ∷ os) =
    if text_eq o.name (codes "test") then some (is_passed o.status) else tests_passed_of os
