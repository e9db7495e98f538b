-- ===== src/Harness/Verdicts.antt =====
-- crates/localpilot-harness/src/rules.rs: the verdicts of a rule and the quality gate.
use unshackled.Prelude.{
  ℕ, Bool, true, false, Option, none, some, List, [], ◌∷◌, ◌++◌, ltb, if◌then◌else◌,
}
use unshackled.Text.{Text, codes}
use unshackled.Harness.Config.{
  RuleSeverity, off, warn, block, CheckStatus, passed, failed, denied, errored, CheckOutcome,
}
pub mod Gate

pub data Verdict : Type 0 where
  allowed : Verdict
  warned retry discard blocked : Text → Verdict

unfoldable pub is_blocking : Verdict → Bool
is_blocking (blocked m) = true
is_blocking _ = false

unfoldable pub message : Verdict → Option Text
message allowed = none
message (warned m) = some m
message (retry m) = some m
message (discard m) = some m
message (blocked m) = some m

unfoldable pub at : RuleSeverity → Text → Verdict
at off reason = allowed
at warn reason = warned reason
at block reason = blocked reason

unfoldable pub rank : Verdict → ℕ
rank allowed = 0
rank (warned m) = 1
rank (retry m) = 2
rank (discard m) = 3
rank (blocked m) = 4

abbrev pub quoted : Text → Text → Text → Text
quoted before check behind = before ++ (check ++ behind)

abbrev pub failed_verdict : Text → Option RuleSeverity → Verdict
failed_verdict check (some off) = allowed
failed_verdict check (some warn) =
    warned (quoted (codes "quality check `") check (codes "` reported findings"))
failed_verdict check (some block) =
    blocked (quoted (codes "quality check `") check (codes "` reported blocking findings"))
failed_verdict check none =
    retry (quoted (codes "quality check `") check (codes "` failed; fix the findings and retry"))

abbrev pub status_verdict : Text → CheckStatus → Option RuleSeverity → Verdict
status_verdict check passed s = allowed
status_verdict check denied s =
    blocked (quoted (codes "quality check `") check (codes "` was denied by the permission engine"))
status_verdict check errored s =
    blocked (quoted (codes "quality check `") check (codes "` could not run"))
status_verdict check failed s = failed_verdict check s

unfoldable pub outcome_verdict : CheckOutcome → Verdict
outcome_verdict o = status_verdict o.name o.status o.severity

-- The loop of `gate_verdict` over the outcomes.
unfoldable pub worst_from : Verdict → List CheckOutcome → Verdict
unfolding rank outcome_verdict
worst_from worst [] = worst
worst_from worst (o ∷ os) =
    worst_from (if ltb (rank worst) (rank (outcome_verdict o)) then outcome_verdict o else worst) os

abbrev pub message_or : Option Text → Text → Text
message_or none t = t
message_or (some m) t = m

abbrev pub softened : Verdict → Verdict
softened allowed = allowed
softened v = warned (message_or (message v) (codes "the quality gate reported findings"))

unfoldable pub apply_ceiling : Verdict → RuleSeverity → Verdict
unfolding message
apply_ceiling v block = v
apply_ceiling v off = allowed
apply_ceiling v warn = softened v

unfoldable pub gate_verdict : List CheckOutcome → RuleSeverity → Verdict
unfolding worst_from apply_ceiling
gate_verdict os off = allowed
gate_verdict os severity = apply_ceiling (worst_from allowed os) severity
