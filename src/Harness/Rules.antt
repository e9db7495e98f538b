-- ===== src/Harness/Rules.antt =====
-- crates/localpilot-harness/src/rules.rs: the rules, the quality gate and the rule engine. The
-- secret detector matches regular expressions of a third-party crate and is a parameter.
use unshackled.Prelude.{
  ℕ, ◌≤◌, ◌<◌, Bool, true, false, not, ◌&&◌, ◌||◌, Option, none, some, List, [], ◌∷◌, ◌++◌, any,
  leb, ltb, if◌then◌else◌,
}
use unshackled.Text.{Text, codes, text_eq, contains, lower}
use unshackled.Harness.Config.{
  RuleSeverity, off, warn, block, Cadence, CheckStatus, passed, failed, denied, errored,
  CheckOutcome,
}
pub mod Engine
use unshackled.Harness.Verdicts.{Verdict, allowed, at, gate_verdict}

pub data Trigger : Type 0 where
  session_start pre_tool post_tool pre_edit post_edit pre_shell post_shell pre_commit : Trigger
  post_test step_complete phase_complete : Trigger

pub record RuleContext : Type 0 where
  pub uncommitted_unrelated : Bool
  pub path_inside_workspace : Option Bool
  pub path_secret_like : Bool
  pub commit_message : Option Text
  pub tests_passed : Option Bool
  pub progress_reflects_completion : Option Bool
  pub test_first_required : Bool
  pub editing_impl_before_tests : Bool
  pub attempts : ℕ
  pub max_attempts : ℕ
  pub gate_outcomes : List CheckOutcome

-- The baseline rules.
pub data Rule : Type 0 where
  no_stale_uncommitted workspace_boundary secret_file_guard test_first_when_configured : Rule
  suite_green progress_updated commit_message_clean attempt_limit quality_gate : Rule

unfoldable pub name : Rule → Text
name no_stale_uncommitted = codes "no_stale_uncommitted"
name workspace_boundary = codes "workspace_boundary"
name secret_file_guard = codes "secret_file_guard"
name test_first_when_configured = codes "test_first_when_configured"
name suite_green = codes "suite_green"
name progress_updated = codes "progress_updated"
name commit_message_clean = codes "commit_message_clean"
name attempt_limit = codes "attempt_limit"
name quality_gate = codes "quality_gate"

unfoldable pub critical : Rule → Bool
critical workspace_boundary = true
critical secret_file_guard = true
critical suite_green = true
critical commit_message_clean = true
critical quality_gate = true
critical _ = false

unfoldable pub default_severity : Rule → RuleSeverity
default_severity secret_file_guard = warn
default_severity test_first_when_configured = warn
default_severity _ = block

unfoldable pub applies_to : Rule → Trigger → Bool
applies_to no_stale_uncommitted session_start = true
applies_to workspace_boundary pre_tool = true
applies_to workspace_boundary pre_edit = true
applies_to secret_file_guard pre_tool = true
applies_to secret_file_guard pre_edit = true
applies_to test_first_when_configured pre_edit = true
applies_to suite_green post_test = true
applies_to suite_green step_complete = true
applies_to progress_updated pre_commit = true
applies_to progress_updated step_complete = true
applies_to commit_message_clean pre_commit = true
applies_to attempt_limit step_complete = true
applies_to quality_gate step_complete = true
applies_to quality_gate phase_complete = true
applies_to _ _ = false

abbrev pub prohibited_commit_terms : List Text
prohibited_commit_terms = codes "leaked" ∷ codes "source-map" ∷ codes "private endpoint" ∷ []

abbrev pub is_no : Option Bool → Bool
is_no (some false) = true
is_no _ = false

unfoldable pub is_prohibited : (Text → Bool) → Option Text → Bool
is_prohibited contains_secret none = false
is_prohibited contains_secret (some m) =
    contains_secret m || any (λ t. contains t (lower m)) prohibited_commit_terms

-- `$ty::check` of each rule.
unfoldable pub check : (Text → Bool) → Rule → RuleContext → RuleSeverity → Verdict
unfolding at is_prohibited gate_verdict
check contains_secret no_stale_uncommitted ctx severity =
    if ctx.uncommitted_unrelated
    then at severity (codes "unrelated uncommitted changes are present; commit or stash them first")
    else allowed
check contains_secret workspace_boundary ctx severity =
    if is_no ctx.path_inside_workspace
    then at severity (codes "the target path is outside the workspace boundary")
    else allowed
check contains_secret secret_file_guard ctx severity =
    if ctx.path_secret_like
    then at severity (codes "the target looks like a secret-bearing file")
    else allowed
check contains_secret test_first_when_configured ctx severity =
    if ctx.test_first_required && ctx.editing_impl_before_tests
    then at severity (codes "implementation is being edited before its test")
    else allowed
check contains_secret suite_green ctx severity =
    if is_no ctx.tests_passed
    then at severity (codes "the configured test command did not pass")
    else allowed
check contains_secret progress_updated ctx severity =
    if is_no ctx.progress_reflects_completion
    then at severity (codes "PROGRESS.md does not yet reflect the completed step")
    else allowed
check contains_secret commit_message_clean ctx severity =
    if is_prohibited contains_secret ctx.commit_message
    then at severity (codes "the commit message contains a secret or a prohibited reference")
    else allowed
check contains_secret attempt_limit ctx severity =
    if ltb 0 ctx.max_attempts && leb ctx.max_attempts ctx.attempts
    then at severity (codes "the per-step attempt limit was reached")
    else allowed
check contains_secret quality_gate ctx severity = gate_verdict ctx.gate_outcomes severity

unfoldable pub trigger_for_cadence : Cadence → Trigger
trigger_for_cadence Cadence.step = step_complete
trigger_for_cadence Cadence.phase = phase_complete

-- The configured severities, and the detector that the rules call.
pub record RuleEngine : Type 0 where
  pub rules : List Rule
  pub severities : List (Text × RuleSeverity)
  pub contains_secret : Text → Bool

abbrev pub baseline_rules : List Rule
baseline_rules =
    no_stale_uncommitted ∷ workspace_boundary ∷ secret_file_guard ∷ test_first_when_configured
    ∷ suite_green ∷ progress_updated ∷ commit_message_clean ∷ attempt_limit ∷ quality_gate ∷ []

unfoldable pub with_baseline : (Text → Bool) → List (Text × RuleSeverity) → RuleEngine
with_baseline contains_secret config = record {
  rules = baseline_rules;
  severities = config;
  contains_secret = contains_secret;
}

unfoldable pub configured : List (Text × RuleSeverity) → Text → Option RuleSeverity
configured [] key = none
configured ((k, s) ∷ config) key = if text_eq k key then some s else configured config key

abbrev pub or_default : Option RuleSeverity → RuleSeverity → RuleSeverity
or_default none s = s
or_default (some c) s = c

abbrev pub is_off : RuleSeverity → Bool
is_off off = true
is_off _ = false

unfoldable pub effective_severity : RuleEngine → Rule → RuleSeverity
unfolding configured critical default_severity
effective_severity e rule =
    let severity = or_default (configured e.severities (name rule)) (default_severity rule) in
    if critical rule && is_off severity then default_severity rule else severity

abbrev pub is_allowed : Verdict → Bool
is_allowed allowed = true
is_allowed _ = false

-- The loop of `evaluate` over the rules.
unfoldable pub evaluate_rules :
    RuleEngine → Trigger → RuleContext → List Rule → List (Text × Verdict)
unfolding check effective_severity applies_to
evaluate_rules e trigger ctx [] = []
evaluate_rules e trigger ctx (rule ∷ rules) =
    let rest = evaluate_rules e trigger ctx rules in
    let verdict = check e.contains_secret rule ctx (effective_severity e rule) in
    if not (applies_to rule trigger)
    then rest
    else if is_allowed verdict
    then rest
    else (name rule, verdict) ∷ rest

unfoldable pub evaluate : RuleEngine → Trigger → RuleContext → List (Text × Verdict)
unfolding evaluate_rules
evaluate e trigger ctx = evaluate_rules e trigger ctx e.rules
