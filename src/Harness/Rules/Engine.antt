-- ===== src/Harness/Rules/Engine.antt =====
-- Violated critical rules under any configuration of the rule engine.
use unshackled.Prelude.{
  ◌≡◌, ◌≢◌, refl, ◌∙◌, inl, inr, Bool, true, false, some, List, [], ◌∷◌, arith, if◌then◌else◌, In,
}
use unshackled.Text.{Text}
use unshackled.Harness.Config.{RuleSeverity, off, warn, block, CheckOutcome}
use unshackled.Harness.Rules.{
  Trigger, RuleContext, Rule, workspace_boundary, secret_file_guard, suite_green,
  commit_message_clean, quality_gate, no_stale_uncommitted, test_first_when_configured, name,
  critical, default_severity, applies_to, is_prohibited, is_allowed, check, RuleEngine,
  baseline_rules, with_baseline, effective_severity, is_off, evaluate_rules, evaluate,
}
use unshackled.Harness.Verdicts.{Verdict, allowed, gate_verdict, at, softened, apply_ceiling}

-- What a critical rule guards against.
pub data Violates (contains_secret : Text → Bool) (ctx : RuleContext) : Rule → Type 0 where
  outside : ctx.path_inside_workspace ≡ some false → Violates contains_secret ctx workspace_boundary
  secret : ctx.path_secret_like ≡ true → Violates contains_secret ctx secret_file_guard
  red : ctx.tests_passed ≡ some false → Violates contains_secret ctx suite_green
  dirty :
      is_prohibited contains_secret ctx.commit_message ≡ true
      → Violates contains_secret ctx commit_message_clean
  found : gate_verdict ctx.gate_outcomes block ≢ allowed → Violates contains_secret ctx quality_gate

default_severity-is_off : (r : Rule) → is_off (default_severity r) ≡ false
unfolding default_severity
default_severity-is_off secret_file_guard = refl
default_severity-is_off test_first_when_configured = refl
default_severity-is_off _ = refl

critical-is_off :
    (e : RuleEngine) (r : Rule) → critical r ≡ true → is_off (effective_severity e r) ≡ false
unfolding effective_severity
critical-is_off e r c = ground (arith, c, default_severity-is_off r)

at-is_allowed : (s : RuleSeverity) (m : Text) → is_off s ≡ false → is_allowed (at s m) ≡ false
unfolding at
at-is_allowed s m h = ground arith

softened-is_allowed : (v : Verdict) → is_allowed (softened v) ≡ is_allowed v
softened-is_allowed v = ground arith

gate-is_allowed :
    (os : List CheckOutcome) (s : RuleSeverity)
    → is_off s ≡ false
    → is_allowed (gate_verdict os s) ≡ is_allowed (gate_verdict os block)
unfolding gate_verdict apply_ceiling
gate-is_allowed os off h = cc
gate-is_allowed os block h = refl
gate-is_allowed os warn h = softened-is_allowed _

not_allowed : (v : Verdict) → v ≢ allowed → is_allowed v ≡ false
not_allowed allowed h = absurd (h refl)
not_allowed _ h = refl

Violates-check :
    (cs : Text → Bool) (ctx : RuleContext) {r : Rule} (s : RuleSeverity)
    → is_off s ≡ false
    → Violates cs ctx r
    → is_allowed (check cs r ctx s) ≡ false
unfolding check
Violates-check cs ctx s h (outside v) = ground (arith, v, at-is_allowed s)
Violates-check cs ctx s h (secret v) = ground (arith, v, h)
Violates-check cs ctx s h (red v) = ground (arith, v, h)
Violates-check cs ctx s h (dirty v) = ground (arith, v, h)
Violates-check cs ctx s h (found v) = gate-is_allowed ctx.gate_outcomes s h ∙ not_allowed _ v

Violates-critical :
    {cs : Text → Bool} {ctx : RuleContext} {r : Rule} → Violates cs ctx r → critical r ≡ true
unfolding critical
Violates-critical (outside v) = refl
Violates-critical (secret v) = refl
Violates-critical (red v) = refl
Violates-critical (dirty v) = refl
Violates-critical (found v) = refl

In-baseline_rules : (r : Rule) → In r baseline_rules
In-baseline_rules no_stale_uncommitted = inl refl
In-baseline_rules r = ground arith

abbrev verdict_of : RuleEngine → RuleContext → Rule → Verdict
verdict_of e ctx r = check e.contains_secret r ctx (effective_severity e r)

evaluate_rules-here :
    (e : RuleEngine) (t : Trigger) (ctx : RuleContext) (r : Rule) (rules : List Rule)
    → applies_to r t ≡ true
    → is_allowed (verdict_of e ctx r) ≡ false
    → evaluate_rules e t ctx (r ∷ rules)
      ≡ (name r, verdict_of e ctx r) ∷ evaluate_rules e t ctx rules
unfolding evaluate_rules
evaluate_rules-here e t ctx r rules a v = rw (a, v)

In-skip :
    {A : Type 0} (b c : Bool) (x y : A) (rest : List A)
    → In x rest
    → In x (if b then rest else if c then rest else y ∷ rest)
In-skip true c x y rest m = m
In-skip false true x y rest m = m
In-skip false false x y rest m = inr m

evaluate_rules-there :
    (e : RuleEngine) (t : Trigger) (ctx : RuleContext) (r : Rule) (rules : List Rule)
    (x : Text × Verdict)
    → In x (evaluate_rules e t ctx rules)
    → In x (evaluate_rules e t ctx (r ∷ rules))
unfolding evaluate_rules
evaluate_rules-there e t ctx r rules x m = In-skip _ _ x _ _ m

evaluate_rules-In :
    (e : RuleEngine) (t : Trigger) (ctx : RuleContext) (r : Rule) (rules : List Rule)
    → In r rules
    → applies_to r t ≡ true
    → is_allowed (verdict_of e ctx r) ≡ false
    → In (name r, verdict_of e ctx r) (evaluate_rules e t ctx rules)
evaluate_rules-In e t ctx r [] m a v = absurd m
evaluate_rules-In e t ctx r (x ∷ rules) (inl h) a v =
    rw (← h) (rw (evaluate_rules-here e t ctx r rules a v) (inl refl))
evaluate_rules-In e t ctx r (x ∷ rules) (inr m) a v =
    evaluate_rules-there e t ctx x rules _ (evaluate_rules-In e t ctx r rules m a v)

ne_allowed : (v : Verdict) → is_allowed v ≡ false → v ≢ allowed
ne_allowed v h e = ground arith

-- Whatever the configuration says, a violated critical rule is reported on each of its triggers,
-- with a verdict that is more than `Allow`.
pub critical-evaluate :
    (cs : Text → Bool) (config : List (Text × RuleSeverity)) (t : Trigger) (ctx : RuleContext)
    (r : Rule)
    → applies_to r t ≡ true
    → Violates cs ctx r
    → (v : Verdict) × (v ≢ allowed) × In (name r, v) (evaluate (with_baseline cs config) t ctx)
unfolding evaluate with_baseline
critical-evaluate cs config t ctx r a w =
    let e = with_baseline cs config in
    let loud =
      Violates-check cs ctx (effective_severity e r) (critical-is_off e r (Violates-critical w))
        w in
    (
      verdict_of e ctx r,
      ne_allowed _ loud,
      evaluate_rules-In e t ctx r baseline_rules (In-baseline_rules r) a loud,
    )
