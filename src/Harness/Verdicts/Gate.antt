-- ===== src/Harness/Verdicts/Gate.antt =====
-- The verdict of the quality gate over the outcomes of its checks.
use unshackled.Prelude.{
  ℕ, ◌≤◌, ◌<◌, ◌≡◌, refl, ap, ◌∙◌, inl, inr, Bool, true, false, ◌||◌, Option, none, some, any,
  if◌then◌else◌, List, [], ◌∷◌, ◌++◌, arith, ltb, Bool-cases, All,
}
use unshackled.Text.{Text}
use unshackled.Harness.Config.{
  RuleSeverity, off, warn, block, CheckStatus, passed, failed, denied, errored, CheckOutcome,
}
use unshackled.Harness.Verdicts.{
  Verdict, allowed, warned, retry, discard, blocked, status_verdict, rank, outcome_verdict,
  worst_from, apply_ceiling, softened, gate_verdict,
}

abbrev Below : ℕ → List CheckOutcome → Type 0
Below n = All (λ o. rank (outcome_verdict o) < n)

abbrev AtMost : ℕ → List CheckOutcome → Type 0
AtMost n = All (λ o. rank (outcome_verdict o) ≤ n)

-- `v` is the verdict of the first outcome of the highest rank, or `start`, if none ranks above it.
pub data Worst (start : Verdict) (os : List CheckOutcome) (v : Verdict) : Type 0 where
  start_stays : v ≡ start → AtMost (rank start) os → Worst start os v
  first_worst :
      (before : List CheckOutcome) (o : CheckOutcome) (behind : List CheckOutcome)
      → os ≡ before ++ o ∷ behind
      → v ≡ outcome_verdict o
      → rank start < rank v
      → Below (rank v) before
      → AtMost (rank v) behind
      → Worst start os v

ltb-true : (a b : ℕ) → ltb a b ≡ true → a < b
ltb-true a b h = ground arith

ltb-false : (a b : ℕ) → ltb a b ≡ false → b ≤ a
ltb-false a b h = ground arith

rise :
    (start : Verdict) (o : CheckOutcome) (os : List CheckOutcome) (v : Verdict)
    → rank start < rank (outcome_verdict o)
    → Worst (outcome_verdict o) os v
    → Worst start (o ∷ os) v
rise start o os v h (start_stays e m) = first_worst [] o os refl e (rw e h) tt (rw e m)
rise start o os v h (first_worst before p behind e f g b m) =
    first_worst (o ∷ before) p behind (ap (◌∷◌ o) e) f (omega arith) (g, b) m

keep :
    (start : Verdict) (o : CheckOutcome) (os : List CheckOutcome) (v : Verdict)
    → rank (outcome_verdict o) ≤ rank start
    → Worst start os v
    → Worst start (o ∷ os) v
keep start o os v h (start_stays e m) = start_stays e (h, m)
keep start o os v h (first_worst before p behind e f g b m) =
    first_worst (o ∷ before) p behind (ap (◌∷◌ o) e) f g (omega arith, b) m

worst_from-Worst : (start : Verdict) (os : List CheckOutcome) → Worst start os (worst_from start os)
unfolding worst_from
worst_from-Worst start [] = start_stays refl tt
worst_from-Worst start (o ∷ os) = elim (Bool-cases (ltb (rank start) (rank (outcome_verdict o)))) [
  | inl y ↦ rw y (rise start o os _ (ltb-true _ _ y) (worst_from-Worst (outcome_verdict o) os))
  | inr n ↦ rw n (keep start o os _ (ltb-false _ _ n) (worst_from-Worst start os))
]

-- The kinds of verdicts, apart from their messages.
pub data Kind : Type 0 where
  allows warns retries discards blocks : Kind

abbrev pub kind_of : Verdict → Kind
kind_of allowed = allows
kind_of (warned m) = warns
kind_of (retry m) = retries
kind_of (discard m) = discards
kind_of (blocked m) = blocks

-- A check that could not be answered, or found what its severity blocks on.
abbrev pub is_grave : CheckStatus → Option RuleSeverity → Bool
is_grave denied s = true
is_grave errored s = true
is_grave failed (some block) = true
is_grave _ _ = false

-- A check that failed, with no severity of its own.
abbrev pub is_undecided : CheckStatus → Option RuleSeverity → Bool
is_undecided failed none = true
is_undecided _ _ = false

-- A check that found what its severity warns of.
abbrev pub is_light : CheckStatus → Option RuleSeverity → Bool
is_light failed (some warn) = true
is_light _ _ = false

abbrev pub kind_by : Bool → Bool → Bool → Kind
kind_by true undecided light = blocks
kind_by false true light = retries
kind_by false false true = warns
kind_by false false false = allows

abbrev pub any_outcome : (CheckStatus → Option RuleSeverity → Bool) → List CheckOutcome → Bool
any_outcome test = any (λ o. test o.status o.severity)

-- The kind of the verdict at the severity `block`, by the outcomes.
abbrev pub kind_for : List CheckOutcome → Kind
kind_for os =
    kind_by (any_outcome is_grave os) (any_outcome is_undecided os) (any_outcome is_light os)

abbrev blocking : Verdict → Bool
blocking (blocked m) = true
blocking v = false

abbrev retrying : Verdict → Bool
retrying (retry m) = true
retrying v = false

abbrev warning : Verdict → Bool
warning (warned m) = true
warning v = false

-- No check gives a verdict that discards the attempt.
abbrev Keeps : Verdict → Type 0
Keeps (discard m) = ⊥
Keeps v = Unit {0}

-- What a status and a severity make of a verdict.
abbrev Follows : CheckStatus → Option RuleSeverity → Verdict → Type 0
Follows status s v =
    Keeps v
    × (blocking v ≡ is_grave status s)
    × (retrying v ≡ is_undecided status s)
    × (warning v ≡ is_light status s)

status_verdict-Follows :
    (name : Text) (status : CheckStatus) (s : Option RuleSeverity)
    → Follows status s (status_verdict name status s)
status_verdict-Follows name passed s = (tt, refl, refl, refl)
status_verdict-Follows name denied s = (tt, refl, refl, refl)
status_verdict-Follows name errored s = (tt, refl, refl, refl)
status_verdict-Follows name failed none = (tt, refl, refl, refl)
status_verdict-Follows name failed (some off) = (tt, refl, refl, refl)
status_verdict-Follows name failed (some warn) = (tt, refl, refl, refl)
status_verdict-Follows name failed (some block) = (tt, refl, refl, refl)

-- The worse of two verdicts, and the kind of both with what comes behind.
abbrev worse : Verdict → Verdict → Verdict
worse v w = if ltb (rank v) (rank w) then w else v

worse-Keeps : (v w : Verdict) → Keeps v → Keeps w → Keeps (worse v w)
worse-Keeps v w h k = elim (Bool-cases (ltb (rank v) (rank w))) [ inl y ↦ rw y k | inr n ↦ rw n h ]

worse-kind_by :
    (v w : Verdict) (g u l : Bool)
    → Keeps v
    → Keeps w
    → kind_by (blocking (worse v w) || g) (retrying (worse v w) || u) (warning (worse v w) || l)
      ≡ kind_by
          (blocking v || (blocking w || g))
          (retrying v || (retrying w || u))
          (warning v || (warning w || l))
unfolding rank
worse-kind_by allowed allowed g u l h k = refl
worse-kind_by allowed (warned m) g u l h k = refl
worse-kind_by allowed (retry m) g u l h k = refl
worse-kind_by allowed (blocked m) g u l h k = refl
worse-kind_by (warned n) allowed g u l h k = refl
worse-kind_by (warned n) (warned m) g u l h k = refl
worse-kind_by (warned n) (retry m) true u l h k = refl
worse-kind_by (warned n) (retry m) false u l h k = refl
worse-kind_by (warned n) (blocked m) g u l h k = refl
worse-kind_by (retry n) allowed g u l h k = refl
worse-kind_by (retry n) (warned m) true u l h k = refl
worse-kind_by (retry n) (warned m) false u l h k = refl
worse-kind_by (retry n) (retry m) g u l h k = refl
worse-kind_by (retry n) (blocked m) g u l h k = refl
worse-kind_by (blocked n) allowed g u l h k = refl
worse-kind_by (blocked n) (warned m) g u l h k = refl
worse-kind_by (blocked n) (retry m) g u l h k = refl
worse-kind_by (blocked n) (blocked m) g u l h k = refl
worse-kind_by v (discard m) g u l h k = absurd k
worse-kind_by (discard m) w g u l h k = absurd h

kind_of-kind_by :
    (v : Verdict)
    → Keeps v
    → kind_of v ≡ kind_by (blocking v || false) (retrying v || false) (warning v || false)
kind_of-kind_by allowed h = refl
kind_of-kind_by (warned m) h = refl
kind_of-kind_by (retry m) h = refl
kind_of-kind_by (discard m) h = absurd h
kind_of-kind_by (blocked m) h = refl

worst_from-kind_by :
    (v : Verdict) (os : List CheckOutcome)
    → Keeps v
    → kind_of (worst_from v os)
      ≡ kind_by
          (blocking v || any_outcome is_grave os)
          (retrying v || any_outcome is_undecided os)
          (warning v || any_outcome is_light os)
unfolding worst_from
worst_from-kind_by v [] h = kind_of-kind_by v h
worst_from-kind_by v (o ∷ os) h =
    let w = outcome_verdict o in
    let (keeps, grave, undecided, light) : Follows o.status o.severity w =
      unfold outcome_verdict in status_verdict-Follows o.name o.status o.severity in
    rw (← grave, ← undecided, ← light)
      (worst_from-kind_by (worse v w) os (worse-Keeps v w h keeps)
        ∙ worse-kind_by v w (any_outcome is_grave os) (any_outcome is_undecided os)
            (any_outcome is_light os) h keeps)

-- At the severity `block` the gate gives the verdict of the first check of the highest rank. It
-- blocks exactly if a check was denied, could not run, or failed at the severity `block`; else it asks
-- for a retry exactly if a check failed with no severity, else it warns exactly if one failed at the
-- severity `warn`, and else it allows. `warn` lowers that verdict to a warning, and `off` allows.
pub gate_verdict-Worst :
    (os : List CheckOutcome)
    → Worst allowed os (gate_verdict os block)
      × (kind_of (gate_verdict os block) ≡ kind_for os)
      × (gate_verdict os warn ≡ softened (gate_verdict os block))
      × (gate_verdict os off ≡ allowed)
unfolding gate_verdict apply_ceiling
gate_verdict-Worst os = (worst_from-Worst allowed os, worst_from-kind_by allowed os tt, refl, refl)
