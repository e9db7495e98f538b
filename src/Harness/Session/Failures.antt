-- ===== src/Harness/Session/Failures.antt =====
-- crates/localpilot-harness/src/session.rs: what the guard on failing tools counts.
use unshackled.Prelude.{
  ℕ, ◌+◌, ◌%◌, ◌≡◌, refl, ap, ◌∙◌, Bool, true, false, List, [], ◌∷◌, arith, if◌then◌else◌,
  Bool-cases, inl, inr,
}
use unshackled.Text.{Text, text_eq}
use unshackled.Text.Laws.{text_eq_sound, text_eq_iff}
use unshackled.Core.Messages.{ToolResult}
use unshackled.Harness.Session.{Session}
use unshackled.Harness.Session.Execute.{
  u32_mod, failures_of, without_key, record_failure, record_success, track, warn_failure,
}

failures_of-without :
    (name k : Text) (map : List (Text × ℕ))
    → failures_of name (without_key k map) ≡ (if text_eq k name then 0 else failures_of name map)
unfolding failures_of without_key
failures_of-without name k [] = ground arith
failures_of-without name k ((j, n) ∷ map) =
    ground (
      arith,
      text_eq_iff j k,
      text_eq_iff k name,
      text_eq_iff j name,
      failures_of-without name k map,
    )

failures_of-record_failure :
    (name k : Text) (map : List (Text × ℕ))
    → failures_of name (record_failure k map)
      ≡ (if text_eq k name then (failures_of name map + 1) % u32_mod else failures_of name map)
unfolding failures_of record_failure
failures_of-record_failure name k map = elim (Bool-cases (text_eq k name)) [
  | inl y ↦ rw (y, text_eq_sound k name y) refl
  | inr n ↦ rw (n, failures_of-without name k map, n) refl
]

failures_of-record_success :
    (name k : Text) (map : List (Text × ℕ))
    → failures_of name (record_success k map) ≡ (if text_eq k name then 0 else failures_of name map)
unfolding record_success
failures_of-record_success name k map = failures_of-without name k map

warn_failure-failures :
    (name : Text) (count : ℕ) (s : Session) → (warn_failure name count s).failures ≡ s.failures
unfolding warn_failure
warn_failure-failures name count s = ground arith

track-failures :
    (k : Text) (r : ToolResult) (s : Session)
    → (track r k s).failures
      ≡ (if r.is_error then record_failure k s.failures else record_success k s.failures)
unfolding track
track-failures k r s = elim (Bool-cases r.is_error) [
  | inl y ↦ rw y (
      warn_failure-failures k (failures_of k (record_failure k s.failures))
        (record s { failures = record_failure k s.failures }))
  | inr n ↦ rw n refl
]

-- The guard after one result.
track-failures_of :
    (name k : Text) (r : ToolResult) (s : Session)
    → failures_of name (track r k s).failures ≡ (
        if text_eq k name
        then (if r.is_error then (failures_of name s.failures + 1) % u32_mod else 0)
        else failures_of name s.failures)
track-failures_of name k r s =
    ap (failures_of name) (track-failures k r s) ∙ elim (Bool-cases r.is_error) [
      | inl y ↦ rw y (failures_of-record_failure name k s.failures)
      | inr n ↦ rw n (failures_of-record_success name k s.failures)
    ]

-- The results of a turn, latest first, each with the name of its tool.
abbrev pub track_all : List (Text × ToolResult) → Session → Session
track_all [] s = s
track_all ((k, r) ∷ results) s = track r k (track_all results s)

-- How many of a tool's latest results in a row are failures.
abbrev pub failing_streak : Text → List (Text × ToolResult) → ℕ
failing_streak name [] = 0
failing_streak name ((k, r) ∷ results) =
    if text_eq k name
    then (if r.is_error then failing_streak name results + 1 else 0)
    else failing_streak name results

next_count :
    (same is_error : Bool) (count streak : ℕ)
    → count ≡ streak % u32_mod
    → (if same then (if is_error then (count + 1) % u32_mod else 0) else count)
      ≡ (if same then (if is_error then streak + 1 else 0) else streak) % u32_mod
next_count true true count streak e = omega (arith, e)
next_count true false count streak e = refl
next_count false is_error count streak e = e

-- From a turn's start the guard counts of each tool how many of its latest results in a row are
-- failures, modulo 2 ^ 32: a success clears the count, and other tools do not touch it.
pub track_all-failing_streak :
    (name : Text) (results : List (Text × ToolResult)) (s : Session)
    → s.failures ≡ []
    → failures_of name (track_all results s).failures ≡ failing_streak name results % u32_mod
track_all-failing_streak name [] s e = rw e (unfold failures_of in refl)
track_all-failing_streak name ((k, r) ∷ results) s e =
    track-failures_of name k r (track_all results s)
    ∙ next_count (text_eq k name) r.is_error _ (failing_streak name results)
        (track_all-failing_streak name results s e)
