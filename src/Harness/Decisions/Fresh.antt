-- ===== src/Harness/Decisions/Fresh.antt =====
-- The id of an appended decision.
use unshackled.Prelude.{
  ℕ, ◌+◌, ◌%◌, ◌^◌, ◌<◌, ◌≡◌, ◌≢◌, ltb, refl, sym, ap, ◌∙◌, true, Option, none, some, List, [], ◌∷◌,
  ◌++◌, All, arith, Bool-cases, inl, inr,
}
use unshackled.Text.{Text, codes}
use unshackled.Text.Trim.{strip_prefix}
use unshackled.Text.Decimal.{decimal, parse, parse-decimal, parse-zero, decimal-cons, is_digit}
use unshackled.Harness.Decisions.{
  Decision, Decisions, number_of, max_some, highest_id, padded, next_id, append,
}

lead :
    (t : Text) (c : ℕ) (s : Text)
    → t ≡ c ∷ s
    → is_digit c ≡ true
    → parse (2 ^ 32) (codes "0" ++ t) ≡ parse (2 ^ 32) t
lead t c s e d = rw e (parse-zero (2 ^ 32) c s (omega arith) (ground (arith, d)))

parse-padded : (n : ℕ) → n < 2 ^ 32 → parse (2 ^ 32) (padded n) ≡ some n
unfolding padded
parse-padded n h =
    let (c, s, e, d) = decimal-cons n in
    let one = lead (decimal n) c s e d ∙ parse-decimal (2 ^ 32) n h in
    elim (Bool-cases (ltb n 10)) [
      | inl y ↦ rw y (lead (codes "0" ++ decimal n) b'0' (decimal n) refl refl ∙ one)
      | inr z ↦ elim (Bool-cases (ltb n 100)) [
        | inl y ↦ rw (z, y) one
        | inr w ↦ rw (z, w) (parse-decimal (2 ^ 32) n h)
      ]
    ]

max_some-le : (o : Option ℕ) (k n : ℕ) → max_some o k < n → k < n
max_some-le none k n h = h
max_some-le (some m) k n h = omega (arith, h)

number_of-next :
    (n : ℕ) → n < 2 ^ 32 → number_of (strip_prefix (codes "D") (codes "D" ++ padded n)) ≡ some n
unfolding strip_prefix
number_of-next n h = parse-padded n h

-- An id with a number above the highest is not among the ids.
above_highest :
    (n : ℕ) (id : Text) (ds : List Decision)
    → number_of (strip_prefix (codes "D") id) ≡ some n
    → highest_id ds < n
    → All (λ d. d.id ≢ id) ds
unfolding highest_id
above_highest n id [] e h = tt
above_highest n id (d ∷ ds) e h = (
  λ same.
      let number : number_of (strip_prefix (codes "D") d.id) ≡ some n =
        ap (λ i. number_of (strip_prefix (codes "D") i)) same ∙ e in
      absurd (omega (arith, h, sym (ap (λ o. max_some o (highest_id ds)) number))),
  above_highest n id ds e
      (max_some-le (number_of (strip_prefix (codes "D") d.id)) (highest_id ds) n h),
)

-- A decision that is appended gets an id that no decision of the log has, as long as the highest
-- number among the ids is below the bound of 32 bits; the others stay as they are, before it.
pub append-fresh :
    (d : Decisions) (date title decision rationale refs : Text)
    → highest_id d.entries + 1 < 2 ^ 32
    → All (λ e. e.id ≢ (append d date title decision rationale refs).1) d.entries
      × ((e : Decision) × ((append d date title decision rationale refs).0.entries
            ≡ d.entries ++ e ∷ [])
          × (e.id ≡ (append d date title decision rationale refs).1))
unfolding append next_id
append-fresh d date title decision rationale refs h =
    let next = highest_id d.entries + 1 in
    let whole : next % 2 ^ 32 ≡ next = omega (arith, h) in
    (
      rw whole (
          above_highest next (codes "D" ++ padded next) d.entries (number_of-next next h)
            (omega arith)),
      (_, refl, refl),
    )
