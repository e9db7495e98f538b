-- ===== src/Text/Decimal.antt =====
-- Unsigned integers as decimal text: `Display`, and `str::parse` into a type of a given size.
use unshackled.Prelude.{
  ℕ, zero, suc, ◌+◌, ◌-◌, ◌*◌, ◌/◌, ◌%◌, ◌<◌, ◌≤◌, ◌≡◌, refl, sym, ap, ◌∙◌, Bool, true, false, ◌&&◌,
  Option, none, some, [], ◌∷◌, ◌++◌, ltb, leb, ◌==◌, if◌then◌else◌, Bool-cases, inl, inr, all,
  all-append, arith,
}
use unshackled.Text.{Text}

abbrev pub more_digits : Bool → ℕ → (ℕ → Text) → Text
more_digits true n shorter = (b'0' + n) ∷ []
more_digits false n shorter = shorter (n / 10) ++ (b'0' + n % 10) ∷ []

-- With fuel: each round takes one digit.
unfoldable pub digits : ℕ → ℕ → Text
digits zero n = []
digits (suc fuel) n = more_digits (ltb n 10) n (digits fuel)

unfoldable pub decimal : ℕ → Text
unfolding digits
decimal n = digits (suc n) n

abbrev pub is_digit : ℕ → Bool
is_digit c = leb b'0' c && leb c b'9'

abbrev pub then_digit : ℕ → ℕ → Option ℕ → Option ℕ
then_digit size c none = none
then_digit size c (some n) =
    if is_digit c
    then (if ltb (n * 10 + (c - b'0')) size then some (n * 10 + (c - b'0')) else none)
    else none

unfoldable pub parse_digits : ℕ → Option ℕ → Text → Option ℕ
parse_digits size n [] = n
parse_digits size n (c ∷ s) = parse_digits size (then_digit size c n) s

abbrev pub parse_some : ℕ → Text → Option ℕ
parse_some size [] = none
parse_some size (c ∷ s) = parse_digits size (some 0) (c ∷ s)

-- The text may have one `+` in front.
unfoldable pub parse : ℕ → Text → Option ℕ
unfolding parse_digits
parse size [] = none
parse size (c ∷ s) = if c == b'+' then parse_some size s else parse_some size (c ∷ s)

parse_digits-append :
    (size : ℕ) (n : Option ℕ) (s t : Text)
    → parse_digits size n (s ++ t) ≡ parse_digits size (parse_digits size n s) t
unfolding parse_digits
parse_digits-append size n [] t = refl
parse_digits-append size n (c ∷ s) t = parse_digits-append size (then_digit size c n) s t

then_digit-lem :
    (size q d : ℕ)
    → d < 10
    → q * 10 + d < size
    → then_digit size (b'0' + d) (some q) ≡ some (q * 10 + d)
then_digit-lem size q d l h =
    let same : (b'0' + d) - b'0' ≡ d = omega arith in rw same (ground (arith, l, h))

parse_digits-digits :
    (size fuel n : ℕ) → n < fuel → n < size → parse_digits size (some 0) (digits fuel n) ≡ some n
unfolding digits parse_digits
parse_digits-digits size zero n f h = ground (arith, f)
parse_digits-digits size (suc fuel) n f h = elim (Bool-cases (ltb n 10)) [
  | inl y ↦
      ap (λ b. parse_digits size (some 0) (more_digits b n (digits fuel))) y
      ∙ then_digit-lem size 0 n (ground (arith, y)) (omega (arith, h))
      ∙ ap some (omega arith)
  | inr z ↦
      let large : 10 ≤ n = ground (arith, z) in
      let split : n / 10 * 10 + n % 10 ≡ n = omega arith in
      ap (λ b. parse_digits size (some 0) (more_digits b n (digits fuel))) z
      ∙ parse_digits-append size (some 0) (digits fuel (n / 10)) ((b'0' + n % 10) ∷ [])
      ∙ ap (then_digit size (b'0' + n % 10))
          (parse_digits-digits size fuel (n / 10) (omega arith) (omega arith))
      ∙ then_digit-lem size (n / 10) (n % 10) (omega arith) (omega arith)
      ∙ ap some split
]

-- The first digit is no `+`.
starts_digit :
    (fuel n : ℕ) → n < fuel → (c : ℕ) × (s : Text) × (digits fuel n ≡ c ∷ s) × (is_digit c ≡ true)
unfolding digits
starts_digit zero n f = absurd (omega (arith, f))
starts_digit (suc fuel) n f = elim (Bool-cases (ltb n 10)) [
  | inl y ↦ (b'0' + n, [], ap (λ b. more_digits b n (digits fuel)) y, ground (arith, y))
  | inr z ↦
      let large : 10 ≤ n = ground (arith, z) in
      let (c, s, e, d) = starts_digit fuel (n / 10) (omega arith) in
      (
        c,
        s ++ (b'0' + n % 10) ∷ [],
        ap (λ b. more_digits b n (digits fuel)) z ∙ ap (λ t. t ++ (b'0' + n % 10) ∷ []) e,
        d,
      )
]

pub decimal-cons : (n : ℕ) → (c : ℕ) × (s : Text) × (decimal n ≡ c ∷ s) × (is_digit c ≡ true)
unfolding decimal
decimal-cons n = starts_digit (suc n) n (omega arith)

-- A number below the size of the type is read back from its decimal text.
pub parse-decimal : (size n : ℕ) → n < size → parse size (decimal n) ≡ some n
unfolding parse decimal
parse-decimal size n h =
    let (c, s, e, d) = decimal-cons n in
    let whole = parse_digits-digits size (suc n) n (omega arith) h in
    rw e (ground (arith, d, sym (ap (parse_digits size (some 0)) e) ∙ whole))

digits-all : (fuel n : ℕ) → all is_digit (digits fuel n) ≡ true
unfolding digits
digits-all zero n = refl
digits-all (suc fuel) n = elim (Bool-cases (ltb n 10)) [
  | inl y ↦ ap (λ b. all is_digit (more_digits b n (digits fuel))) y ∙ ground (arith, y)
  | inr z ↦
      ap (λ b. all is_digit (more_digits b n (digits fuel))) z
      ∙ all-append is_digit (digits fuel (n / 10)) ((b'0' + n % 10) ∷ [])
      ∙ last (n % 10) (omega arith) (digits-all fuel (n / 10))
]
  where
    last :
        (d : ℕ)
        → d < 10
        → all is_digit (digits fuel (n / 10)) ≡ true
        → (all is_digit (digits fuel (n / 10)) && all is_digit ((b'0' + d) ∷ [])) ≡ true
    last d l h = ground (arith, l, h)

-- Its characters are digits.
pub decimal-all : (n : ℕ) → all is_digit (decimal n) ≡ true
unfolding decimal
decimal-all n = digits-all (suc n) n

abbrev pub Below : ℕ → Option ℕ → Type 0
Below size none = Unit {0}
Below size (some n) = n < size

Below-if : (size n : ℕ) (b : Bool) → (b ≡ true → n < size) → Below size (if b then some n else none)
Below-if size n true h = h refl
Below-if size n false h = tt

then_digit-Below : (size c : ℕ) (o : Option ℕ) → Below size (then_digit size c o)
then_digit-Below size c none = tt
then_digit-Below size c (some n) =
    elim (is_digit c)
      as (λ b. Below size (
        if b
        then (if ltb (n * 10 + (c - b'0')) size then some (n * 10 + (c - b'0')) else none)
        else none)) [
          | true ↦
              Below-if size (n * 10 + (c - b'0')) (ltb (n * 10 + (c - b'0')) size)
                λ y. ground (arith, y)
          | false ↦ tt
        ]

parse_digits-Below :
    (size : ℕ) (o : Option ℕ) (s : Text) → Below size o → Below size (parse_digits size o s)
unfolding parse_digits
parse_digits-Below size o [] h = h
parse_digits-Below size o (c ∷ s) h =
    parse_digits-Below size (then_digit size c o) s (then_digit-Below size c o)

parse_some-Below : (size : ℕ) (s : Text) → 0 < size → Below size (parse_some size s)
parse_some-Below size [] h = tt
parse_some-Below size (c ∷ s) h = parse_digits-Below size (some 0) (c ∷ s) h

-- What is read is below the size of the type.
pub parse-Below : (size : ℕ) (s : Text) → 0 < size → Below size (parse size s)
unfolding parse
parse-Below size [] h = tt
parse-Below size (c ∷ s) h =
    elim (c == b'+')
      as (λ b. Below size (if b then parse_some size s else parse_some size (c ∷ s))) [
        | true ↦ parse_some-Below size s h
        | false ↦ parse_some-Below size (c ∷ s) h
      ]

-- A leading zero does not count.
pub parse-zero :
    (size : ℕ) (c : ℕ) (s : Text)
    → 0 < size
    → (c == b'+') ≡ false
    → parse size (b'0' ∷ c ∷ s) ≡ parse size (c ∷ s)
unfolding parse parse_digits
parse-zero size c s h n = ground (arith, h, n)
