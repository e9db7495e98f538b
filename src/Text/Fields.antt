-- ===== src/Text/Fields.antt =====
-- Texts that `trim` leaves as they are, on one line.
use mathlib.Core.List.{reverse, reverse-append, reverse-cons, reverse-reverse}
use unshackled.Prelude.{
  ℕ, ◌≡◌, refl, ap, ◌∙◌, sym, ◌≢◌, ◌≤◌, length, Bool, true, false, [], ◌∷◌, ◌++◌, all, all-append,
  arith, Bool-cases, inl, inr,
}
use unshackled.Text.{Text, trim_start, is_whitespace}
use unshackled.Text.Trim.{trim, trim_end}
use unshackled.Text.Lines.{is_line, IsLine}
use unshackled.Text.Decimal.{is_digit}

abbrev pub IsField : Text → Type 0
IsField s = IsLine s × (trim_start s ≡ s) × (trim_end s ≡ s)

pub trim-field : (s : Text) → IsField s → trim s ≡ s
trim-field s (l, a, b) = ap trim_end a ∙ b

-- One blank in front is trimmed.
pub trim-blank : (s : Text) → IsField s → trim (b' ' ∷ s) ≡ s
unfolding trim_start is_whitespace
trim-blank s h = trim-field s h

trim_start-length : (s : Text) → length (trim_start s) ≤ length s
unfolding trim_start
trim_start-length [] = omega arith
trim_start-length (c ∷ s) = ground (arith, trim_start-length s)

trim_start-append :
    (c : ℕ) (s b : Text) → trim_start (c ∷ s) ≡ c ∷ s → trim_start (c ∷ s ++ b) ≡ c ∷ s ++ b
unfolding trim_start
trim_start-append c s b h = elim (Bool-cases (is_whitespace c)) [
  | inl y ↦
      let shorter : trim_start s ≡ c ∷ s = ground (arith, y, h) in
      absurd (omega (arith, trim_start-length s, ap length shorter))
  | inr n ↦ ground (arith, n)
]

pub trim_end-append : (a s : Text) → s ≢ [] → trim_end s ≡ s → trim_end (a ++ s) ≡ a ++ s
unfolding trim_end
trim_end-append a s n h =
    let same : trim_start (reverse s) ≡ reverse s =
      sym (reverse-reverse (trim_start (reverse s))) ∙ ap reverse h in
    ap (λ t. reverse (trim_start t)) (reverse-append a s)
    ∙ ap reverse
        (behind (reverse s) (reverse a) (λ e. n (sym (reverse-reverse s) ∙ ap reverse e)) same)
    ∙ ap reverse (sym (reverse-append a s))
    ∙ reverse-reverse (a ++ s)
  where
    behind : (r b : Text) → r ≢ [] → trim_start r ≡ r → trim_start (r ++ b) ≡ r ++ b
    behind [] b ne e = absurd (ne refl)
    behind (c ∷ r) b ne e = trim_start-append c r b e

digit-not_blank : (c : ℕ) → is_digit c ≡ true → is_whitespace c ≡ false
unfolding is_whitespace
digit-not_blank c h = ground (arith, h)

trim_start-digits : (s : Text) → all is_digit s ≡ true → trim_start s ≡ s
unfolding trim_start
trim_start-digits [] h = refl
trim_start-digits (c ∷ s) h = ground (arith, digit-not_blank c, h)

reverse-all : (p : ℕ → Bool) (s : Text) → all p s ≡ true → all p (reverse s) ≡ true
reverse-all p [] h = refl
reverse-all p (c ∷ s) h =
    ap (all p) (reverse-cons c s)
    ∙ ground (arith, h, reverse-all p s, all-append p (reverse s) (c ∷ []))

IsLine-digits : (s : Text) → all is_digit s ≡ true → IsLine s
unfolding is_line
IsLine-digits [] h = refl
IsLine-digits (c ∷ []) h = ground (arith, h)
IsLine-digits (c ∷ d ∷ s) h = ground (arith, h, IsLine-digits (d ∷ s))

pub IsField-digits : (s : Text) → all is_digit s ≡ true → IsField s
unfolding trim_end
IsField-digits s h = (
  IsLine-digits s h,
  trim_start-digits s h,
  ap reverse (trim_start-digits (reverse s) (reverse-all is_digit s h)) ∙ reverse-reverse s,
)
