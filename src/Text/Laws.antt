-- ===== src/Text/Laws.antt =====
-- Equality of texts, membership in a list of literals, and ASCII case.
use unshackled.Prelude.{
  ℕ, ◌≡◌, refl, ◌↔◌, Bool, true, List, [], ◌∷◌, map, arith, Bool-cases, any, ap, inl, inr, all,
}
use unshackled.Text.{Text, text_eq, one_of, lower_char, lower}

pub text_eq_sound : (s t : Text) → text_eq s t ≡ true → s ≡ t
unfolding text_eq
text_eq_sound [] [] h = refl
text_eq_sound (a ∷ s) (b ∷ t) h = ground (arith, text_eq_sound s t)
text_eq_sound [] (b ∷ t) h = ground arith
text_eq_sound (a ∷ s) [] h = ground arith

pub text_eq_refl : (s : Text) → text_eq s s ≡ true
unfolding text_eq
text_eq_refl [] = refl
text_eq_refl (a ∷ s) = ground (arith, text_eq_refl s)

pub text_eq_iff : (s t : Text) → (text_eq s t ≡ true) ↔ (s ≡ t)
text_eq_iff s t = (text_eq_sound s t, λ e. rw e (text_eq_refl t))

-- A test that holds of every literal of a list holds of a text that the list contains.
pub one_of-all :
    (p : Text → Bool) (xs : List Text) (s : Text)
    → all p xs ≡ true
    → one_of s xs ≡ true
    → p s ≡ true
unfolding one_of
one_of-all p [] s h m = ground arith
one_of-all p (x ∷ xs) s h m = elim (Bool-cases (text_eq s x)) [
  | inl e ↦ rw (text_eq_sound s x e) (ground arith)
  | inr n ↦ one_of-all p xs s (ground arith) (ground arith)
]

pub lower_char_idem : (c : ℕ) → lower_char (lower_char c) ≡ lower_char c
unfolding lower_char
lower_char_idem c = ground arith

pub lower_idem : (s : Text) → lower (lower s) ≡ lower s
lower_idem [] = refl
lower_idem (c ∷ s) = ground (arith, lower_char_idem c, lower_idem s)

pub map-lower_idem : (xs : List Text) → map lower (map lower xs) ≡ map lower xs
map-lower_idem [] = refl
map-lower_idem (x ∷ xs) = ground (arith, lower_idem x, map-lower_idem xs)

-- A test that a text passes is passed by some text of a list that holds it.
pub any-one_of :
    (p : Text → Bool) (x : Text) (args : List Text)
    → p x ≡ true
    → one_of x args ≡ true
    → any p args ≡ true
unfolding one_of
any-one_of p x [] h m = cc
any-one_of p x (a ∷ args) h m = elim (Bool-cases (text_eq x a)) [
  | inl e ↦ ground (arith, ap p (text_eq_sound x a e), h)
  | inr n ↦ ground (arith, any-one_of p x args h)
]
