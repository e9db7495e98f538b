-- ===== src/Llm/Thinking/Tags.antt =====
-- A tag in a text that grows at its end.
use unshackled.Prelude.{
  ℕ, zero, suc, ◌≡◌, ◌≤◌, ◌<◌, ◌+◌, refl, Bool, true, false, ◌&&◌, none, some, [], ◌∷◌, ◌++◌,
  length, ◌==◌, arith, Bool-cases, Option-cases, inl, inr,
}
use unshackled.Text.{Text, text_eq}
use unshackled.Text.Trim.{strip_prefix, split_once}
use unshackled.Text.Suffix.{take}

-- Whether one of two texts begins with the other.
unfoldable pub agree : Text → Text → Bool
agree [] u = true
agree (p ∷ ps) [] = true
agree (p ∷ ps) (c ∷ u) = (p == c) && agree ps u

-- No text that begins with `u` begins with the tag, or is a beginning of it.
pub strip_prefix-agree : (tag u d : Text) → agree tag u ≡ false → strip_prefix tag (u ++ d) ≡ none
unfolding agree strip_prefix
strip_prefix-agree [] u d h = cc
strip_prefix-agree (p ∷ ps) [] d h = cc
strip_prefix-agree (p ∷ ps) (c ∷ u) d h = ground (arith, h, strip_prefix-agree ps u d)

pub text_eq-agree :
    (j : ℕ) (tag u d : Text) → agree tag u ≡ false → text_eq (take j tag) (u ++ d) ≡ false
unfolding agree text_eq
text_eq-agree j [] u d h = cc
text_eq-agree j (p ∷ ps) [] d h = cc
text_eq-agree zero (p ∷ ps) (c ∷ u) d h = refl
text_eq-agree (suc j) (p ∷ ps) (c ∷ u) d h = ground (arith, h, text_eq-agree j ps u d)

-- A text that agrees with the tag and does not begin with it is a proper beginning of it.
pub agree-short :
    (tag u : Text)
    → agree tag u ≡ true
    → strip_prefix tag u ≡ none
    → (length u < length tag) × (take (length u) tag ≡ u)
unfolding agree strip_prefix
agree-short [] u h n = cc
agree-short (p ∷ ps) [] h n = (omega arith, refl)
agree-short (p ∷ ps) (c ∷ u) h n = elim (Bool-cases (p == c)) [
  | inl e ↦
      let (low, same) = agree-short ps u (ground (arith, h, e)) (ground (arith, n, e)) in
      (omega (arith, low), ground (arith, e, same))
  | inr e ↦ ground (arith, h, e)
]

strip_prefix-append :
    (tag u d r : Text) → strip_prefix tag u ≡ some r → strip_prefix tag (u ++ d) ≡ some (r ++ d)
unfolding strip_prefix
strip_prefix-append [] u d r h = ground (arith, h)
strip_prefix-append (p ∷ ps) [] d r h = cc
strip_prefix-append (p ∷ ps) (c ∷ u) d r h = ground (arith, h, strip_prefix-append ps u d r)

strip_prefix-long :
    (tag u d : Text)
    → length tag ≤ length u
    → strip_prefix tag u ≡ none
    → strip_prefix tag (u ++ d) ≡ none
unfolding strip_prefix
strip_prefix-long [] u d low h = cc
strip_prefix-long (p ∷ ps) [] d low h = ground (arith, low)
strip_prefix-long (p ∷ ps) (c ∷ u) d low h =
    let shorter : length ps ≤ length u = omega (arith, low) in
    ground (arith, h, strip_prefix-long ps u d shorter)

strip_prefix-length :
    (tag u r : Text) → strip_prefix tag u ≡ some r → length u ≡ length tag + length r
unfolding strip_prefix
strip_prefix-length [] u r h = ground (arith, h)
strip_prefix-length (p ∷ ps) [] r h = cc
strip_prefix-length (p ∷ ps) (c ∷ u) r h = ground (arith, h, strip_prefix-length ps u r)

pub split_once-length :
    (tag s b a : Text)
    → split_once tag s ≡ some (b, a)
    → length s ≡ length b + (length tag + length a)
unfolding split_once
split_once-length tag [] b a h = cc
split_once-length tag (c ∷ s) b a h = elim (Option-cases (strip_prefix tag (c ∷ s))) [
  | inl e ↦ elim (Option-cases (split_once tag s)) [
    | inl n ↦ ground (arith, h, e, n)
    | inr ((b', a'), m) ↦ ground (arith, h, e, m, split_once-length tag s b' a' m)
  ]
  | inr (r, e) ↦ ground (arith, h, e, strip_prefix-length tag (c ∷ s) r e)
]

-- A tag that is found in a text is found there when the text grows.
pub split_once-append :
    (tag s d b a : Text)
    → split_once tag s ≡ some (b, a)
    → split_once tag (s ++ d) ≡ some (b, a ++ d)
unfolding split_once
split_once-append tag [] d b a h = cc
split_once-append tag (c ∷ s) d b a h = elim (Option-cases (strip_prefix tag (c ∷ s))) [
  | inl e ↦ elim (Option-cases (split_once tag s)) [
    | inl n ↦ ground (arith, h, e, n)
    | inr ((b', a'), m) ↦
        let long : length tag ≤ suc (length s) = omega (arith, split_once-length tag s b' a' m) in
        ground (
          arith,
          h,
          e,
          m,
          split_once-append tag s d b' a' m,
          strip_prefix-long tag (c ∷ s) d long e,
        )
  ]
  | inr (r, e) ↦ ground (arith, h, e, strip_prefix-append tag (c ∷ s) d r e)
]
