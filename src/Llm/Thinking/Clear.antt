-- ===== src/Llm/Thinking/Clear.antt =====
-- The part of a text that no tag begins in, however the text grows.
use unshackled.Prelude.{
  ℕ, zero, suc, ◌≡◌, ◌≤◌, ◌<◌, ◌-◌, refl, ap, sym, ◌∙◌, true, false, Option, none, some, [], ◌∷◌,
  ◌++◌, length, arith, Bool-cases, Option-cases, inl, inr, ◌⊎◌, append_assoc, length-append,
}
use unshackled.Text.{Text, text_eq}
use unshackled.Text.Split.{is_empty}
use unshackled.Text.Laws.{text_eq_sound, text_eq_refl}
use unshackled.Text.Trim.{strip_prefix, split_once, cons_part}
use unshackled.Text.Suffix.{is_suffix, take, drop}
use unshackled.Llm.Thinking.{longest_suffix, partial_tag_suffix}
use unshackled.Llm.Thinking.Tags.{agree, agree-short, strip_prefix-agree, text_eq-agree}

is_suffix-empty : (s : Text) → is_suffix [] s ≡ true
unfolding is_suffix is_empty
is_suffix-empty [] = refl
is_suffix-empty (c ∷ s) = ground (arith, is_suffix-empty s)

longest_suffix-is_suffix :
    (n : ℕ) (s tag : Text) → is_suffix (take (longest_suffix n s tag) tag) s ≡ true
unfolding longest_suffix
longest_suffix-is_suffix zero s tag = is_suffix-empty s
longest_suffix-is_suffix (suc n) s tag = elim (Bool-cases (is_suffix (take (suc n) tag) s)) [
  | inl y ↦ rw y y
  | inr m ↦ rw m (longest_suffix-is_suffix n s tag)
]

longest_suffix-le : (n : ℕ) (s tag : Text) → longest_suffix n s tag ≤ n
unfolding longest_suffix
longest_suffix-le zero s tag = omega arith
longest_suffix-le (suc n) s tag = ground (arith, longest_suffix-le n s tag)

longest_suffix-longest :
    (n j : ℕ) (s tag : Text) → longest_suffix n s tag < j → j ≤ n → is_suffix (take j tag) s ≡ false
unfolding longest_suffix
longest_suffix-longest zero j s tag low high = ground (arith, low, high)
longest_suffix-longest (suc n) j s tag low high =
    elim (Bool-cases (is_suffix (take (suc n) tag) s)) [
      | inl y ↦ ground (arith, y, low, high)
      | inr m ↦ elim (le_cases j n high) [
        | inl below ↦ longest_suffix-longest n j s tag (ground (arith, m, low)) below
        | inr same ↦ rw same m
      ]
    ]
  where
    le_cases : (j n : ℕ) → j ≤ suc n → (j ≤ n) ⊎ (j ≡ suc n)
    le_cases j n h = omega (arith, h)

is_suffix-drop :
    (p s : Text) → is_suffix p s ≡ true → (length p ≤ length s) × (drop (length s - length p) s ≡ p)
unfolding is_suffix is_empty
is_suffix-drop [] [] h = (omega arith, refl)
is_suffix-drop (q ∷ p) [] h = cc
is_suffix-drop p (c ∷ s) h = elim (Bool-cases (text_eq p (c ∷ s))) [
  | inl y ↦
      let same = text_eq_sound p (c ∷ s) y in
      let none_left : suc (length s) - suc (length s) ≡ 0 = omega arith in
      rw same (omega arith, rw none_left refl)
  | inr n ↦
      let (low, same) = is_suffix-drop p s (ground (arith, h, n)) in
      let one_more : suc (length s) - length p ≡ suc (length s - length p) = omega (arith, low) in
      (omega (arith, low), rw one_more same)
]

pub take-drop : (n : ℕ) (s : Text) → take n s ++ drop n s ≡ s
take-drop zero s = refl
take-drop (suc n) [] = refl
take-drop (suc n) (c ∷ s) = ap (◌∷◌ c) (take-drop n s)

-- Of a text in two parts: from no place in the first part on does it agree with the tag.
abbrev pub Clear : Text → Text → Text → Type 0
Clear tag [] k = Unit
Clear tag (c ∷ s) k = (agree tag (c ∷ (s ++ k)) ≡ false) × Clear tag s k

Clear-build :
    (tag s k : Text)
    → split_once tag (s ++ k) ≡ none
    → ((j : ℕ) → length k < j → j < length tag → is_suffix (take j tag) (s ++ k) ≡ false)
    → Clear tag s k
unfolding split_once is_suffix
Clear-build tag [] k h none_ends = tt
Clear-build tag (c ∷ s) k h none_ends = (
  elim (Bool-cases (agree tag (c ∷ (s ++ k)))) [ inl y ↦ clash y | inr n ↦ n ],
  Clear-build tag s k rest (λ j low high. ground (arith, none_ends j low high)),
)
  where
    first : strip_prefix tag (c ∷ (s ++ k)) ≡ none
    first = ground (arith, h)

    rest : split_once tag (s ++ k) ≡ none
    rest = elim (Option-cases (split_once tag (s ++ k))) [
      | inl n ↦ n
      | inr ((b, a), m) ↦ ground (arith, h, m)
    ]

    clash : agree tag (c ∷ (s ++ k)) ≡ true → agree tag (c ∷ (s ++ k)) ≡ false
    clash y =
        let (low, same) = agree-short tag (c ∷ (s ++ k)) y first in
        let above : length k < suc (length (s ++ k)) = omega (arith, length-append s k) in
        let not_there = none_ends (suc (length (s ++ k))) above low in
        ground (arith, not_there, same, text_eq_refl (c ∷ (s ++ k)))

-- What a text that is clear holds of a tag begins behind its first part.
abbrev pub before_part : Text → Option (Text × Text) → Option (Text × Text)
before_part s none = none
before_part s (some (b, a)) = some (s ++ b, a)

cons-before_part :
    (c : ℕ) (s : Text) (o : Option (Text × Text))
    → cons_part c (before_part s o) ≡ before_part (c ∷ s) o
cons-before_part c s none = refl
cons-before_part c s (some (b, a)) = refl

before_part-nil : (o : Option (Text × Text)) → o ≡ before_part [] o
before_part-nil none = refl
before_part-nil (some (b, a)) = refl

pub Clear-split_once :
    (tag s k d : Text)
    → Clear tag s k
    → split_once tag (s ++ (k ++ d)) ≡ before_part s (split_once tag (k ++ d))
unfolding split_once
Clear-split_once tag [] k d h = before_part-nil (split_once tag (k ++ d))
Clear-split_once tag (c ∷ s) k d (h, later) =
    let gone : strip_prefix tag (c ∷ (s ++ (k ++ d))) ≡ none =
      ap (λ z. strip_prefix tag (c ∷ z)) (sym (append_assoc s k d))
      ∙ strip_prefix-agree tag (c ∷ (s ++ k)) d h in
    rw (gone, Clear-split_once tag s k d later) (cons-before_part c s (split_once tag (k ++ d)))

Clear-is_suffix :
    (tag s k d : Text) (j : ℕ)
    → Clear tag s k
    → is_suffix (take j tag) (s ++ (k ++ d)) ≡ is_suffix (take j tag) (k ++ d)
unfolding is_suffix
Clear-is_suffix tag [] k d j h = refl
Clear-is_suffix tag (c ∷ s) k d j (h, later) =
    let gone : text_eq (take j tag) (c ∷ (s ++ (k ++ d))) ≡ false =
      ap (λ z. text_eq (take j tag) (c ∷ z)) (sym (append_assoc s k d))
      ∙ text_eq-agree j tag (c ∷ (s ++ k)) d h in
    rw gone (Clear-is_suffix tag s k d j later)

pub Clear-longest_suffix :
    (n : ℕ) (tag s k d : Text)
    → Clear tag s k
    → longest_suffix n (s ++ (k ++ d)) tag ≡ longest_suffix n (k ++ d) tag
unfolding longest_suffix
Clear-longest_suffix zero tag s k d h = refl
Clear-longest_suffix (suc n) tag s k d h =
    rw (Clear-is_suffix tag s k d (suc n) h, Clear-longest_suffix n tag s k d h) refl

length-take : (n : ℕ) (s : Text) → n ≤ length s → length (take n s) ≡ n
length-take zero s h = refl
length-take (suc n) [] h = omega (arith, h)
length-take (suc n) (c ∷ s) h =
    let rest : n ≤ length s = omega (arith, h) in omega (arith, length-take n s rest)

pub longest_suffix-length :
    (n : ℕ) (s tag : Text) → n ≤ length tag → longest_suffix n s tag ≤ length s
longest_suffix-length n s tag h =
    let (low, same) =
      is_suffix-drop (take (longest_suffix n s tag) tag) s (longest_suffix-is_suffix n s tag) in
    omega (arith, low, h, longest_suffix-le n s tag, length-take (longest_suffix n s tag) tag)

-- Where a text holds no tag, what is not kept of it is clear.
pub Clear-partial_tag_suffix :
    (s tag : Text)
    → split_once tag s ≡ none
    → Clear tag
        (take (length s - partial_tag_suffix s tag) s)
        (drop (length s - partial_tag_suffix s tag) s)
unfolding partial_tag_suffix
Clear-partial_tag_suffix s tag h =
    let most = length tag - 1 in
    let k = longest_suffix most s tag in
    let low : k ≤ most = longest_suffix-le most s tag in
    let n = length s - k in
    let size : length (take k tag) ≡ k = length-take k tag (omega (arith, low)) in
    let (fit, same) = is_suffix-drop (take k tag) s (longest_suffix-is_suffix most s tag) in
    let kept : drop n s ≡ take k tag = ap (λ z. drop (length s - z) s) (sym size) ∙ same in
    let whole = take-drop n s in
    let kept_size : length (drop n s) ≡ k = ap length kept ∙ size in
    Clear-build tag (take n s) (drop n s) (rw whole h) (λ j above below.
      ap (is_suffix (take j tag)) whole
      ∙ longest_suffix-longest most j s tag (omega (arith, above, kept_size))
          (omega (arith, below)))
