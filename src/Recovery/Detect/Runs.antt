-- ===== src/Recovery/Detect/Runs.antt =====
-- The longest run of slashes of a line, by the blocks of slashes that the line contains.
use Prim.Native.Nat.{max}
use unshackled.Prelude.{
  ℕ, zero, suc, ◌+◌, ◌≤◌, ◌≡◌, refl, ap, ◌∙◌, ◌↔◌, inl, inr, true, false, [], ◌∷◌, ◌++◌, arith, leb,
  ◌==◌, if◌then◌else◌, Bool-cases, ==_iff, replicate,
}
use unshackled.Text.{Text}
use unshackled.Recovery.Detect.{Run, no_run, is_char, run_step, run_line, longest_repeat_run}

-- The slashes that a text begins with, and the longest block of slashes in it.
abbrev leading : Text → ℕ
leading [] = 0
leading (c ∷ s) = if c == b'/' then suc (leading s) else 0

abbrev longest : Text → ℕ
longest [] = 0
longest (c ∷ s) = max (leading (c ∷ s)) (longest s)

-- The loop's locals: a positive `current` stands behind a slash.
record IsRun (r : Run) : Type 0 where
  within : r.current ≤ r.best
  behind : is_char r.previous b'/' ≡ false → r.current ≡ 0

run_step-current :
    (r : Run) (c : ℕ) → IsRun r → (run_step r c).current ≡ (if c == b'/' then r.current + 1 else 0)
unfolding run_step
run_step-current r c v = elim (Bool-cases (c == b'/')) [
  | inl e ↦ elim (Bool-cases (is_char r.previous b'/')) [
    | inl p ↦ rw ((==_iff c b'/').0 e) (ground (arith, p))
    | inr p ↦ rw ((==_iff c b'/').0 e) (ground (arith, p, v.behind p))
  ]
  | inr n ↦ ground arith
]

run_step-IsRun : (r : Run) (c : ℕ) → IsRun r → IsRun (run_step r c)
unfolding run_step
run_step-IsRun r c v = record { within = omega arith; behind = λ h. ground arith }

run_step-best : (r : Run) (c : ℕ) → (run_step r c).best ≡ max r.best (run_step r c).current
unfolding run_step
run_step-best r c = refl

leading-le-longest : (s : Text) → leading s ≤ longest s
leading-le-longest [] = omega arith
leading-le-longest (c ∷ s) = omega arith

run_line-best :
    (r : Run) (s : Text)
    → IsRun r
    → (run_line r s).best ≡ max r.best (max (r.current + leading s) (longest s))
unfolding run_line
run_line-best r [] v = omega (arith, v.within)
run_line-best r (c ∷ s) v = ground (
  arith,
  run_line-best (run_step r c) s (run_step-IsRun r c v),
  run_step-best r c,
  run_step-current r c v,
  v.within,
  leading-le-longest s,
)

longest_repeat_run-longest : (s : Text) → longest_repeat_run s ≡ longest s
unfolding longest_repeat_run
longest_repeat_run-longest s =
    run_line-best no_run s (record { within = omega arith; behind = λ h. refl })
    ∙ omega (arith, leading-le-longest s)

abbrev pub HasBlock : ℕ → Text → Type 0
HasBlock n s = (before : Text) × (behind : Text) × (s ≡ before ++ (replicate n b'/' ++ behind))

leading_block :
    (n : ℕ) (s : Text) → n ≤ leading s → (behind : Text) × (s ≡ replicate n b'/' ++ behind)
leading_block zero s h = (s, refl)
leading_block (suc n) [] h = absurd (omega arith)
leading_block (suc n) (c ∷ s) h = elim (Bool-cases (c == b'/')) [
  | inl e ↦ let (t, p) = leading_block n s (ground arith) in (t, ground (arith, p))
  | inr m ↦ absurd (ground arith)
]

leb→le : (a b : ℕ) → leb a b ≡ true → a ≤ b
leb→le a b h = ground arith

shorter : (n a b : ℕ) → leb n a ≡ false → n ≤ max a b → n ≤ b
shorter n a b h m = ground arith

longest_block : (n : ℕ) (s : Text) → n ≤ longest s → HasBlock n s
longest_block zero s h = ([], s, refl)
longest_block (suc n) [] h = absurd (omega arith)
longest_block (suc n) (c ∷ s) h = elim (Bool-cases (leb (suc n) (leading (c ∷ s)))) [
  | inl e ↦
      let (t, p) = leading_block (suc n) (c ∷ s) (leb→le (suc n) (leading (c ∷ s)) e) in ([], t, p)
  | inr m ↦
      let (b, t, p) = longest_block (suc n) s (shorter (suc n) (leading (c ∷ s)) (longest s) m h) in
      (c ∷ b, t, ap (◌∷◌ c) p)
]

block_leading : (n : ℕ) (t : Text) → n ≤ leading (replicate n b'/' ++ t)
block_leading zero t = omega arith
block_leading (suc n) t = omega (arith, block_leading n t)

block_longest : (n : ℕ) (before t : Text) → n ≤ longest (before ++ (replicate n b'/' ++ t))
block_longest n [] t = omega (arith, block_leading n t, leading-le-longest (replicate n b'/' ++ t))
block_longest n (c ∷ s) t = omega (arith, block_longest n s t)

-- The detector finds a run of `n` slashes in a line exactly where the line contains `n` slashes
-- in a row.
pub longest_repeat_run_iff : (n : ℕ) (line : Text) → (n ≤ longest_repeat_run line) ↔ HasBlock n line
longest_repeat_run_iff n line = (
  λ h. longest_block n line (rw longest_repeat_run-longest at h),
  λ b. rw (longest_repeat_run-longest line, b.2) (block_longest n b.0 b.1),
)
