-- ===== src/Tools/Shown.antt =====
-- crates/localpilot-tools/src/registry.rs: what of a long output stays in context.
use unshackled.Prelude.{
  ℕ, zero, suc, ◌+◌, ◌-◌, ◌≤◌, ◌<◌, min, ◌≡◌, ◌≢◌, ◌⊎◌, refl, sym, ap, ◌∙◌, true, false, List, [],
  ◌∷◌, ◌++◌, leb, ltb, arith, Bool-cases, inl, inr,
}
use unshackled.Text.{Text, codes, text_eq}
use unshackled.Text.Trim.{width}
use unshackled.Text.Decimal.{decimal}
use unshackled.Harness.Compaction.Sizes.{byte_len}
use unshackled.Tools.{Done, ToolContext}
use unshackled.Tools.Output.{
  context_output_bytes, context_tail_bytes, is_char_boundary, floor_from, floor_char_boundary,
  split_at, retain_output, cut_middle, bound_output,
}

split_at-append : (n : ℕ) (t : Text) → (split_at n t).0 ++ (split_at n t).1 ≡ t
unfolding split_at
split_at-append zero t = refl
split_at-append (suc n) [] = refl
split_at-append (suc n) (c ∷ t) = ap (◌∷◌ c) (split_at-append (suc n - width c) t)

-- At a boundary the first part has the bytes that were asked for.
split_at-byte_len : (n : ℕ) (t : Text) → is_char_boundary t n ≡ true → byte_len (split_at n t).0 ≡ n
unfolding split_at is_char_boundary byte_len
split_at-byte_len zero t h = refl
split_at-byte_len (suc n) [] h = cc
split_at-byte_len (suc n) (c ∷ t) h = elim (Bool-cases (leb (width c) (suc n))) [
  | inl y ↦
      let rest = split_at-byte_len (suc n - width c) t (rw y at h) in
      let fits : width c ≤ suc n = leb_le (width c) (suc n) y in
      ap (λ z. width c + z) rest ∙ omega (arith, fits)
  | inr m ↦ absurd (no_boundary (rw m at h))
]
  where
    leb_le : (a b : ℕ) → leb a b ≡ true → a ≤ b
    leb_le a b e = ground (arith, e)

    no_boundary : false ≡ true → ⊥
    no_boundary e = cc

byte_len-append : (a b : Text) → byte_len (a ++ b) ≡ byte_len a + byte_len b
unfolding byte_len
byte_len-append [] b = omega arith
byte_len-append (c ∷ a) b = omega (arith, byte_len-append a b)

width_bounds : (c : ℕ) → (0 < width c) × (width c ≤ 4)
width_bounds c = ground arith

floor_from-bounds :
    (t : Text) (i : ℕ) → (is_char_boundary t (floor_from t i) ≡ true) × (floor_from t i ≤ i)
unfolding floor_from
floor_from-bounds t zero = (unfold is_char_boundary in refl, omega arith)
floor_from-bounds t (suc i) = ground (arith, floor_from-bounds t i)

-- Of any four places in a row, one is a boundary.
record Near (t : Text) (i : ℕ) : Type 0 where
  place : ℕ
  below : place ≤ i
  close : i < place + 4
  boundary : is_char_boundary t place ≡ true

boundary_behind :
    (c : ℕ) (t : Text) (j : ℕ)
    → is_char_boundary t j ≡ true
    → is_char_boundary (c ∷ t) (j + width c) ≡ true
unfolding is_char_boundary
boundary_behind c t j h =
    let (pos, few) = width_bounds c in
    let e : j + width c ≡ suc (j + width c - 1) = omega (arith, pos) in
    let back : suc (j + width c - 1) - width c ≡ j = omega (arith, pos) in
    let fits : leb (width c) (suc (j + width c - 1)) ≡ true = le_leb _ _ (omega (arith, pos)) in
    rw e (rw (fits, back) h)
  where
    le_leb : (a b : ℕ) → a ≤ b → leb a b ≡ true
    le_leb a b k = ground (arith, k)

near : (t : Text) (i : ℕ) → i ≤ byte_len t → Near t i
unfolding byte_len
near [] i h = record {
  place = 0;
  below = omega arith;
  close = omega (arith, h);
  boundary = unfold is_char_boundary in refl;
}
near (c ∷ t) i h = elim (Bool-cases (ltb i (width c))) [
  | inl y ↦ record {
    place = 0;
    below = omega arith;
    close = ground (arith, y, width_bounds c);
    boundary = unfold is_char_boundary in refl;
  }
  | inr n ↦
      let inside : width c ≤ i = ground (arith, n) in
      let rest = near t (i - width c) (omega (arith, h, inside)) in
      record {
        place = rest.place + width c;
        below = omega (arith, rest.below, inside);
        close = omega (arith, rest.close, inside);
        boundary = boundary_behind c t rest.place rest.boundary;
      }
]

-- No boundary is passed over.
floor_from-greatest :
    (t : Text) (i j : ℕ) → is_char_boundary t j ≡ true → j ≤ i → j ≤ floor_from t i
unfolding floor_from
floor_from-greatest t zero j h k = k
floor_from-greatest t (suc i) j h k = elim (Bool-cases (is_char_boundary t (suc i))) [
  | inl y ↦ rw y k
  | inr n ↦ rw n (floor_from-greatest t i j h (omega (arith, k, other n h)))
]
  where
    other : is_char_boundary t (suc i) ≡ false → is_char_boundary t j ≡ true → j ≢ suc i
    other n h e = cc

floor_char_boundary-lem :
    (t : Text) (i : ℕ)
    → i ≤ byte_len t
    → (is_char_boundary t (floor_char_boundary t i) ≡ true)
      × (floor_char_boundary t i ≤ i)
      × (i < floor_char_boundary t i + 4)
unfolding floor_char_boundary
floor_char_boundary-lem t i h =
    let e : min i (byte_len t) ≡ i = omega (arith, h) in
    let (b, k) = floor_from-bounds t i in
    let n = near t i h in
    let g = floor_from-greatest t i n.place n.boundary n.below in
    rw e (b, k, omega (arith, g, n.close))

-- A long output with the notice in its middle: what stays of its two ends.
pub record Cut (t note shown : Text) : Type 0 where
  pub head : Text
  pub behind : Text
  pub before : Text
  pub tail : Text
  pub is_head : t ≡ head ++ behind
  pub is_tail : t ≡ before ++ tail
  pub head_size : (byte_len head ≤ 14336) × (14336 < byte_len head + 4)
  pub tail_size : (2048 ≤ byte_len tail) × (byte_len tail < 2048 + 4)
  pub is_shown :
      shown
      ≡ head
        ++ (codes "\n... [output truncated: "
            ++ (decimal context_output_bytes
                ++ (codes " of "
                    ++ (decimal (byte_len t)
                        ++ (codes " bytes shown; " ++ (note ++ (codes "] ...\n" ++ tail)))))))

cut_middle-Cut :
    (t note : Text) → context_output_bytes < byte_len t → Cut t note (cut_middle t note)
unfolding cut_middle
cut_middle-Cut t note long =
    let head_end = floor_char_boundary t (context_output_bytes - context_tail_bytes) in
    let tail_start = floor_char_boundary t (byte_len t - context_tail_bytes) in
    let (hb, hl, hg) = floor_char_boundary-lem t 14336 (omega (arith, long)) in
    let (tb, tl, tg) = floor_char_boundary-lem t (byte_len t - 2048) (omega arith) in
    let head_len = split_at-byte_len head_end t hb in
    let before_len = split_at-byte_len tail_start t tb in
    let sum =
      ap byte_len (sym (split_at-append tail_start t))
      ∙ byte_len-append (split_at tail_start t).0 (split_at tail_start t).1 in
    record {
      head = (split_at head_end t).0;
      behind = (split_at head_end t).1;
      before = (split_at tail_start t).0;
      tail = (split_at tail_start t).1;
      is_head = sym (split_at-append head_end t);
      is_tail = sym (split_at-append tail_start t);
      head_size = (omega (arith, head_len, hl), omega (arith, head_len, hg));
      tail_size =
          (omega (arith, sum, before_len, tl, long), omega (arith, sum, before_len, tg, long));
      is_shown = refl;
    }

-- What is done with an output: it is shown whole and nothing is retained, or cut and retained.
pub data Shows (tool id t : Text) (ctx : ToolContext) (log : List Done) (r : List Done × Text)
    : Type 0 where
  shown_whole :
      (byte_len t ≤ context_output_bytes) ⊎ (text_eq tool (codes "read_tool_output") ≡ true)
      → r ≡ (log, t)
      → Shows tool id t ctx log r
  shown_cut :
      context_output_bytes < byte_len t
      → text_eq tool (codes "read_tool_output") ≡ false
      → r.0 ≡ (retain_output ctx.retention id t log).0
      → Cut t (retain_output ctx.retention id t log).1 r.1
      → Shows tool id t ctx log r

-- An output of at most 16384 bytes, and any of `read_tool_output`, is shown whole and nothing is
-- retained. Of any other the first 14336 bytes and the last 2048 are shown, up to three bytes so that
-- no character is cut, with a notice between them that says so and how the retention went.
pub bound_output-Shows :
    (tool id t : Text) (ctx : ToolContext) (log : List Done)
    → Shows tool id t ctx log (bound_output tool id t ctx log)
unfolding bound_output
bound_output-Shows tool id t ctx log = elim (Bool-cases (leb (byte_len t) context_output_bytes)) [
  | inl y ↦ rw y (shown_whole (inl (small y)) refl)
  | inr n ↦ elim (Bool-cases (text_eq tool (codes "read_tool_output"))) [
    | inl y ↦ rw (n, y) (shown_whole (inr y) refl)
    | inr m ↦ rw (n, m) (shown_cut (long n) m refl (cut_middle-Cut t _ (long n)))
  ]
]
  where
    small : leb (byte_len t) context_output_bytes ≡ true → byte_len t ≤ context_output_bytes
    small h = ground (arith, h)

    long : leb (byte_len t) context_output_bytes ≡ false → context_output_bytes < byte_len t
    long h = ground (arith, h)
