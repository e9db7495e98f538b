-- ===== src/Rpc/Framing/Chunks.antt =====
-- A stream of records that is cut into chunks.
use unshackled.Prelude.{
  ℕ, ◌≡◌, refl, sym, ap, ◌∙◌, inl, inr, false, List, [], ◌∷◌, ◌++◌, map, append_assoc, ◌==◌,
  Bool-cases, arith, All, All-append,
}
use unshackled.Text.Split.{strip_cr}
use unshackled.Rpc.Framing.{Bytes, LineFraming, push, push_both}
use unshackled.Rpc.Framing.Frames.{IsRecord, unlines, push-unlines}

-- Bytes as records with a line feed behind each, and a rest without one.
record Lined (b : Bytes) : Type 0 where
  raw : List Bytes
  rest : Bytes
  raw_records : All IsRecord raw
  rest_record : IsRecord rest
  same : b ≡ unlines raw ++ rest

add_feed : (s : Bytes) → Lined s → Lined (b'\n' ∷ s)
unfolding unlines IsRecord
add_feed s v = record {
  raw = [] ∷ v.raw;
  rest = v.rest;
  raw_records = (tt, v.raw_records);
  rest_record = v.rest_record;
  same = ap (◌∷◌ b'\n') v.same;
}

add_byte : (c : ℕ) (s : Bytes) → (c == b'\n') ≡ false → Lined s → Lined (c ∷ s)
unfolding unlines IsRecord
add_byte c s n v = grow v.raw v.rest v.raw_records v.rest_record v.same
  where
    grow :
        (raw : List Bytes) (rest : Bytes)
        → All IsRecord raw
        → IsRecord rest
        → s ≡ unlines raw ++ rest
        → Lined (c ∷ s)
    grow [] rest hs h e = record {
      raw = [];
      rest = c ∷ rest;
      raw_records = tt;
      rest_record = (n, h);
      same = ap (◌∷◌ c) e;
    }
    grow (r ∷ rs) rest (hr, hs) h e = record {
      raw = (c ∷ r) ∷ rs;
      rest = rest;
      raw_records = ((n, hr), hs);
      rest_record = h;
      same = ap (◌∷◌ c) e;
    }

lined : (b : Bytes) → Lined b
unfolding unlines IsRecord
lined [] = record { raw = []; rest = []; raw_records = tt; rest_record = tt; same = refl }
lined (c ∷ s) = elim (Bool-cases (c == b'\n')) [
  | inl y ↦ let same : c ≡ b'\n' = ground (arith, y) in rw same (add_feed s (lined s))
  | inr n ↦ add_byte c s n (lined s)
]

unlines-append : (rs qs : List Bytes) → unlines (rs ++ qs) ≡ unlines rs ++ unlines qs
unfolding unlines
unlines-append [] qs = refl
unlines-append (r ∷ rs) qs =
    ap (λ z. r ++ b'\n' ∷ z) (unlines-append rs qs)
    ∙ sym (append_assoc r (b'\n' ∷ unlines rs) (unlines qs))

map-append : (rs qs : List Bytes) → map strip_cr (rs ++ qs) ≡ map strip_cr rs ++ map strip_cr qs
map-append [] qs = refl
map-append (r ∷ rs) qs = ap (◌∷◌ (strip_cr r)) (map-append rs qs)

-- The buffer and both parts, as records and a rest.
both :
    (f : LineFraming) (a b : Bytes) (v : Lined (f.buf ++ a)) (w : Lined (v.rest ++ b))
    → f.buf ++ (a ++ b) ≡ unlines (v.raw ++ w.raw) ++ w.rest
both f a b v w =
    sym (append_assoc f.buf a b)
    ∙ ap (λ z. z ++ b) v.same
    ∙ append_assoc (unlines v.raw) v.rest b
    ∙ ap (λ z. unlines v.raw ++ z) w.same
    ∙ sym (append_assoc (unlines v.raw) (unlines w.raw) w.rest)
    ∙ ap (λ z. z ++ w.rest) (sym (unlines-append v.raw w.raw))

-- A chunk gives the records and leaves the buffer that its two parts give, wherever it is cut.
pub push-append : (f : LineFraming) (a b : Bytes) → push f (a ++ b) ≡ push_both f a b
push-append f a b =
    let v = lined (f.buf ++ a) in
    let w = lined (v.rest ++ b) in
    let first = push-unlines f a v.raw v.rest v.raw_records v.rest_record v.same in
    let second =
      push-unlines (record { buf = v.rest }) b w.raw w.rest w.raw_records w.rest_record w.same in
    let whole =
      push-unlines f (a ++ b) (v.raw ++ w.raw) w.rest
        (All-append IsRecord v.raw w.raw v.raw_records w.raw_records) w.rest_record
        (both f a b v w) in
    whole ∙ rw (first, second) (ap (λ z. (z, record { buf = w.rest })) (map-append v.raw w.raw))
