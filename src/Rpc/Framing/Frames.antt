-- ===== src/Rpc/Framing/Frames.antt =====
-- What the framing gives back of the records that a peer writes.
use unshackled.Prelude.{
  ℕ, zero, suc, ◌≤◌, ◌≡◌, refl, ap, ◌∙◌, false, none, some, List, [], ◌∷◌, ◌++◌, map, append_assoc,
  ◌==◌, arith, length, length-append, All,
}
use unshackled.Text.Split.{strip_cr}
use unshackled.Rpc.Framing.{
  Bytes, LineFraming, drain, add_record, next_record, drain_all, keep, push,
}

-- Bytes without a line feed.
unfoldable pub IsRecord : Bytes → Type 0
IsRecord r = All (λ c. (c == b'\n') ≡ false) r

-- Each record with the line feed behind it.
unfoldable pub unlines : List Bytes → Bytes
unlines [] = []
unlines (r ∷ rs) = r ++ b'\n' ∷ unlines rs

drain-IsRecord : (r : Bytes) → IsRecord r → drain r ≡ none
unfolding drain IsRecord
drain-IsRecord [] h = refl
drain-IsRecord (c ∷ s) (h, t) = rw (h, drain-IsRecord s t) refl

drain-record : (r s : Bytes) → IsRecord r → drain (r ++ b'\n' ∷ s) ≡ some (r, s)
unfolding drain IsRecord
drain-record [] s h = refl
drain-record (c ∷ r) s (h, t) = rw (h, drain-record r s t) refl

drain_all-none : (fuel : ℕ) (b : Bytes) → drain b ≡ none → drain_all fuel b ≡ ([], b)
unfolding drain_all
drain_all-none zero b h = refl
drain_all-none (suc fuel) b h = ap (next_record b (drain_all fuel)) h

drain_all-some :
    (fuel : ℕ) (b a rest : Bytes)
    → drain b ≡ some (a, rest)
    → drain_all (suc fuel) b ≡ add_record a (drain_all fuel rest)
unfolding drain_all
drain_all-some fuel b a rest h = ap (next_record b (drain_all fuel)) h

shorter : (fuel : ℕ) (r s : Bytes) → length (r ++ b'\n' ∷ s) ≤ suc fuel → length s ≤ fuel
shorter fuel r s l = omega (arith, l, length-append r (b'\n' ∷ s))

drain_all-unlines :
    (fuel : ℕ) (rs : List Bytes) (t : Bytes)
    → All IsRecord rs
    → IsRecord t
    → length (unlines rs ++ t) ≤ fuel
    → drain_all fuel (unlines rs ++ t) ≡ (map strip_cr rs, t)
unfolding unlines
drain_all-unlines fuel [] t hs h l = drain_all-none fuel t (drain-IsRecord t h)
drain_all-unlines zero (r ∷ rs) t hs h l =
    ground
      (arith, l, append_assoc r (b'\n' ∷ unlines rs) t, length-append r (b'\n' ∷ unlines rs ++ t))
drain_all-unlines (suc fuel) (r ∷ rs) t (hr, hs) h l =
    let s = unlines rs ++ t in
    let split = append_assoc r (b'\n' ∷ unlines rs) t in
    rw split (
      drain_all-some fuel (r ++ b'\n' ∷ s) r s (drain-record r s hr)
      ∙ ap (add_record r) (drain_all-unlines fuel rs t hs h (shorter fuel r s (rw split at l))))

-- If the buffer and a chunk behind it are records without a line feed, each followed by one, and a
-- rest without one, then `push` gives the records in order, each without a carriage return at its
-- end, and the buffer then holds the rest.
pub push-unlines :
    (f : LineFraming) (bytes : Bytes) (rs : List Bytes) (t : Bytes)
    → All IsRecord rs
    → IsRecord t
    → f.buf ++ bytes ≡ unlines rs ++ t
    → push f bytes ≡ (map strip_cr rs, record { buf = t })
unfolding push
push-unlines f bytes rs t hs h e =
    rw e (ap keep (drain_all-unlines (length (unlines rs ++ t)) rs t hs h (omega arith)))
