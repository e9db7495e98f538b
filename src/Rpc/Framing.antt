-- ===== src/Rpc/Framing.antt =====
-- crates/localpilot-rpc/src/framing.rs: records that end in a line feed, out of chunks of bytes.
use unshackled.Prelude.{
  ℕ, zero, suc, Option, none, some, List, [], ◌∷◌, ◌++◌, ◌==◌, if◌then◌else◌, length,
}
use unshackled.Text.Split.{strip_cr}
pub mod Frames
pub mod Chunks

abbrev pub Bytes : Type 0
Bytes = List ℕ

pub record LineFraming : Type 0 where
  pub buf : Bytes

abbrev pub empty : LineFraming
empty = record { buf = [] }

abbrev pub cons_first : ℕ → Option (Bytes × Bytes) → Option (Bytes × Bytes)
cons_first c none = none
cons_first c (some (a, b)) = some (c ∷ a, b)

-- The bytes before the first line feed, and those behind it.
unfoldable pub drain : Bytes → Option (Bytes × Bytes)
drain [] = none
drain (c ∷ s) = let later = cons_first c (drain s) in if c == b'\n' then some ([], s) else later

-- The loop of `push`, with fuel: the records and the bytes left over.
abbrev pub add_record : Bytes → List Bytes × Bytes → List Bytes × Bytes
add_record r (rs, left) = (strip_cr r ∷ rs, left)

abbrev pub next_record :
    Bytes → (Bytes → List Bytes × Bytes) → Option (Bytes × Bytes) → List Bytes × Bytes
next_record buf again none = ([], buf)
next_record buf again (some (taken, rest)) = add_record taken (again rest)

unfoldable pub drain_all : ℕ → Bytes → List Bytes × Bytes
drain_all zero buf = ([], buf)
drain_all (suc fuel) buf = next_record buf (drain_all fuel) (drain buf)

abbrev pub keep : List Bytes × Bytes → List Bytes × LineFraming
keep (rs, left) = (rs, record { buf = left })

-- A round takes at least one byte, so the length of the buffer is enough fuel.
unfoldable pub push : LineFraming → Bytes → List Bytes × LineFraming
push f bytes = let buf = f.buf ++ bytes in keep (drain_all (length buf) buf)

-- Two calls of `push`, with the records of both.
abbrev pub push_both : LineFraming → Bytes → Bytes → List Bytes × LineFraming
push_both f a b = let (records, g) = push f a in let (more, h) = push g b in (records ++ more, h)
