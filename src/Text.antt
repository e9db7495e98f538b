-- ===== src/Text.antt =====
-- Rust's `str` as its list of code points, with the methods of the standard library that the
-- program calls on it.
use Prim.Native.Char.{code}
use Prim.Native.String.{String}
use unshackled.Prelude.{
  ℕ, ◌+◌, ◌≡◌, refl, ap, ◌↔◌, Bool, true, false, not, ◌&&◌, ◌||◌, List, [], ◌∷◌, ◌++◌, map, arith,
  leb, ◌==◌, if◌then◌else◌, ==_iff, Bool-cases, all, any,
}
pub mod Laws
pub mod Split
pub mod FilePath
pub mod Trim
pub mod Decimal
pub mod Ordered
pub mod Lines
pub mod Fields
pub mod Suffix

abbrev pub Text : Type 0
Text = List ℕ

-- The code points of a literal.
abbrev pub codes : String → Text
codes String.[] = []
codes (String.◌∷◌ c s) = code c ∷ codes s

unfoldable pub text_eq : Text → Text → Bool
text_eq [] [] = true
text_eq (a ∷ s) (b ∷ t) = (a == b) && text_eq s t
text_eq _ _ = false

-- `matches!(s, "a" | "b" | …)` and `[…].contains(&s)`.
unfoldable pub one_of : Text → List Text → Bool
one_of s [] = false
one_of s (x ∷ xs) = text_eq s x || one_of s xs

-- `to_ascii_lowercase` on one character.
unfoldable pub lower_char : ℕ → ℕ
lower_char c = if leb b'A' c && leb c b'Z' then c + 32 else c

abbrev pub lower : Text → Text
lower = map lower_char

unfoldable pub starts_with : Text → Text → Bool
starts_with [] s = true
starts_with (p ∷ ps) [] = false
starts_with (p ∷ ps) (c ∷ s) = (p == c) && starts_with ps s

-- `s.contains(needle)`.
unfoldable pub contains : Text → Text → Bool
unfolding starts_with
contains needle [] = starts_with needle []
contains needle (c ∷ s) = starts_with needle (c ∷ s) || contains needle s

-- `args.join(" ")`.
unfoldable pub join : List Text → Text
join [] = []
join (x ∷ []) = x
join (x ∷ y ∷ xs) = x ++ b' ' ∷ join (y ∷ xs)

-- `strings.join(separator)`.
unfoldable pub join_with : Text → List Text → Text
join_with sep [] = []
join_with sep (x ∷ []) = x
join_with sep (x ∷ y ∷ xs) = x ++ (sep ++ join_with sep (y ∷ xs))

-- `char::is_whitespace`: the characters with the Unicode property White_Space.
unfoldable pub is_whitespace : ℕ → Bool
is_whitespace c =
    (leb 0x9 c && leb c 0xd)
    || (c == 0x20)
    || (c == 0x85)
    || (c == 0xa0)
    || (c == 0x1680)
    || (leb 0x2000 c && leb c 0x200a)
    || (c == 0x2028)
    || (c == 0x2029)
    || (c == 0x202f)
    || (c == 0x205f)
    || (c == 0x3000)

unfoldable pub trim_start : Text → Text
trim_start [] = []
trim_start (c ∷ s) = if is_whitespace c then trim_start s else c ∷ s
