-- ===== src/Text/Trim.antt =====
-- `str::trim` and its kin, `strip_prefix` and `ends_with`.
use mathlib.Core.List.{reverse}
use unshackled.Prelude.{
  ℕ, zero, suc, ◌-◌, Bool, Option, none, some, [], ◌∷◌, leb, ltb, ◌==◌, if◌then◌else◌,
}
use unshackled.Text.{Text, starts_with, trim_start}

unfoldable pub trim_end : Text → Text
unfolding trim_start
trim_end s = reverse (trim_start (reverse s))

abbrev pub trim : Text → Text
trim s = trim_end (trim_start s)

unfoldable pub strip_prefix : Text → Text → Option Text
strip_prefix [] s = some s
strip_prefix (p ∷ ps) [] = none
strip_prefix (p ∷ ps) (c ∷ s) = let rest = strip_prefix ps s in if p == c then rest else none

unfoldable pub ends_with : Text → Text → Bool
unfolding starts_with
ends_with suffix s = starts_with (reverse suffix) (reverse s)

-- `trim_start_matches` and `trim_matches` of a predicate on characters.
unfoldable pub trim_start_of : (ℕ → Bool) → Text → Text
trim_start_of p [] = []
trim_start_of p (c ∷ s) = let rest = trim_start_of p s in if p c then rest else c ∷ s

unfoldable pub trim_matches : (ℕ → Bool) → Text → Text
unfolding trim_start_of
trim_matches p s = reverse (trim_start_of p (reverse (trim_start_of p s)))

abbrev pub cons_part : ℕ → Option (Text × Text) → Option (Text × Text)
cons_part c none = none
cons_part c (some (a, b)) = some (c ∷ a, b)

abbrev pub empty_part : Option Text → Option (Text × Text)
empty_part none = none
empty_part (some rest) = some ([], rest)

abbrev pub or_part : Option (Text × Text) → Option (Text × Text) → Option (Text × Text)
or_part none other = other
or_part (some r) other = some r

-- `split_once(separator)`, for a separator that is not empty.
unfoldable pub split_once : Text → Text → Option (Text × Text)
unfolding strip_prefix
split_once sep [] = none
split_once sep (c ∷ s) =
    or_part (empty_part (strip_prefix sep (c ∷ s))) (cons_part c (split_once sep s))

-- Of a character, the number of its bytes in UTF-8.
abbrev pub width : ℕ → ℕ
width c = if ltb c 0x80 then 1 else if ltb c 0x800 then 2 else if ltb c 0x10000 then 3 else 4

-- `get(n..)`, by bytes: nothing if the text is shorter, or if a character is cut.
unfoldable pub get_from : ℕ → Text → Option Text
get_from zero s = some s
get_from (suc n) [] = none
get_from (suc n) (c ∷ s) =
    let rest = get_from (suc n - width c) s in if leb (width c) (suc n) then rest else none

abbrev pub turned : Option (Text × Text) → Option (Text × Text)
turned none = none
turned (some (a, b)) = some (reverse b, reverse a)

-- `rsplit_once(separator)`.
unfoldable pub rsplit_once : Text → Text → Option (Text × Text)
unfolding split_once
rsplit_once sep s = turned (split_once (reverse sep) (reverse s))
