-- ===== src/Text/Suffix.antt =====
-- `str::ends_with` by recursion on the text, and slices by characters.
use unshackled.Prelude.{ℕ, zero, suc, Bool, ◌||◌, [], ◌∷◌}
use unshackled.Text.{Text, text_eq}
use unshackled.Text.Split.{is_empty}

unfoldable pub is_suffix : Text → Text → Bool
unfolding text_eq is_empty
is_suffix p [] = is_empty p
is_suffix p (c ∷ s) = text_eq p (c ∷ s) || is_suffix p s

abbrev pub take : ℕ → Text → Text
take zero s = []
take (suc n) [] = []
take (suc n) (c ∷ s) = c ∷ take n s

abbrev pub drop : ℕ → Text → Text
drop zero s = s
drop (suc n) [] = []
drop (suc n) (c ∷ s) = drop n s
