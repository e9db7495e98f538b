-- ===== src/Text/Ordered.antt =====
-- `BTreeSet<String>` and `BTreeMap<String, _>` as lists in ascending order. UTF-8 orders texts as their
-- code points do.
use unshackled.Prelude.{
  Bool, true, false, ◌&&◌, ◌||◌, Option, none, some, List, [], ◌∷◌, ltb, ◌==◌, if◌then◌else◌,
}
use unshackled.Text.{Text, text_eq}

unfoldable pub text_ltb : Text → Text → Bool
text_ltb [] [] = false
text_ltb [] (b ∷ t) = true
text_ltb (a ∷ s) [] = false
text_ltb (a ∷ s) (b ∷ t) = ltb a b || ((a == b) && text_ltb s t)

unfoldable pub set_insert : Text → List Text → List Text
unfolding text_ltb text_eq
set_insert t [] = t ∷ []
set_insert t (x ∷ xs) =
    let later = x ∷ set_insert t xs in
    if text_eq t x then x ∷ xs else if text_ltb t x then t ∷ x ∷ xs else later

unfoldable pub set_extend : List Text → List Text → List Text
unfolding set_insert
set_extend set [] = set
set_extend set (t ∷ ts) = set_extend (set_insert t set) ts

-- `entry(key).or_default()` with a change of the value; `init` is the default.
unfoldable pub map_update {ℓ} :
    {A : Type ℓ} → A → Text → (A → A) → List (Text × A) → List (Text × A)
unfolding text_ltb text_eq
map_update init key f [] = (key, f init) ∷ []
map_update init key f ((k, v) ∷ rest) =
    let later = (k, v) ∷ map_update init key f rest in
    if text_eq key k
    then (k, f v) ∷ rest
    else if text_ltb key k
    then (key, f init) ∷ (k, v) ∷ rest
    else later

unfoldable pub map_get {ℓ} : {A : Type ℓ} → Text → List (Text × A) → Option A
unfolding text_eq
map_get key [] = none
map_get key ((k, v) ∷ rest) = if text_eq k key then some v else map_get key rest
