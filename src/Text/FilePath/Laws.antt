-- ===== src/Text/FilePath/Laws.antt =====
-- The last name of a path under a change of ASCII case, and behind a directory.
use mathlib.Core.List.{map-append}
use unshackled.Prelude.{
  ℕ, ◌≡◌, refl, sym, ap, ◌∙◌, true, false, not, ◌||◌, Option, none, some, [], ◌∷◌, ◌++◌,
  append_assoc, append-nil, arith, ◌==◌, if◌then◌else◌, Bool-cases, all, inl, inr,
}
use unshackled.Text.{Text, codes, text_eq, lower, lower_char}
use unshackled.Text.Split.{is_empty}
use unshackled.Text.FilePath.{closes, file_name_from, file_name, split_last_dot, stem_of, name_stem}

abbrev pub lower_option : Option Text → Option Text
lower_option none = none
lower_option (some s) = some (lower s)

lower_char-slash : (c : ℕ) → (lower_char c == b'/') ≡ (c == b'/')
unfolding lower_char
lower_char-slash c = ground arith

lower_char-dot : (c : ℕ) → (lower_char c == b'.') ≡ (c == b'.')
unfolding lower_char
lower_char-dot c = ground arith

is_empty-lower : (s : Text) → is_empty (lower s) ≡ is_empty s
unfolding is_empty
is_empty-lower [] = refl
is_empty-lower (c ∷ s) = refl

text_eq-lower_dot : (s : Text) → text_eq (lower s) (codes ".") ≡ text_eq s (codes ".")
unfolding text_eq
text_eq-lower_dot [] = refl
text_eq-lower_dot (c ∷ []) = ground (arith, lower_char-dot c)
text_eq-lower_dot (c ∷ d ∷ s) = ground arith

text_eq-lower_dots : (s : Text) → text_eq (lower s) (codes "..") ≡ text_eq s (codes "..")
unfolding text_eq
text_eq-lower_dots [] = refl
text_eq-lower_dots (c ∷ []) = ground arith
text_eq-lower_dots (c ∷ d ∷ []) = ground (arith, lower_char-dot c, lower_char-dot d)
text_eq-lower_dots (c ∷ d ∷ e ∷ s) = ground arith

closes-lower :
    (last : Option Text) (cur : Text)
    → closes (lower_option last) (lower cur) ≡ lower_option (closes last cur)
closes-lower last cur =
    ground (arith, is_empty-lower cur, text_eq-lower_dot cur, text_eq-lower_dots cur)

file_name_from_slash :
    (last : Option Text) (cur : Text) (c : ℕ) (s : Text)
    → (c == b'/') ≡ true
    → file_name_from last cur (c ∷ s) ≡ file_name_from (closes last cur) [] s
unfolding file_name_from
file_name_from_slash last cur c s e = rw e

file_name_from_other :
    (last : Option Text) (cur : Text) (c : ℕ) (s : Text)
    → (c == b'/') ≡ false
    → file_name_from last cur (c ∷ s) ≡ file_name_from last (cur ++ c ∷ []) s
unfolding file_name_from
file_name_from_other last cur c s e = rw e

file_name_from-lower :
    (s : Text) (last : Option Text) (cur : Text)
    → file_name_from (lower_option last) (lower cur) (lower s)
      ≡ lower_option (file_name_from last cur s)
file_name_from-lower [] last cur = unfold file_name_from in closes-lower last cur
file_name_from-lower (c ∷ s) last cur = elim (Bool-cases (c == b'/')) [
  | inl e ↦
      file_name_from_slash (lower_option last) (lower cur) (lower_char c) (lower s)
        (lower_char-slash c ∙ e)
      ∙ ap (λ l. file_name_from l [] (lower s)) (closes-lower last cur)
      ∙ file_name_from-lower s (closes last cur) []
      ∙ ap lower_option (sym (file_name_from_slash last cur c s e))
  | inr n ↦
      file_name_from_other (lower_option last) (lower cur) (lower_char c) (lower s)
        (lower_char-slash c ∙ n)
      ∙ ap (λ x. file_name_from (lower_option last) x (lower s))
          (sym (map-append lower_char cur (c ∷ [])))
      ∙ file_name_from-lower s last (cur ++ c ∷ [])
      ∙ ap lower_option (sym (file_name_from_other last cur c s n))
]

pub file_name-lower : (path : Text) → file_name (lower path) ≡ lower_option (file_name path)
unfolding file_name
file_name-lower path = file_name_from-lower path none []

abbrev lower_split : Option (Text × Text) → Option (Text × Text)
lower_split none = none
lower_split (some (a, b)) = some (lower a, lower b)

dot_split : ℕ → Text → Option (Text × Text) → Option (Text × Text)
dot_split c s (some (before, after)) = some (c ∷ before, after)
dot_split c s none = if c == b'.' then some ([], s) else none

split_last_dot-cons : (c : ℕ) (s : Text) → split_last_dot (c ∷ s) ≡ dot_split c s (split_last_dot s)
unfolding split_last_dot dot_split
split_last_dot-cons c s = ground arith

dot_split-lower :
    (c : ℕ) (s : Text) (o : Option (Text × Text))
    → dot_split (lower_char c) (lower s) (lower_split o) ≡ lower_split (dot_split c s o)
unfolding dot_split
dot_split-lower c s none = ground (arith, lower_char-dot c)
dot_split-lower c s (some (a, b)) = refl

split_last_dot-lower : (s : Text) → split_last_dot (lower s) ≡ lower_split (split_last_dot s)
split_last_dot-lower [] = unfold split_last_dot in refl
split_last_dot-lower (c ∷ s) =
    split_last_dot-cons (lower_char c) (lower s)
    ∙ ap (dot_split (lower_char c) (lower s)) (split_last_dot-lower s)
    ∙ dot_split-lower c s (split_last_dot s)
    ∙ ap lower_split (sym (split_last_dot-cons c s))

stem_of-lower :
    (s : Text) (o : Option (Text × Text)) → stem_of (lower s) (lower_split o) ≡ lower (stem_of s o)
stem_of-lower s none = refl
stem_of-lower s (some ([], b)) = refl
stem_of-lower s (some (c ∷ a, b)) = refl

pub name_stem-lower : (name : Text) → name_stem (lower name) ≡ lower (name_stem name)
unfolding name_stem
name_stem-lower name =
    ap (stem_of (lower name)) (split_last_dot-lower name) ∙ stem_of-lower name (split_last_dot name)

file_name_from_behind :
    (dir : Text) (last : Option Text) (cur s : Text)
    → (l : Option Text) × (file_name_from last cur (dir ++ b'/' ∷ s) ≡ file_name_from l [] s)
file_name_from_behind [] last cur s = (closes last cur, file_name_from_slash last cur b'/' s refl)
file_name_from_behind (c ∷ dir) last cur s = elim (Bool-cases (c == b'/')) [
  | inl e ↦
      let (l, p) = file_name_from_behind dir (closes last cur) [] s in
      (l, file_name_from_slash last cur c (dir ++ b'/' ∷ s) e ∙ p)
  | inr n ↦
      let (l, p) = file_name_from_behind dir last (cur ++ c ∷ []) s in
      (l, file_name_from_other last cur c (dir ++ b'/' ∷ s) n ∙ p)
]

-- A name without slashes that is not empty, `.` or `..`.
pub record IsName (name : Text) : Type 0 where
  pub one_piece : all (λ c. not (c == b'/')) name ≡ true
  pub proper : (is_empty name || text_eq name (codes ".") || text_eq name (codes "..")) ≡ false

file_name_from_piece :
    (s : Text) (last : Option Text) (cur : Text)
    → all (λ c. not (c == b'/')) s ≡ true
    → file_name_from last cur s ≡ closes last (cur ++ s)
unfolding file_name_from
file_name_from_piece [] last cur h = rw append-nil
file_name_from_piece (c ∷ s) last cur h =
    file_name_from_other last cur c s (ground arith)
    ∙ file_name_from_piece s last (cur ++ c ∷ []) (ground arith)
    ∙ ap (closes last) (append_assoc cur (c ∷ []) s)

closes-IsName : (last : Option Text) (name : Text) → IsName name → closes last name ≡ some name
closes-IsName last name v = ground (arith, v.proper)

pub file_name-IsName : (name : Text) → IsName name → file_name name ≡ some name
unfolding file_name
file_name-IsName name v = file_name_from_piece name none [] v.one_piece ∙ closes-IsName none name v

-- The directory that a path begins with does not change its last name.
pub file_name-dir : (dir name : Text) → IsName name → file_name (dir ++ b'/' ∷ name) ≡ some name
unfolding file_name
file_name-dir dir name v =
    let (l, p) = file_name_from_behind dir none [] name in
    p ∙ file_name_from_piece name l [] v.one_piece ∙ closes-IsName l name v
