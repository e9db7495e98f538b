-- ===== src/Text/FilePath.antt =====
-- What `std::path::Path` makes of a POSIX path: its last name, the stem and the extension.
pub mod Laws
use unshackled.Prelude.{◌||◌, Option, none, some, [], ◌∷◌, ◌++◌, ◌==◌, if◌then◌else◌}
use unshackled.Text.{Text, text_eq, codes}
use unshackled.Text.Split.{is_empty}

-- The last name of the pieces between the slashes: an empty piece and `.` are no names, and `..`
-- has none. `last` is the result for the pieces before `cur`.
abbrev closes : Option Text → Text → Option Text
closes last cur =
    if is_empty cur || text_eq cur (codes ".")
    then last
    else if text_eq cur (codes "..")
    then none
    else some cur

file_name_from : Option Text → Text → Text → Option Text
file_name_from last cur [] = closes last cur
file_name_from last cur (c ∷ s) =
    let next = file_name_from (closes last cur) [] s in
    let longer = file_name_from last (cur ++ c ∷ []) s in if c == b'/' then next else longer

unfoldable pub file_name : Text → Option Text
unfolding file_name_from is_empty text_eq
file_name path = file_name_from none [] path

-- The parts of a name before and after its last dot.
split_last_dot : Text → Option (Text × Text)
split_last_dot [] = none
split_last_dot (c ∷ s) = elim (split_last_dot s) [
  | some (before, after) ↦ some (c ∷ before, after)
  | none ↦ if c == b'.' then some ([], s) else none
]

-- A name whose only dot is its first character has a stem and no extension.
abbrev stem_of : Text → Option (Text × Text) → Text
stem_of name none = name
stem_of name (some ([], after)) = name
stem_of name (some (c ∷ before, after)) = c ∷ before

abbrev extension_of : Option (Text × Text) → Option Text
extension_of none = none
extension_of (some ([], after)) = none
extension_of (some (c ∷ before, after)) = some after

unfoldable pub name_stem : Text → Text
unfolding split_last_dot
name_stem name = stem_of name (split_last_dot name)

unfoldable pub name_extension : Text → Option Text
unfolding split_last_dot
name_extension name = extension_of (split_last_dot name)
