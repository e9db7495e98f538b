-- ===== src/Text/Split.antt =====
-- `str::lines`, `str::split_whitespace` and the replacement of line ends.
use unshackled.Prelude.{Bool, true, false, ◌&&◌, List, [], ◌∷◌, ◌++◌, ◌==◌, if◌then◌else◌}
use unshackled.Text.{Text, is_whitespace}

unfoldable pub is_empty : Text → Bool
is_empty [] = true
is_empty (c ∷ s) = false

-- Of a line that ended in `\n`: without one trailing `\r`.
unfoldable pub strip_cr : Text → Text
strip_cr [] = []
strip_cr (c ∷ []) = if c == b'\r' then [] else c ∷ []
strip_cr (c ∷ d ∷ s) = c ∷ strip_cr (d ∷ s)

-- `cur` is the part of the open line that has been read.
unfoldable pub lines_from : Text → Text → List Text
unfolding is_empty strip_cr
lines_from cur [] = if is_empty cur then [] else cur ∷ []
lines_from cur (c ∷ s) =
    let closed = lines_from [] s in
    let longer = lines_from (cur ++ c ∷ []) s in
    if c == b'\n' then strip_cr cur ∷ closed else longer

abbrev pub lines : Text → List Text
lines = lines_from []

-- `cur` is the part of the open token that has been read.
unfoldable pub tokens_from : Text → Text → List Text
unfolding is_empty
tokens_from cur [] = if is_empty cur then [] else cur ∷ []
tokens_from cur (c ∷ s) =
    let closed = tokens_from [] s in
    let longer = tokens_from (cur ++ c ∷ []) s in
    if is_whitespace c then (if is_empty cur then closed else cur ∷ closed) else longer

abbrev pub split_whitespace : Text → List Text
split_whitespace = tokens_from []

-- `replace("\r\n", "\n")`.
unfoldable pub replace_crlf : Text → Text
replace_crlf [] = []
replace_crlf (c ∷ []) = c ∷ []
replace_crlf (c ∷ d ∷ s) =
    let rest = replace_crlf (d ∷ s) in if (c == b'\r') && (d == b'\n') then rest else c ∷ rest
