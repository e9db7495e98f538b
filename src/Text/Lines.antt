-- ===== src/Text/Lines.antt =====
-- Texts made of lines, as `str::lines` and the replacement of line ends read them.
use unshackled.Prelude.{
  ◌≡◌, refl, ap, ◌∙◌, sym, Bool, true, not, ◌&&◌, List, [], ◌∷◌, ◌++◌, append_assoc, append-nil,
  arith, All, ◌==◌,
}
use unshackled.Text.{Text}
use unshackled.Text.Split.{lines, lines_from, strip_cr, replace_crlf}

-- No line feed, and no carriage return at the end.
unfoldable pub is_line : Text → Bool
is_line [] = true
is_line (c ∷ []) = not (c == b'\n') && not (c == b'\r')
is_line (c ∷ d ∷ s) = not (c == b'\n') && is_line (d ∷ s)

abbrev pub IsLine : Text → Type 0
IsLine l = is_line l ≡ true

unfoldable pub unlines : List Text → Text
unlines [] = []
unlines (l ∷ ls) = l ++ b'\n' ∷ unlines ls

pub IsLine-append : (a b : Text) → IsLine a → IsLine b → IsLine (a ++ b)
unfolding is_line
IsLine-append [] b ha hb = hb
IsLine-append (c ∷ []) [] ha hb = ha
IsLine-append (c ∷ []) (d ∷ b) ha hb = ground (arith, ha, hb)
IsLine-append (c ∷ d ∷ a) b ha hb = ground (arith, ha, IsLine-append (d ∷ a) b)

strip_cr-line : (l : Text) → IsLine l → strip_cr l ≡ l
unfolding is_line strip_cr
strip_cr-line [] h = refl
strip_cr-line (c ∷ []) h = ground (arith, h)
strip_cr-line (c ∷ d ∷ s) h = ground (arith, h, strip_cr-line (d ∷ s))

lines_from-line :
    (cur l s : Text) → IsLine l → lines_from cur (l ++ b'\n' ∷ s) ≡ strip_cr (cur ++ l) ∷ lines s
unfolding is_line lines_from
lines_from-line cur [] s h = ap (λ t. strip_cr t ∷ lines s) (sym (append-nil cur))
lines_from-line cur (c ∷ []) s h =
    ground (arith, h, lines_from-line (cur ++ c ∷ []) [] s, append-nil (cur ++ c ∷ []))
lines_from-line cur (c ∷ d ∷ l) s h =
    ground (arith, h, lines_from-line (cur ++ c ∷ []) (d ∷ l) s, append_assoc cur (c ∷ []) (d ∷ l))

-- The lines are read back.
pub lines-unlines : (ls : List Text) → All IsLine ls → lines (unlines ls) ≡ ls
unfolding unlines lines_from
lines-unlines [] h = refl
lines-unlines (l ∷ ls) (hl, h) =
    lines_from-line [] l (unlines ls) hl
    ∙ ap (λ t. t ∷ lines (unlines ls)) (strip_cr-line l hl)
    ∙ ap (◌∷◌ l) (lines-unlines ls h)

replace_crlf-feed : (s : Text) → replace_crlf (b'\n' ∷ s) ≡ b'\n' ∷ replace_crlf s
unfolding replace_crlf
replace_crlf-feed [] = refl
replace_crlf-feed (c ∷ s) = refl

replace_crlf-line :
    (l s : Text) → IsLine l → replace_crlf (l ++ b'\n' ∷ s) ≡ l ++ b'\n' ∷ replace_crlf s
unfolding is_line replace_crlf
replace_crlf-line [] s h = replace_crlf-feed s
replace_crlf-line (c ∷ []) s h = ground (arith, h, replace_crlf-feed s)
replace_crlf-line (c ∷ d ∷ l) s h = ground (arith, h, replace_crlf-line (d ∷ l) s)

-- There is no line end to replace.
pub replace_crlf-unlines : (ls : List Text) → All IsLine ls → replace_crlf (unlines ls) ≡ unlines ls
unfolding unlines replace_crlf
replace_crlf-unlines [] h = refl
replace_crlf-unlines (l ∷ ls) (hl, h) =
    replace_crlf-line l (unlines ls) hl ∙ ap (λ t. l ++ b'\n' ∷ t) (replace_crlf-unlines ls h)

pub unlines-append : (a b : List Text) → unlines (a ++ b) ≡ unlines a ++ unlines b
unfolding unlines
unlines-append [] b = refl
unlines-append (l ∷ a) b =
    ap (λ t. l ++ b'\n' ∷ t) (unlines-append a b)
    ∙ sym (append_assoc l (b'\n' ∷ unlines a) (unlines b))
