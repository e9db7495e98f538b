-- ===== src/Recovery/Monitor/Cuts.antt =====
-- A cut between the backticks that open a fence.
use Prim.Native.Nat.{max}
use unshackled.Prelude.{
  ◌≡◌, refl, ap, ◌∙◌, ◌≤◌, ◌<◌, Bool, true, false, ◌||◌, [], ◌∷◌, ◌++◌, append-nil, append_assoc,
  arith, leb, ◌==◌, if◌then◌else◌, not, all,
}
use unshackled.Text.{Text, codes, starts_with, trim_start, is_whitespace}
use unshackled.Text.Split.{is_empty, lines_from, lines, strip_cr}
use unshackled.Recovery.Detect.{
  longest_repeat_run, is_fence_line, is_slash_flood, scan_line, scan_lines, Scan, no_scan, run_line,
}
use unshackled.Recovery.Monitor.Lines.{Follows, push_chars-scan, runs_of, scan_of}
use unshackled.Recovery.Monitor.{
  StreamMonitor, fresh, push, push_all, push_char, push_chars, detected, open_runs,
}

abbrev pub is_one_line : Text → Bool
is_one_line = all λ c. not (c == b'\n')

lines_from_line :
    (cur s : Text)
    → is_one_line s ≡ true
    → lines_from cur s ≡ (if is_empty (cur ++ s) then [] else (cur ++ s) ∷ [])
unfolding lines_from
lines_from_line cur [] h = rw append-nil
lines_from_line cur (c ∷ s) h =
    ground (arith, lines_from_line (cur ++ c ∷ []) s, append_assoc cur (c ∷ []) s)

-- The monitor after the two chunks "`" and "``\n".
missed : StreamMonitor
unfolding push push_chars push_char
missed = push (push fresh (codes "`")) (codes "``\n")

missed-scan : scan_of missed ≡ no_scan
unfolding missed is_empty is_whitespace
missed-scan = refl

missed-Follows : Follows [] missed 0
unfolding missed run_line is_empty is_whitespace
missed-Follows = record { lead = refl; run = λ _. refl }

missed-push_all :
    (line : Text)
    → push_all fresh (codes "`" ∷ (codes "``\n" ++ line) ∷ []) ≡ (push_chars (missed, 0) line).0
unfolding missed push_all is_empty is_whitespace
missed-push_all line = refl

-- The scan of a single line that holds some slashes and toggles no fence.
missed-open_runs :
    (line : Text)
    → is_one_line line ≡ true
    → open_runs (push_chars (missed, 0) line).0
      ≡ runs_of (scan_lines no_scan (if is_empty line then [] else line ∷ []))
missed-open_runs line h =
    push_chars-scan line [] missed 0 missed-Follows
    ∙ ap (λ s. runs_of (scan_lines s (lines_from [] line))) missed-scan
    ∙ ap (λ ls. runs_of (scan_lines no_scan ls)) (lines_from_line [] line h)

long_line-is_empty : (line : Text) → 8 ≤ longest_repeat_run line → is_empty line ≡ false
unfolding longest_repeat_run run_line is_empty
long_line-is_empty [] h = absurd (omega arith)
long_line-is_empty (c ∷ s) h = refl

scan_line_outside :
    (line : Text)
    → is_fence_line line ≡ false
    → (scan_line no_scan line).max_outside ≡ max 0 (longest_repeat_run line)
unfolding scan_line
scan_line_outside line f = ground (arith, f)

abbrev in_block : Scan
in_block = record no_scan { in_fence = true }

fence-scan_line : scan_line no_scan (codes "```") ≡ in_block
unfolding scan_line is_fence_line trim_start starts_with is_whitespace
fence-scan_line = refl

fenced-lines :
    (line : Text)
    → is_one_line line ≡ true
    → is_empty line ≡ false
    → lines (codes "```\n" ++ line) ≡ codes "```" ∷ line ∷ []
unfolding lines_from strip_cr is_empty
fenced-lines line h n =
    ap (◌∷◌ (codes "```")) (lines_from_line [] line h ∙ ap (λ e. if e then [] else line ∷ []) n)

in_block-scan_line :
    (line : Text)
    → is_fence_line line ≡ false
    → scan_line in_block line ≡ record in_block { max_inside = max 0 (longest_repeat_run line) }
unfolding scan_line
in_block-scan_line line f = ground (arith, f)

fenced-is_slash_flood :
    (line : Text)
    → is_one_line line ≡ true
    → is_empty line ≡ false
    → is_fence_line line ≡ false
    → is_slash_flood (codes "```\n" ++ line) ≡ leb 40 (max 0 (longest_repeat_run line))
unfolding is_slash_flood scan_lines
fenced-is_slash_flood line h n f =
    ap (λ ls. let s = scan_lines no_scan ls in leb 8 s.max_outside || leb 40 s.max_inside)
      (fenced-lines line h n)
    ∙ ap (λ z. let s = scan_line z line in leb 8 s.max_outside || leb 40 s.max_inside)
        fence-scan_line
    ∙ ap (λ s. leb 8 s.max_outside || leb 40 s.max_inside) (in_block-scan_line line f)

missed-detected :
    (line : Text)
    → is_one_line line ≡ true
    → is_fence_line line ≡ false
    → 8 ≤ longest_repeat_run line
    → detected (push_chars (missed, 0) line).0 ≡ true
unfolding detected scan_lines
missed-detected line h f low =
    ground (arith, missed-open_runs line h, long_line-is_empty line, scan_line_outside line f)

-- A line of code with 8 to 39 slashes in a row, no fence line itself, in a block that is opened by
-- a fence: cut after the first backtick, the stream is reported, though the whole text is no flood.
pub missed_fence :
    (line : Text)
    → is_one_line line ≡ true
    → is_fence_line line ≡ false
    → 8 ≤ longest_repeat_run line
    → longest_repeat_run line < 40
    → (detected (push_all fresh (codes "`" ∷ (codes "``\n" ++ line) ∷ [])) ≡ true)
      × (is_slash_flood (codes "```\n" ++ line) ≡ false)
missed_fence line h f low high = (
  ap detected (missed-push_all line) ∙ missed-detected line h f low,
  fenced-is_slash_flood line h (long_line-is_empty line low) f ∙ ground arith,
)
