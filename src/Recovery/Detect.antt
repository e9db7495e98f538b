-- ===== src/Recovery/Detect.antt =====
-- crates/localpilot-recovery/src/detect.rs: the detectors that scan a whole text.
use Prim.Native.Nat.{max}
use unshackled.Prelude.{
  ℕ, ◌+◌, Bool, true, false, not, ◌&&◌, ◌||◌, Option, none, some, List, [], ◌∷◌, leb, ◌==◌,
  if◌then◌else◌,
}
use unshackled.Text.{Text, codes, text_eq, starts_with, trim_start}
use unshackled.Text.Split.{is_empty, lines, split_whitespace}
pub mod Runs

pub data BadOutputKind : Type 0 where
  empty_turn repeated_token_loop slash_flood malformed_tool_call : BadOutputKind
  malformed_structured_output repeated_transient_error : BadOutputKind

abbrev pub slash_flood_threshold : ℕ
slash_flood_threshold = 8

abbrev pub slash_flood_in_code_threshold : ℕ
slash_flood_in_code_threshold = 40

abbrev pub repeated_token_threshold : ℕ
repeated_token_threshold = 10

abbrev pub is_punct_run_char : ℕ → Bool
is_punct_run_char c = c == b'/'

-- `previous == Some(c)`.
abbrev pub is_char : Option ℕ → ℕ → Bool
is_char none c = false
is_char (some p) c = p == c

-- The locals of the loop over a line's characters.
pub record Run : Type 0 where
  pub best : ℕ
  pub current : ℕ
  pub previous : Option ℕ

abbrev pub no_run : Run
no_run = record { best = 0; current = 0; previous = none }

abbrev pub next_run : Option ℕ → ℕ → ℕ → ℕ
next_run previous current c =
    if is_punct_run_char c && is_char previous c
    then current + 1
    else if is_punct_run_char c
    then 1
    else 0

unfoldable pub run_step : Run → ℕ → Run
run_step r c =
    let current = next_run r.previous r.current c in
    record { best = max r.best current; current = current; previous = some c }

unfoldable pub run_line : Run → Text → Run
run_line r [] = r
run_line r (c ∷ s) = run_line (run_step r c) s

unfoldable pub longest_repeat_run : Text → ℕ
longest_repeat_run line = (run_line no_run line).best

abbrev pub fence_mark : Text
fence_mark = codes "```"

unfoldable pub is_fence_line : Text → Bool
is_fence_line line = starts_with fence_mark (trim_start line)

-- The locals of the loop over a text's lines.
pub record Scan : Type 0 where
  pub in_fence : Bool
  pub max_outside : ℕ
  pub max_inside : ℕ

unfoldable pub scan_line : Scan → Text → Scan
scan_line s line =
    let run = longest_repeat_run line in
    if is_fence_line line
    then record s { in_fence = not s.in_fence }
    else if s.in_fence
    then record s { max_inside = max s.max_inside run }
    else record s { max_outside = max s.max_outside run }

unfoldable pub scan_lines : Scan → List Text → Scan
scan_lines s [] = s
scan_lines s (line ∷ ls) = scan_lines (scan_line s line) ls

abbrev pub no_scan : Scan
no_scan = record { in_fence = false; max_outside = 0; max_inside = 0 }

unfoldable pub max_punctuation_runs : Text → ℕ × ℕ
max_punctuation_runs text = let s = scan_lines no_scan (lines text) in (s.max_outside, s.max_inside)

unfoldable pub is_slash_flood : Text → Bool
unfolding max_punctuation_runs
is_slash_flood text =
    let (max_outside, max_inside) = max_punctuation_runs text in
    leb slash_flood_threshold max_outside || leb slash_flood_in_code_threshold max_inside

-- The locals of the loop over a text's tokens.
pub record Repeats : Type 0 where
  pub best : ℕ
  pub current : ℕ
  pub previous : Option Text

-- `previous == Some(token)`.
abbrev pub is_token : Option Text → Text → Bool
is_token none t = false
is_token (some p) t = text_eq p t

unfoldable pub token_step : Repeats → Text → Repeats
token_step r t =
    let current = if is_token r.previous t then r.current + 1 else 1 in
    record { best = max r.best current; current = current; previous = some t }

unfoldable pub count_tokens : Repeats → List Text → Repeats
count_tokens r [] = r
count_tokens r (t ∷ ts) = count_tokens (token_step r t) ts

abbrev pub no_repeats : Repeats
no_repeats = record { best = 0; current = 0; previous = none }

unfoldable pub is_repeated_token_loop : Text → Bool
is_repeated_token_loop text =
    leb repeated_token_threshold (count_tokens no_repeats (split_whitespace text)).best

-- `text.trim().is_empty()` holds when nothing is left at the start.
unfoldable pub detect : Text → Bool → Option BadOutputKind
unfolding is_empty trim_start
detect text has_tool_calls =
    if is_empty (trim_start text) && not has_tool_calls
    then some empty_turn
    else if is_slash_flood text
    then some slash_flood
    else if is_repeated_token_loop text
    then some repeated_token_loop
    else none
