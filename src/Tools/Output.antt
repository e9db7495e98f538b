-- ===== src/Tools/Output.antt =====
-- crates/localpilot-tools/src/registry.rs: the bound on an output, and its format.
use unshackled.Prelude.{
  ℕ, zero, suc, ◌-◌, ◌*◌, min, Bool, true, false, ◌&&◌, ◌||◌, Option, none, some, List, [], ◌∷◌,
  ◌++◌, leb, ◌==◌, if◌then◌else◌,
}
use unshackled.Text.{Text, codes, text_eq}
use unshackled.Text.Trim.{width}
use unshackled.Text.Decimal.{decimal}
use unshackled.Core.Summary.{has_none}
use unshackled.Harness.Compaction.Sizes.{byte_len}
use unshackled.Tools.{Done, retained, ToolContext, Retain}

abbrev pub context_output_bytes : ℕ
context_output_bytes = 16 * 1024

abbrev pub context_tail_bytes : ℕ
context_tail_bytes = 2 * 1024

-- `is_char_boundary`, of a number of bytes.
unfoldable pub is_char_boundary : Text → ℕ → Bool
is_char_boundary t zero = true
is_char_boundary [] (suc n) = false
is_char_boundary (c ∷ t) (suc n) =
    let rest = is_char_boundary t (suc n - width c) in if leb (width c) (suc n) then rest else false

-- The loop of `floor_char_boundary`.
unfoldable pub floor_from : Text → ℕ → ℕ
unfolding is_char_boundary
floor_from t zero = zero
floor_from t (suc i) =
    let lower = floor_from t i in if is_char_boundary t (suc i) then suc i else lower

unfoldable pub floor_char_boundary : Text → ℕ → ℕ
unfolding floor_from
floor_char_boundary t index = floor_from t (min index (byte_len t))

-- `&text[..n]` and `&text[n..]`, at a boundary.
unfoldable pub split_at : ℕ → Text → Text × Text
split_at zero t = ([], t)
split_at (suc n) [] = ([], [])
split_at (suc n) (c ∷ t) = let (a, b) = split_at (suc n - width c) t in (c ∷ a, b)

-- `is_ascii_alphanumeric`, or one of `.`, `_` and `-`.
unfoldable pub is_key_char : ℕ → Bool
is_key_char c =
    (leb b'0' c && leb c b'9')
    || (leb b'A' c && leb c b'Z')
    || (leb b'a' c && leb c b'z')
    || (c == b'.')
    || (c == b'_')
    || (c == b'-')

unfoldable pub key_chars : Text → Text
unfolding is_key_char
key_chars [] = []
key_chars (c ∷ t) = let rest = key_chars t in if is_key_char c then c ∷ rest else rest

unfoldable pub retention_key : Text → Text
unfolding key_chars
retention_key call_id =
    let cleaned = key_chars call_id in if has_none cleaned then codes "tool-output" else cleaned

abbrev pub retained_note : Text → Option Text → Text
retained_note key none =
    codes "full output retained under id " ++ (key ++ codes "; use read_tool_output to fetch it")
retained_note key (some reason) = codes "full output could not be retained: " ++ reason

unfoldable pub retain_output : Option Retain → Text → Text → List Done → List Done × Text
unfolding retention_key
retain_output none id t log = (log, codes "full output was not retained in this session")
retain_output (some retain) id t log =
    let key = retention_key id in (retained key t ∷ log, retained_note key (retain log key t))

unfoldable pub cut_middle : Text → Text → Text
unfolding floor_char_boundary split_at decimal byte_len
cut_middle t note =
    let head_end = floor_char_boundary t (context_output_bytes - context_tail_bytes) in
    let tail_start = floor_char_boundary t (byte_len t - context_tail_bytes) in
    (split_at head_end t).0
    ++ (codes "\n... [output truncated: "
        ++ (decimal context_output_bytes
            ++ (codes " of "
                ++ (decimal (byte_len t)
                    ++ (codes " bytes shown; "
                        ++ (note ++ (codes "] ...\n" ++ (split_at tail_start t).1)))))))

unfoldable pub bound_output : Text → Text → Text → ToolContext → List Done → List Done × Text
unfolding retain_output cut_middle byte_len
bound_output tool id t ctx log =
    let (later, note) = retain_output ctx.retention id t log in
    if leb (byte_len t) context_output_bytes || text_eq tool (codes "read_tool_output")
    then (log, t)
    else (later, cut_middle t note)

abbrev pub status : Bool → Text
status true = codes "error"
status false = codes "success"

unfoldable pub format_tool_output : Text → Text → Bool → Text
format_tool_output tool output is_error =
    codes "tool: "
    ++ (tool ++ (codes "\nstatus: " ++ (status is_error ++ (codes "\noutput:\n" ++ output))))
