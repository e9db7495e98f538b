-- ===== src/Recovery/Monitor.antt =====
-- crates/localpilot-recovery/src/detect.rs: `StreamMonitor`, the detector that is fed the stream
-- chunk by chunk.
use Prim.Native.Nat.{max}
use unshackled.Prelude.{
  ℕ, ◌+◌, Bool, true, false, not, ◌&&◌, ◌||◌, Option, none, some, List, [], ◌∷◌, ◌++◌, leb, ◌==◌,
  if◌then◌else◌,
}
use unshackled.Text.{Text, text_eq, is_whitespace}
use unshackled.Text.Split.{is_empty}
use unshackled.Recovery.Detect.{
  is_punct_run_char, is_char, next_run, slash_flood_threshold, slash_flood_in_code_threshold,
  repeated_token_threshold,
}
pub mod Leads
pub mod Lines
pub mod Tokens
pub mod Equivalence
pub mod Chunks
pub mod Cuts

pub data LineLead : Type 0 where
  pending fence content : LineLead

pub record StreamMonitor : Type 0 where
  pub in_fence : Bool
  pub line_lead : LineLead
  pub prev_char : Option ℕ
  pub run : ℕ
  pub line_max_run : ℕ
  pub max_outside : ℕ
  pub max_inside : ℕ
  pub prev_token : Text
  pub token : Text
  pub repeat : ℕ
  pub max_repeat : ℕ

abbrev pub fresh : StreamMonitor
fresh = record {
  in_fence = false;
  line_lead = pending;
  prev_char = none;
  run = 0;
  line_max_run = 0;
  max_outside = 0;
  max_inside = 0;
  prev_token = [];
  token = [];
  repeat = 0;
  max_repeat = 0;
}

abbrev pub is_fence : LineLead → Bool
is_fence fence = true
is_fence _ = false

-- After the swap `prev_token` is the closed token, and `token` is cleared.
unfoldable pub close_token : StreamMonitor → StreamMonitor
close_token m =
    let repeat = if text_eq m.token m.prev_token then m.repeat + 1 else 1 in
    if is_empty m.token then m else record m {
      repeat = repeat;
      max_repeat = max m.max_repeat repeat;
      prev_token = m.token;
      token = [];
    }

-- The fold of the open line into the totals, by the first branch of `close_line`.
abbrev pub fold_line : StreamMonitor → StreamMonitor
fold_line m =
    if is_fence m.line_lead
    then record m { in_fence = not m.in_fence }
    else if m.in_fence
    then record m { max_inside = max m.max_inside m.line_max_run }
    else record m { max_outside = max m.max_outside m.line_max_run }

unfoldable pub close_line : StreamMonitor → StreamMonitor
close_line m =
    close_token
      (record (fold_line m) { line_lead = pending; prev_char = none; run = 0; line_max_run = 0 })

-- The lead of the line and `backticks_pending` after one more character.
unfoldable pub lead_step : LineLead × ℕ → ℕ → LineLead × ℕ
lead_step (pending, ticks) c =
    if c == b'`'
    then (if ticks + 1 == 3 then fence else pending, ticks + 1)
    else if is_whitespace c && (ticks == 0)
    then (pending, ticks)
    else (content, ticks)
lead_step (lead, ticks) c = (lead, ticks)

unfoldable pub track_run : StreamMonitor → ℕ → StreamMonitor
track_run m c =
    let run = next_run m.prev_char m.run c in
    if is_fence m.line_lead
    then m
    else record m { run = run; line_max_run = max m.line_max_run run }

unfoldable pub track_token : StreamMonitor → ℕ → StreamMonitor
track_token m c = if is_whitespace c then close_token m else record m { token = m.token ++ c ∷ [] }

-- One character of the loop, with the local `backticks_pending`.
unfoldable pub push_char : StreamMonitor × ℕ → ℕ → StreamMonitor × ℕ
unfolding lead_step track_run track_token close_line close_token
push_char (m, ticks) c =
    let (lead, ticks') = lead_step (m.line_lead, ticks) c in
    let tracked = track_run (record m { line_lead = lead }) c in
    if c == b'\n'
    then (close_line m, 0)
    else (track_token (record tracked { prev_char = some c }) c, ticks')

unfoldable pub push_chars : StreamMonitor × ℕ → Text → StreamMonitor × ℕ
push_chars s [] = s
push_chars s (c ∷ cs) = push_chars (push_char s c) cs

-- `backticks_pending` starts at 0 in every call.
unfoldable pub push : StreamMonitor → Text → StreamMonitor
push m delta = (push_chars (m, 0) delta).0

unfoldable pub push_all : StreamMonitor → List Text → StreamMonitor
push_all m [] = m
push_all m (d ∷ ds) = push_all (push m d) ds

-- The runs with the open line counted.
abbrev pub open_runs : StreamMonitor → ℕ × ℕ
open_runs m =
    if is_fence m.line_lead
    then (m.max_outside, m.max_inside)
    else if m.in_fence
    then (m.max_outside, max m.max_inside m.line_max_run)
    else (max m.max_outside m.line_max_run, m.max_inside)

-- The repeats with the open token counted.
abbrev pub open_repeat : StreamMonitor → ℕ
open_repeat m =
    if is_empty m.token
    then m.max_repeat
    else if text_eq m.token m.prev_token
    then max m.max_repeat (m.repeat + 1)
    else max m.max_repeat 1

unfoldable pub detected : StreamMonitor → Bool
detected m =
    let (outside, inside) = open_runs m in
    leb slash_flood_threshold outside
    || leb slash_flood_in_code_threshold inside
    || leb repeated_token_threshold (open_repeat m)
