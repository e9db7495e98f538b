-- ===== src/Recovery/Monitor/Lines.antt =====
-- The half of the monitor that follows the lines, and the scan of a text's lines.
use unshackled.Prelude.{
  ℕ, ◌≡◌, refl, sym, ap, ◌∙◌, inl, inr, true, false, [], ◌∷◌, ◌++◌, arith, ◌==◌, Bool-cases,
}
use unshackled.Text.{Text}
use unshackled.Text.Split.{lines_from, strip_cr}
use unshackled.Recovery.Detect.{
  Run, no_run, run_step, run_line, longest_repeat_run, Scan, scan_line, scan_lines,
  max_punctuation_runs,
}
use unshackled.Recovery.Monitor.{
  LineLead, pending, fence, content, StreamMonitor, fresh, is_fence, close_token, close_line,
  lead_step, push_char, push_chars, open_runs,
}
use unshackled.Recovery.Monitor.Leads.{
  leads, leads-append, run_line-append, is_fence_line-leads, scan_line-strip_cr,
}

-- The monitor has read `cur` of the open line, with `ticks` in `backticks_pending`.
pub record Follows (cur : Text) (m : StreamMonitor) (ticks : ℕ) : Type 0 where
  pub lead : leads (pending, 0) cur ≡ (m.line_lead, ticks)
  pub run :
      is_fence m.line_lead ≡ false
      → run_line no_run cur
        ≡ record { best = m.line_max_run; current = m.run; previous = m.prev_char }

abbrev pub scan_of : StreamMonitor → Scan
scan_of m = record { in_fence = m.in_fence; max_outside = m.max_outside; max_inside = m.max_inside }

pub fresh-Follows : (m : StreamMonitor) → Follows [] (close_line m) 0
unfolding close_line close_token run_line
fresh-Follows m = record { lead = ground arith; run = λ _. ground arith }

close_line-scan :
    (cur : Text) (m : StreamMonitor) (ticks : ℕ)
    → Follows cur m ticks
    → scan_of (close_line m) ≡ scan_line (scan_of m) cur
unfolding close_line close_token scan_line longest_repeat_run
close_line-scan cur m ticks f = ground (arith, is_fence_line-leads cur)

push_char-scan :
    (m : StreamMonitor) (ticks c : ℕ)
    → (c == b'\n') ≡ false
    → scan_of (push_char (m, ticks) c).0 ≡ scan_of m
unfolding push_char
push_char-scan m ticks c n = ground arith

pub push_char-lead :
    (m : StreamMonitor) (ticks c : ℕ)
    → (c == b'\n') ≡ false
    → ((push_char (m, ticks) c).0.line_lead, (push_char (m, ticks) c).1)
      ≡ lead_step (m.line_lead, ticks) c
unfolding push_char
push_char-lead m ticks c n = ground arith

lead_step-fence :
    (lead : LineLead) (ticks c : ℕ)
    → is_fence (lead_step (lead, ticks) c).0 ≡ false
    → is_fence lead ≡ false
unfolding lead_step
lead_step-fence pending ticks c h = refl
lead_step-fence fence ticks c h = h
lead_step-fence content ticks c h = refl

abbrev run_of : StreamMonitor → Run
run_of m = record { best = m.line_max_run; current = m.run; previous = m.prev_char }

push_char-run :
    (m : StreamMonitor) (ticks c : ℕ)
    → (c == b'\n') ≡ false
    → is_fence (lead_step (m.line_lead, ticks) c).0 ≡ false
    → run_of (push_char (m, ticks) c).0 ≡ run_step (run_of m) c
unfolding push_char run_step
push_char-run m ticks c n f = ground arith

push_char-Follows :
    (cur : Text) (m : StreamMonitor) (ticks c : ℕ)
    → (c == b'\n') ≡ false
    → Follows cur m ticks
    → Follows (cur ++ c ∷ []) (push_char (m, ticks) c).0 (push_char (m, ticks) c).1
push_char-Follows cur m ticks c n f = record {
  lead =
      leads-append (pending, 0) cur c
      ∙ ap (λ s. lead_step s c) f.lead
      ∙ sym (push_char-lead m ticks c n);
  run = λ h.
      let open_lead = ap (λ s. is_fence s.0) (sym (push_char-lead m ticks c n)) ∙ h in
      run_line-append no_run cur c
      ∙ ap (λ r. run_step r c) (f.run (lead_step-fence m.line_lead ticks c open_lead))
      ∙ sym (push_char-run m ticks c n open_lead);
}

abbrev pub runs_of : Scan → ℕ × ℕ
runs_of s = (s.max_outside, s.max_inside)

-- The open line counts like a last line, also where it is empty.
open_runs-scan :
    (cur : Text) (m : StreamMonitor) (ticks : ℕ)
    → Follows cur m ticks
    → open_runs m ≡ runs_of (scan_lines (scan_of m) (lines_from cur []))
unfolding scan_lines scan_line lines_from run_line longest_repeat_run
open_runs-scan [] m ticks f = ground (arith, ap (λ s. s.0) f.lead)
open_runs-scan (c ∷ cur) m ticks f = ground (arith, is_fence_line-leads (c ∷ cur))

pub push_char_newline :
    (s : StreamMonitor × ℕ) (c : ℕ) → (c == b'\n') ≡ true → push_char s c ≡ (close_line s.0, 0)
unfolding push_char
push_char_newline (m, ticks) c e = ground arith

lines_from_newline :
    (cur : Text) (c : ℕ) (s : Text)
    → (c == b'\n') ≡ true
    → lines_from cur (c ∷ s) ≡ strip_cr cur ∷ lines_from [] s
unfolding lines_from
lines_from_newline cur c s e = rw e

lines_from_other :
    (cur : Text) (c : ℕ) (s : Text)
    → (c == b'\n') ≡ false
    → lines_from cur (c ∷ s) ≡ lines_from (cur ++ c ∷ []) s
unfolding lines_from
lines_from_other cur c s e = rw e

pub push_chars-scan :
    (s cur : Text) (m : StreamMonitor) (ticks : ℕ)
    → Follows cur m ticks
    → open_runs (push_chars (m, ticks) s).0 ≡ runs_of (scan_lines (scan_of m) (lines_from cur s))
unfolding push_chars scan_lines
push_chars-scan [] cur m ticks f = open_runs-scan cur m ticks f
push_chars-scan (c ∷ s) cur m ticks f = elim (Bool-cases (c == b'\n')) [
  | inl e ↦
      ap (λ z. open_runs (push_chars z s).0) (push_char_newline (m, ticks) c e)
      ∙ push_chars-scan s [] (close_line m) 0 (fresh-Follows m)
      ∙ ap (λ z. runs_of (scan_lines z (lines_from [] s)))
          (close_line-scan cur m ticks f ∙ sym (scan_line-strip_cr (scan_of m) cur))
      ∙ ap (λ ls. runs_of (scan_lines (scan_of m) ls)) (sym (lines_from_newline cur c s e))
  | inr n ↦
      push_chars-scan s (cur ++ c ∷ []) (push_char (m, ticks) c).0 (push_char (m, ticks) c).1
        (push_char-Follows cur m ticks c n f)
      ∙ ap (λ z. runs_of (scan_lines z (lines_from (cur ++ c ∷ []) s))) (push_char-scan m ticks c n)
      ∙ ap (λ ls. runs_of (scan_lines (scan_of m) ls)) (sym (lines_from_other cur c s n))
]

start-Follows : Follows [] fresh 0
unfolding run_line
start-Follows = record { lead = refl; run = λ _. refl }

-- A stream fed in one chunk has the runs that the scan of its lines finds.
pub push-max_punctuation_runs :
    (text : Text) → open_runs (push_chars (fresh, 0) text).0 ≡ max_punctuation_runs text
unfolding max_punctuation_runs
push-max_punctuation_runs text = push_chars-scan text [] fresh 0 start-Follows
