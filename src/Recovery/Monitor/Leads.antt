-- ===== src/Recovery/Monitor/Leads.antt =====
-- How a line begins and ends: the fence mark at its start, and the carriage return at its end.
use unshackled.Prelude.{
  ℕ, ◌≡◌, refl, sym, ap, ◌∙◌, ◌⊎◌, inl, inr, false, [], ◌∷◌, ◌++◌, arith, ◌==◌, Bool-cases, ==_iff,
}
use unshackled.Text.{Text, codes, starts_with, trim_start, is_whitespace}
use unshackled.Text.Split.{strip_cr}
use unshackled.Recovery.Detect.{
  Run, no_run, run_step, run_line, longest_repeat_run, is_fence_line, Scan, scan_line,
}
use unshackled.Recovery.Monitor.{LineLead, pending, fence, content, is_fence, lead_step}

abbrev pub leads : LineLead × ℕ → Text → LineLead × ℕ
leads s [] = s
leads s (c ∷ cs) = leads (lead_step s c) cs

pub leads-append :
    (s : LineLead × ℕ) (l : Text) (c : ℕ) → leads s (l ++ c ∷ []) ≡ lead_step (leads s l) c
leads-append s [] c = refl
leads-append s (d ∷ l) c = leads-append (lead_step s d) l c

pub run_line-append :
    (r : Run) (l : Text) (c : ℕ) → run_line r (l ++ c ∷ []) ≡ run_step (run_line r l) c
unfolding run_line
run_line-append r [] c = refl
run_line-append r (d ∷ l) c = run_line-append (run_step r d) l c

pub leads-fence : (t : ℕ) (l : Text) → leads (fence, t) l ≡ (fence, t)
unfolding lead_step
leads-fence t [] = refl
leads-fence t (c ∷ l) = leads-fence t l

pub leads-content : (t : ℕ) (l : Text) → leads (content, t) l ≡ (content, t)
unfolding lead_step
leads-content t [] = refl
leads-content t (c ∷ l) = leads-content t l

-- What is still to come of the fence mark, once some of its backticks have been read.
leads_two : (l : Text) → starts_with (codes "`") l ≡ is_fence (leads (pending, 2) l).0
unfolding starts_with lead_step
leads_two [] = refl
leads_two (c ∷ l) = ground (arith, leads-fence 3 l, leads-content 2 l)

leads_one : (l : Text) → starts_with (codes "``") l ≡ is_fence (leads (pending, 1) l).0
unfolding starts_with lead_step
leads_one [] = refl
leads_one (c ∷ l) = ground (arith, leads_two l, leads-content 1 l)

pub is_whitespace_backtick : is_whitespace b'`' ≡ false
unfolding is_whitespace
is_whitespace_backtick = refl

-- A line toggles the fence exactly when the monitor says so.
pub is_fence_line-leads : (l : Text) → is_fence_line l ≡ is_fence (leads (pending, 0) l).0
unfolding is_fence_line trim_start starts_with lead_step
is_fence_line-leads [] = refl
is_fence_line-leads (c ∷ l) = elim (Bool-cases (c == b'`')) [
  | inl e ↦ rw ((==_iff c b'`').0 e, is_whitespace_backtick) (leads_one l)
  | inr n ↦ ground (arith, is_fence_line-leads l, leads-content 0 l)
]

strip_cr-cases : (l : Text) → (strip_cr l ≡ l) ⊎ (l ≡ strip_cr l ++ b'\r' ∷ [])
unfolding strip_cr
strip_cr-cases [] = inl refl
strip_cr-cases (c ∷ []) = ground arith
strip_cr-cases (c ∷ d ∷ s) = elim (strip_cr-cases (d ∷ s)) [
  | inl e ↦ inl (ap (◌∷◌ c) e)
  | inr e ↦ inr (ap (◌∷◌ c) e)
]

lead_step-cr : (s : LineLead × ℕ) → is_fence (lead_step s b'\r').0 ≡ is_fence s.0
unfolding lead_step
lead_step-cr (pending, t) = ground arith
lead_step-cr (fence, t) = refl
lead_step-cr (content, t) = refl

is_fence_line-cr : (l : Text) → is_fence_line (l ++ b'\r' ∷ []) ≡ is_fence_line l
is_fence_line-cr l =
    is_fence_line-leads (l ++ b'\r' ∷ [])
    ∙ ap (λ s. is_fence s.0) (leads-append (pending, 0) l b'\r')
    ∙ lead_step-cr (leads (pending, 0) l)
    ∙ sym (is_fence_line-leads l)

run_step-cr : (r : Run) → (run_step r b'\r').best ≡ r.best
unfolding run_step
run_step-cr r = ground arith

longest_repeat_run-cr : (l : Text) → longest_repeat_run (l ++ b'\r' ∷ []) ≡ longest_repeat_run l
unfolding longest_repeat_run
longest_repeat_run-cr l =
    ap (λ r. r.best) (run_line-append no_run l b'\r') ∙ run_step-cr (run_line no_run l)

-- Dropping the `\r` before a line end changes nothing.
pub scan_line-strip_cr : (s : Scan) (l : Text) → scan_line s (strip_cr l) ≡ scan_line s l
unfolding scan_line
scan_line-strip_cr s l = elim (strip_cr-cases l) [
  | inl e ↦ rw e
  | inr e ↦ ground (
    arith,
    ap is_fence_line e,
    ap longest_repeat_run e,
    is_fence_line-cr (strip_cr l),
    longest_repeat_run-cr (strip_cr l),
  )
]
