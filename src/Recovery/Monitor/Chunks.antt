-- ===== src/Recovery/Monitor/Chunks.antt =====
-- A stream in several chunks, where `backticks_pending` is lost between two of them.
use unshackled.Prelude.{
  ℕ, ◌≡◌, ◌≢◌, refl, sym, ap, ◌∙◌, ◌⊎◌, inl, inr, Bool, true, false, ◌||◌, List, [], ◌∷◌, ◌++◌,
  append_assoc, append-nil, arith, ◌==◌, if◌then◌else◌, Bool-cases, ==_iff,
}
use unshackled.Text.{Text, codes, is_whitespace, trim_start}
use unshackled.Recovery.Detect.{is_slash_flood, is_repeated_token_loop}
use unshackled.Recovery.Monitor.Leads.{
  leads, leads-append, leads-fence, leads-content, is_whitespace_backtick,
}
use unshackled.Recovery.Monitor.Lines.{fresh-Follows, push_char_newline, push_char-lead}
use unshackled.Recovery.Monitor.Equivalence.{detected-push}
use unshackled.Recovery.Monitor.{
  StreamMonitor, LineLead, pending, fence, content, fresh, push, push_all, push_char, push_chars,
  lead_step, detected,
}

-- The line that is open after a text, `cur` being its part before it.
abbrev open_line_from : Text → Text → Text
open_line_from cur [] = cur
open_line_from cur (c ∷ s) = open_line_from (if c == b'\n' then [] else cur ++ c ∷ []) s

-- Behind leading whitespace, a line that is open at a cut is not one or two backticks.
abbrev pub IsCleanCut : Text → Type 0
IsCleanCut fed =
    (trim_start (open_line_from [] fed) ≢ codes "`")
    × (trim_start (open_line_from [] fed) ≢ codes "``")

-- Every cut of the stream is clean, `fed` being what came before.
abbrev pub HasCleanCuts : Text → List Text → Type 0
HasCleanCuts fed [] = Unit {0}
HasCleanCuts fed (d ∷ []) = Unit {0}
HasCleanCuts fed (d ∷ e ∷ ds) = IsCleanCut (fed ++ d) × HasCleanCuts (fed ++ d) (e ∷ ds)

abbrev pub concat : List Text → Text
concat [] = []
concat (d ∷ ds) = d ++ concat ds

push_chars-append :
    (s : StreamMonitor × ℕ) (a b : Text) → push_chars s (a ++ b) ≡ push_chars (push_chars s a) b
unfolding push_chars
push_chars-append s [] b = refl
push_chars-append s (c ∷ a) b = push_chars-append (push_char s c) a b

push_char-leads :
    (cur : Text) (m : StreamMonitor) (ticks c : ℕ)
    → leads (pending, 0) cur ≡ (m.line_lead, ticks)
    → leads (pending, 0) (if c == b'\n' then [] else cur ++ c ∷ [])
      ≡ ((push_char (m, ticks) c).0.line_lead, (push_char (m, ticks) c).1)
push_char-leads cur m ticks c h = elim (Bool-cases (c == b'\n')) [
  | inl e ↦ rw e (
      (fresh-Follows m).lead
      ∙ ap (λ s. (s.0.line_lead, s.1)) (sym (push_char_newline (m, ticks) c e)))
  | inr n ↦ rw n (
      leads-append (pending, 0) cur c
      ∙ ap (λ s. lead_step s c) h
      ∙ sym (push_char-lead m ticks c n))
]

push_chars-leads :
    (s cur : Text) (m : StreamMonitor) (ticks : ℕ)
    → leads (pending, 0) cur ≡ (m.line_lead, ticks)
    → leads (pending, 0) (open_line_from cur s)
      ≡ ((push_chars (m, ticks) s).0.line_lead, (push_chars (m, ticks) s).1)
unfolding push_chars
push_chars-leads [] cur m ticks h = h
push_chars-leads (c ∷ s) cur m ticks h =
    push_chars-leads s _ (push_char (m, ticks) c).0 (push_char (m, ticks) c).1
      (push_char-leads cur m ticks c h)

-- A line's lead that is still pending has seen nothing but its first backticks.
leads_pending_two : (t : ℕ) (l : Text) → leads (pending, 2) l ≡ (pending, t) → l ≡ []
unfolding lead_step
leads_pending_two t [] h = refl
leads_pending_two t (c ∷ l) h = ground (arith, leads-fence 3 l, leads-content 2 l)

leads_pending_one :
    (t : ℕ) (l : Text) → leads (pending, 1) l ≡ (pending, t) → (l ≡ []) ⊎ (l ≡ codes "`")
unfolding lead_step
leads_pending_one t [] h = inl refl
leads_pending_one t (c ∷ l) h = ground (arith, leads_pending_two t l, leads-content 1 l)

leads_pending :
    (t : ℕ) (l : Text)
    → leads (pending, 0) l ≡ (pending, t)
    → (t ≡ 0) ⊎ (trim_start l ≡ codes "`") ⊎ (trim_start l ≡ codes "``")
unfolding lead_step trim_start
leads_pending t [] h = ground arith
leads_pending t (c ∷ l) h = elim (Bool-cases (c == b'`')) [
  | inl e ↦
      ground (
        arith,
        leads_pending_one t l,
        is_whitespace_backtick,
        ap is_whitespace ((==_iff c b'`').0 e),
      )
  | inr n ↦ ground (arith, leads_pending t l, leads-content 0 l)
]

abbrev is_pending : LineLead → Bool
is_pending pending = true
is_pending _ = false

lead_step_settled :
    (lead : LineLead) (t c : ℕ) → is_pending lead ≡ false → lead_step (lead, t) c ≡ (lead, t)
unfolding lead_step
lead_step_settled pending t c h = cc
lead_step_settled fence t c h = refl
lead_step_settled content t c h = refl

-- Once the lead of the line is settled, the count of backticks is only passed on.
push_char_settled :
    (m : StreamMonitor) (t u c : ℕ)
    → (c == b'\n') ≡ false
    → is_pending m.line_lead ≡ false
    → (push_char (m, t) c).0 ≡ (push_char (m, u) c).0
unfolding push_char
push_char_settled m t u c n h =
    ground (arith, lead_step_settled m.line_lead t c h, lead_step_settled m.line_lead u c h)

push_char_keeps_lead :
    (m : StreamMonitor) (t c : ℕ)
    → (c == b'\n') ≡ false
    → is_pending m.line_lead ≡ false
    → is_pending (push_char (m, t) c).0.line_lead ≡ false
push_char_keeps_lead m t c n h =
    ap (λ s. is_pending s.0) (push_char-lead m t c n ∙ lead_step_settled m.line_lead t c h) ∙ h

push_chars_settled :
    (s : Text) (m : StreamMonitor) (t u : ℕ)
    → is_pending m.line_lead ≡ false
    → (push_chars (m, t) s).0 ≡ (push_chars (m, u) s).0
unfolding push_chars
push_chars_settled [] m t u h = refl
push_chars_settled (c ∷ s) m t u h = elim (Bool-cases (c == b'\n')) [
  | inl e ↦
      ap (λ z. (push_chars z s).0)
        (push_char_newline (m, t) c e ∙ sym (push_char_newline (m, u) c e))
  | inr n ↦
      push_chars_settled s (push_char (m, t) c).0 (push_char (m, t) c).1 (push_char (m, u) c).1
        (push_char_keeps_lead m t c n h)
      ∙ ap (λ z. (push_chars (z, (push_char (m, u) c).1) s).0) (push_char_settled m t u c n h)
]

-- The monitor after `fed`, with the count that its last call would have gone on with.
abbrev after : Text → StreamMonitor × ℕ
after fed = push_chars (fresh, 0) fed

after-leads :
    (fed : Text)
    → leads (pending, 0) (open_line_from [] fed) ≡ ((after fed).0.line_lead, (after fed).1)
after-leads fed = push_chars-leads fed [] fresh 0 refl

is_pending_sound : (lead : LineLead) → is_pending lead ≡ true → lead ≡ pending
is_pending_sound lead h = ground arith

resume :
    (m : StreamMonitor) (t : ℕ) (l d : Text)
    → leads (pending, 0) l ≡ (m.line_lead, t)
    → trim_start l ≢ codes "`"
    → trim_start l ≢ codes "``"
    → (push_chars (m, 0) d).0 ≡ (push_chars (m, t) d).0
resume m t l d e one two = elim (Bool-cases (is_pending m.line_lead)) [
  | inr n ↦ push_chars_settled d m 0 t n
  | inl y ↦ elim (leads_pending t l (e ∙ ap (λ x. (x, t)) (is_pending_sound m.line_lead y))) [
    | inl z ↦ rw z
    | inr (inl b) ↦ absurd (one b)
    | inr (inr b) ↦ absurd (two b)
  ]
]

-- After a clean cut, a new call goes on as the old one would have.
push-after : (fed d : Text) → IsCleanCut fed → push (after fed).0 d ≡ (after (fed ++ d)).0
unfolding push
push-after fed d h =
    resume (after fed).0 (after fed).1 (open_line_from [] fed) d (after-leads fed) h.0 h.1
    ∙ ap (λ z. z.0) (sym (push_chars-append (fresh, 0) fed d))

push_all-after :
    (ds : List Text) (fed : Text)
    → IsCleanCut fed
    → HasCleanCuts fed ds
    → push_all (after fed).0 ds ≡ (after (fed ++ concat ds)).0
unfolding push_all
push_all-after [] fed f h = rw append-nil
push_all-after (d ∷ []) fed f h = rw append-nil (push-after fed d f)
push_all-after (d ∷ e ∷ ds) fed f h =
    ap (λ m. push_all m (e ∷ ds)) (push-after fed d f)
    ∙ push_all-after (e ∷ ds) (fed ++ d) h.0 h.1
    ∙ ap (λ t. (after t).0) (append_assoc fed d (concat (e ∷ ds)))

-- A stream whose cuts are all clean gets, in whatever chunks it comes, the verdict of the two
-- detectors that scan the whole text.
pub detected-push_all :
    (ds : List Text)
    → HasCleanCuts [] ds
    → detected (push_all fresh ds)
      ≡ (is_slash_flood (concat ds) || is_repeated_token_loop (concat ds))
unfolding push push_chars trim_start
detected-push_all ds h =
    ap detected (push_all-after ds [] (ground arith, ground arith) h) ∙ detected-push (concat ds)
