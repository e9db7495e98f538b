-- ===== src/Recovery/Monitor/Tokens.antt =====
-- The half of the monitor that follows the tokens, and the count over a text's tokens.
use unshackled.Prelude.{
  ℕ, ◌≡◌, refl, sym, ap, ◌∙◌, inl, inr, true, false, Option, none, some, List, [], ◌∷◌, ◌++◌, arith,
  ◌==◌, Bool-cases, ==_iff,
}
use unshackled.Text.{Text, text_eq, is_whitespace}
use unshackled.Text.Split.{is_empty, split_whitespace, tokens_from}
use unshackled.Recovery.Detect.{Repeats, no_repeats, token_step, count_tokens, is_token}
use unshackled.Recovery.Monitor.Lines.{push_char_newline}
use unshackled.Recovery.Monitor.{
  StreamMonitor, fresh, close_token, close_line, push_char, push_chars, open_repeat, track_token,
}

-- `prev_token` is empty until the first token is closed.
abbrev previous_of : Text → Option Text
previous_of [] = none
previous_of (c ∷ t) = some (c ∷ t)

abbrev repeats_of : StreamMonitor → Repeats
repeats_of m = record {
  best = m.max_repeat;
  current = m.repeat;
  previous = previous_of m.prev_token;
}

text_eq_comm : (s t : Text) → text_eq s t ≡ text_eq t s
unfolding text_eq
text_eq_comm [] [] = refl
text_eq_comm [] (b ∷ t) = refl
text_eq_comm (a ∷ s) [] = refl
text_eq_comm (a ∷ s) (b ∷ t) = ground (arith, text_eq_comm s t)

is_token-previous :
    (p : Text) (c : ℕ) (t : Text) → is_token (previous_of p) (c ∷ t) ≡ text_eq (c ∷ t) p
unfolding text_eq
is_token-previous [] c t = refl
is_token-previous (d ∷ p) c t = text_eq_comm (d ∷ p) (c ∷ t)

close_token-repeats :
    (m : StreamMonitor) (c : ℕ) (t : Text)
    → m.token ≡ c ∷ t
    → repeats_of (close_token m) ≡ token_step (repeats_of m) (c ∷ t)
unfolding close_token token_step is_empty
close_token-repeats m c t e =
    ground (arith, e, is_token-previous m.prev_token c t, ap (λ x. text_eq x m.prev_token) e)

open_repeat-token :
    (m : StreamMonitor) (c : ℕ) (t : Text)
    → m.token ≡ c ∷ t
    → open_repeat m ≡ (token_step (repeats_of m) (c ∷ t)).best
unfolding token_step is_empty
open_repeat-token m c t e =
    ground (arith, e, is_token-previous m.prev_token c t, ap (λ x. text_eq x m.prev_token) e)

abbrev token_part : StreamMonitor → Text × Text × ℕ × ℕ
token_part m = (m.prev_token, m.token, m.repeat, m.max_repeat)

newline_is_whitespace : is_whitespace b'\n' ≡ true
unfolding is_whitespace
newline_is_whitespace = refl

is_whitespace_newline : (c : ℕ) → (c == b'\n') ≡ true → is_whitespace c ≡ true
is_whitespace_newline c e = ap is_whitespace ((==_iff c b'\n').0 e) ∙ newline_is_whitespace

close_line-token_part : (m : StreamMonitor) → token_part (close_line m) ≡ token_part (close_token m)
unfolding close_line close_token
close_line-token_part m = ground arith

-- A character changes the tokens by `track_token` alone, also at the end of a line.
push_char-token_part :
    (m : StreamMonitor) (ticks c : ℕ)
    → token_part (push_char (m, ticks) c).0 ≡ token_part (track_token m c)
push_char-token_part m ticks c = elim (Bool-cases (c == b'\n')) [
  | inl e ↦
      ap (λ z. token_part z.0) (push_char_newline (m, ticks) c e)
      ∙ close_line-token_part m
      ∙ (unfold track_token in ground (arith, is_whitespace_newline c e))
  | inr n ↦ unfold push_char in unfold track_token close_token in ground arith
]

-- The best count of the closed tokens and of the tokens still to come.
abbrev best_from : Text × Text × ℕ × ℕ → Text → ℕ
best_from (prev, token, repeat, max_repeat) s =
    (count_tokens (record { best = max_repeat; current = repeat; previous = previous_of prev })
      (tokens_from token s)).best

track_token_space :
    (m : StreamMonitor) (c : ℕ) → is_whitespace c ≡ true → track_token m c ≡ close_token m
unfolding track_token
track_token_space m c w = rw w

track_token_other :
    (m : StreamMonitor) (c : ℕ)
    → is_whitespace c ≡ false
    → track_token m c ≡ record m { token = m.token ++ c ∷ [] }
unfolding track_token
track_token_other m c w = rw w

close_token_empty : (m : StreamMonitor) → m.token ≡ [] → close_token m ≡ m
unfolding close_token is_empty
close_token_empty m e = ground (arith, e)

close_token-token :
    (m : StreamMonitor) (c : ℕ) (t : Text) → m.token ≡ c ∷ t → (close_token m).token ≡ []
unfolding close_token is_empty
close_token-token m c t e = ground (arith, e)

tokens_from_other :
    (cur : Text) (c : ℕ) (s : Text)
    → is_whitespace c ≡ false
    → tokens_from cur (c ∷ s) ≡ tokens_from (cur ++ c ∷ []) s
unfolding tokens_from
tokens_from_other cur c s w = rw w

tokens_from_gap :
    (c : ℕ) (s : Text) → is_whitespace c ≡ true → tokens_from [] (c ∷ s) ≡ tokens_from [] s
unfolding tokens_from
tokens_from_gap c s w = rw w

tokens_from_close :
    (d : ℕ) (t : Text) (c : ℕ) (s : Text)
    → is_whitespace c ≡ true
    → tokens_from (d ∷ t) (c ∷ s) ≡ (d ∷ t) ∷ tokens_from [] s
unfolding tokens_from
tokens_from_close d t c s w = rw w

abbrev best_of : Repeats → List Text → ℕ
best_of r ts = (count_tokens r ts).best

-- Whitespace closes the open token, if there is one.
close_token-best :
    (m : StreamMonitor) (c : ℕ) (s cur : Text)
    → m.token ≡ cur
    → is_whitespace c ≡ true
    → best_from (token_part (close_token m)) s ≡ best_from (token_part m) (c ∷ s)
unfolding count_tokens
close_token-best m c s [] e w =
    ap (λ x. best_from (token_part x) s) (close_token_empty m e)
    ∙ ap (best_of (repeats_of m)) (
        ap (λ x. tokens_from x s) e
        ∙ sym (tokens_from_gap c s w)
        ∙ ap (λ x. tokens_from x (c ∷ s)) (sym e))
close_token-best m c s (d ∷ t) e w =
    ap (λ x. best_of (repeats_of (close_token m)) (tokens_from x s)) (close_token-token m d t e)
    ∙ ap (λ r. best_of r (tokens_from [] s)) (close_token-repeats m d t e)
    ∙ ap (best_of (repeats_of m))
        (sym (tokens_from_close d t c s w) ∙ ap (λ x. tokens_from x (c ∷ s)) (sym e))

track_token-best :
    (m : StreamMonitor) (c : ℕ) (s : Text)
    → best_from (token_part (track_token m c)) s ≡ best_from (token_part m) (c ∷ s)
track_token-best m c s = elim (Bool-cases (is_whitespace c)) [
  | inl w ↦
      ap (λ x. best_from (token_part x) s) (track_token_space m c w)
      ∙ close_token-best m c s m.token refl w
  | inr n ↦
      ap (λ x. best_from (token_part x) s) (track_token_other m c n)
      ∙ ap (best_of (repeats_of m)) (sym (tokens_from_other m.token c s n))
]

open_repeat-best :
    (m : StreamMonitor) (cur : Text) → m.token ≡ cur → open_repeat m ≡ best_from (token_part m) []
unfolding tokens_from count_tokens
open_repeat-best m [] e = ground (arith, e)
open_repeat-best m (c ∷ t) e =
    open_repeat-token m c t e ∙ ap (λ x. best_of (repeats_of m) (tokens_from x [])) (sym e)

push_chars-best :
    (s : Text) (m : StreamMonitor) (ticks : ℕ)
    → open_repeat (push_chars (m, ticks) s).0 ≡ best_from (token_part m) s
unfolding push_chars
push_chars-best [] m ticks = open_repeat-best m m.token refl
push_chars-best (c ∷ s) m ticks =
    push_chars-best s (push_char (m, ticks) c).0 (push_char (m, ticks) c).1
    ∙ ap (λ p. best_from p s) (push_char-token_part m ticks c)
    ∙ track_token-best m c s

-- A stream fed in one chunk has the count of repeats that the scan of its tokens finds.
pub push-count_tokens :
    (text : Text)
    → open_repeat (push_chars (fresh, 0) text).0
      ≡ (count_tokens no_repeats (split_whitespace text)).best
push-count_tokens text = push_chars-best text fresh 0
