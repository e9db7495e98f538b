-- ===== src/Llm/Thinking/Loop.antt =====
-- The loop of the filter: what it routes of a text that grows at its end.
use unshackled.Prelude.{
  ℕ, zero, suc, ◌≡◌, ◌≤◌, ◌<◌, ◌+◌, ◌-◌, refl, ap, sym, ◌∙◌, Bool, true, false, not, some, List, [],
  ◌∷◌, ◌++◌, length, arith, Option-cases, inl, inr, append_assoc, length-append,
}
use unshackled.Text.{Text}
use unshackled.Text.Trim.{split_once}
use unshackled.Text.Suffix.{take, drop}
use unshackled.Llm.Events.{ModelEvent, text_delta, reasoning_delta}
use unshackled.Llm.Thinking.{
  InlineThinkingFilter, tag_of, longest_suffix, partial_tag_suffix, emit, emit_clear, filter_from,
  push,
}
use unshackled.Llm.Thinking.Tags.{split_once-length}
use unshackled.Llm.Thinking.Clear.{
  Clear, Clear-split_once, Clear-longest_suffix, longest_suffix-length,
}

-- The text and the reasoning of the events, and the filter.
abbrev pub text_of : List ModelEvent → Text
text_of [] = []
text_of (text_delta t ∷ es) = t ++ text_of es
text_of (_ ∷ es) = text_of es

abbrev pub reasoning_of : List ModelEvent → Text
reasoning_of [] = []
reasoning_of (reasoning_delta t ∷ es) = t ++ reasoning_of es
reasoning_of (_ ∷ es) = reasoning_of es

abbrev pub Filtered : Type 0
Filtered = List ModelEvent × InlineThinkingFilter

abbrev pub Routed : Type 0
Routed = Text × Text × InlineThinkingFilter

abbrev pub routed : Filtered → Routed
routed (es, f) = (text_of es, reasoning_of es, f)

-- A step, and one more behind it.
abbrev pub then_more : (InlineThinkingFilter → Filtered) → Filtered → Filtered
then_more more (es, f) = (es ++ (more f).0, (more f).1)

abbrev pub push_all : InlineThinkingFilter → List Text → Filtered
push_all f [] = ([], f)
push_all f (d ∷ ds) = then_more (λ g. push_all g ds) (push f d)

abbrev pub add : Bool → Text → Routed → Routed
add true t (x, y, f) = (x, t ++ y, f)
add false t (x, y, f) = (t ++ x, y, f)

pub routed-emit : (b : Bool) (t : Text) (r : Filtered) → routed (emit b t r) ≡ add b t (routed r)
routed-emit true [] (es, f) = refl
routed-emit false [] (es, f) = refl
routed-emit true (c ∷ t) (es, f) = refl
routed-emit false (c ∷ t) (es, f) = refl

pub add-append : (b : Bool) (s t : Text) (r : Routed) → add b (s ++ t) r ≡ add b s (add b t r)
add-append true s t (x, y, f) = ap (λ z. (x, z, f)) (append_assoc s t y)
add-append false s t (x, y, f) = ap (λ z. (z, y, f)) (append_assoc s t x)

pub then_more-emit :
    (more : InlineThinkingFilter → Filtered) (b : Bool) (t : Text) (r : Filtered)
    → then_more more (emit b t r) ≡ emit b t (then_more more r)
then_more-emit more b [] (es, f) = refl
then_more-emit more b (c ∷ t) (es, f) = refl

tag_of-length : (b : Bool) → 1 ≤ length (tag_of b)
tag_of-length true = omega arith
tag_of-length false = omega arith

-- Behind a tag there is less text than before it.
pub shorter :
    (b : Bool) (s before rest : Text)
    → split_once (tag_of b) s ≡ some (before, rest)
    → length rest < length s
shorter b s before rest e =
    omega (arith, split_once-length (tag_of b) s before rest e, tag_of-length b)

filter_from-enough :
    (n m : ℕ) (b : Bool) (s : Text)
    → length s < n
    → length s < m
    → filter_from n b s ≡ filter_from m b s
unfolding filter_from
filter_from-enough zero m b s hn hm = ground (arith, hn)
filter_from-enough (suc n) zero b s hn hm = ground (arith, hm)
filter_from-enough (suc n) (suc m) b s hn hm = elim (Option-cases (split_once (tag_of b) s)) [
  | inl e ↦ rw e refl
  | inr ((before, rest), e) ↦
      let less = shorter b s before rest e in
      let same =
        filter_from-enough n m (not b) rest (omega (arith, less, hn)) (omega (arith, less, hm)) in
      rw e (ap (emit b before) same)
]

take-append : (s t : Text) (n k : ℕ) → k ≡ length s + n → take k (s ++ t) ≡ s ++ take n t
take-append [] t n k e = let same : k ≡ n = omega (arith, e) in rw same refl
take-append (c ∷ s) t n zero e = ground (arith, e)
take-append (c ∷ s) t n (suc k) e = ap (◌∷◌ c) (take-append s t n k (omega (arith, e)))

drop-append : (s t : Text) (n k : ℕ) → k ≡ length s + n → drop k (s ++ t) ≡ drop n t
drop-append [] t n k e = let same : k ≡ n = omega (arith, e) in rw same refl
drop-append (c ∷ s) t n zero e = ground (arith, e)
drop-append (c ∷ s) t n (suc k) e = drop-append s t n k (omega (arith, e))

-- A clear part of a text goes out first, whatever comes behind.
emit_clear-Clear :
    (b : Bool) (s k d : Text)
    → Clear (tag_of b) s k
    → routed (emit_clear b (s ++ (k ++ d))) ≡ add b s (routed (emit_clear b (k ++ d)))
unfolding emit_clear partial_tag_suffix
emit_clear-Clear b s k d h =
    let most = length (tag_of b) - 1 in
    let kept = longest_suffix most (k ++ d) (tag_of b) in
    let n = length (k ++ d) - kept in
    let fits : kept ≤ length (k ++ d) =
      longest_suffix-length most (k ++ d) (tag_of b) (omega arith) in
    let at : length (s ++ (k ++ d)) - kept ≡ length s + n =
      omega (arith, length-append s (k ++ d), fits) in
    let out = Clear-longest_suffix most (tag_of b) s k d h in
    let left : InlineThinkingFilter = record { in_thinking = b; held = drop n (k ++ d) } in
    rw
      (
        out,
        take-append s (k ++ d) n (length (s ++ (k ++ d)) - kept) at,
        drop-append s (k ++ d) n (length (s ++ (k ++ d)) - kept) at,
      )
      (routed-emit b (s ++ take n (k ++ d)) ([], left)
        ∙ add-append b s (take n (k ++ d)) ([], [], left)
        ∙ ap (add b s) (sym (routed-emit b (take n (k ++ d)) ([], left))))

pub filter_from-Clear :
    (n m : ℕ) (b : Bool) (s k d : Text)
    → Clear (tag_of b) s k
    → length (s ++ (k ++ d)) < suc n
    → length (k ++ d) < suc m
    → routed (filter_from (suc n) b (s ++ (k ++ d)))
      ≡ add b s (routed (filter_from (suc m) b (k ++ d)))
unfolding filter_from
filter_from-Clear n m b s k d h hn hm = elim (Option-cases (split_once (tag_of b) (k ++ d))) [
  | inl e ↦ rw (Clear-split_once (tag_of b) s k d h, e) (emit_clear-Clear b s k d h)
  | inr ((before, rest), e) ↦
      let less = shorter b (k ++ d) before rest e in
      let same =
        filter_from-enough n m (not b) rest (omega (arith, less, hn, length-append s (k ++ d)))
          (omega (arith, less, hm)) in
      rw (Clear-split_once (tag_of b) s k d h, e)
        (routed-emit b (s ++ before) (filter_from n (not b) rest)
          ∙ add-append b s before (routed (filter_from n (not b) rest))
          ∙ ap (λ z. add b s (add b before (routed z))) same
          ∙ ap (add b s) (sym (routed-emit b before (filter_from m (not b) rest))))
]
