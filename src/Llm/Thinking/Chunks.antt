-- ===== src/Llm/Thinking/Chunks.antt =====
-- The filter over a stream that is cut into deltas, against the tags of the whole stream.
use unshackled.Prelude.{
  ℕ, zero, suc, ◌≡◌, ◌<◌, refl, ap, sym, ◌∙◌, Bool, not, List, [], ◌∷◌, ◌++◌, length, ◌-◌, arith,
  Option-cases, inl, inr, append_assoc, append-nil,
}
use unshackled.Text.{Text}
use unshackled.Text.Trim.{split_once}
use unshackled.Text.Suffix.{take, drop}
use unshackled.Llm.Events.{
  ModelEvent, text_delta, reasoning_delta, tool_call, usage, provider_warning, output_limit,
  finished,
}
use unshackled.Llm.Thinking.{
  InlineThinkingFilter, tag_of, partial_tag_suffix, emit, emit_clear, filter_from, push,
}
use unshackled.Llm.Thinking.Tags.{split_once-append}
use unshackled.Llm.Thinking.Clear.{Clear-partial_tag_suffix, take-drop}
use unshackled.Llm.Thinking.Loop.{
  Filtered, Routed, text_of, reasoning_of, routed, then_more, push_all, add, routed-emit,
  then_more-emit, shorter, filter_from-Clear,
}

-- What is filtered of a text that grows is what is filtered of it, and then of the rest.
filter_from-append :
    (n m : ℕ) (b : Bool) (s d : Text)
    → length s < n
    → length (s ++ d) < m
    → routed (filter_from m b (s ++ d)) ≡ routed (then_more (λ g. push g d) (filter_from n b s))
unfolding filter_from emit_clear push
filter_from-append zero m b s d hn hm = ground (arith, hn)
filter_from-append (suc n) zero b s d hn hm = ground (arith, hm)
filter_from-append (suc n) (suc m) b s d hn hm = elim (Option-cases (split_once (tag_of b) s)) [
  | inl e ↦
      let k = length s - partial_tag_suffix s (tag_of b) in
      let whole = take-drop k s in
      let left : InlineThinkingFilter = record { in_thinking = b; held = drop k s } in
      let same : take k s ++ (drop k s ++ d) ≡ s ++ d =
        sym (append_assoc (take k s) (drop k s) d) ∙ ap (λ z. z ++ d) whole in
      let step : emit b (take k s) ([], left) ≡ filter_from (suc n) b s = rw e refl in
      let clear = Clear-partial_tag_suffix s (tag_of b) e in
      let short : length (take k s ++ (drop k s ++ d)) < suc m =
        omega (arith, hm, ap length same) in
      let out =
        filter_from-Clear m (length (drop k s ++ d)) b (take k s) (drop k s) d clear short
          (omega arith) in
      ap (λ z. routed (filter_from (suc m) b z)) (sym same)
      ∙ out
      ∙ sym (routed-emit b (take k s) (then_more (λ g. push g d) ([], left)))
      ∙ ap routed (sym (then_more-emit (λ g. push g d) b (take k s) ([], left)))
      ∙ ap (λ z. routed (then_more (λ g. push g d) z)) step
  | inr ((before, rest), e) ↦
      let less = shorter b s before rest e in
      let grown = split_once-append (tag_of b) s d before rest e in
      let less_grown = shorter b (s ++ d) before (rest ++ d) grown in
      let later =
        filter_from-append n m (not b) rest d (omega (arith, less, hn))
          (omega (arith, less_grown, hm)) in
      rw (e, grown)
        (routed-emit b before (filter_from m (not b) (rest ++ d))
          ∙ ap (add b before) later
          ∙ sym (routed-emit b before (then_more (λ g. push g d) (filter_from n (not b) rest)))
          ∙ ap routed (sym (then_more-emit (λ g. push g d) b before (filter_from n (not b) rest))))
]

push-append :
    (f : InlineThinkingFilter) (a d : Text)
    → routed (push f (a ++ d)) ≡ routed (then_more (λ g. push g d) (push f a))
unfolding push
push-append f a d =
    ap (λ z. routed (filter_from (suc (length z)) f.in_thinking z)) (sym (append_assoc f.held a d))
    ∙ filter_from-append (suc (length (f.held ++ a))) (suc (length ((f.held ++ a) ++ d)))
        f.in_thinking (f.held ++ a) d (omega arith) (omega arith)

-- What is routed by two steps depends only on what each routes.
unfoldable pub join_routed : Routed → Routed → Routed
join_routed (x, y, f) (z, w, g) = (x ++ z, y ++ w, g)

text_of-append : (a b : List ModelEvent) → text_of (a ++ b) ≡ text_of a ++ text_of b
text_of-append [] b = refl
text_of-append (text_delta t ∷ a) b =
    ap (λ z. t ++ z) (text_of-append a b) ∙ sym (append_assoc t (text_of a) (text_of b))
text_of-append (reasoning_delta t ∷ a) b = text_of-append a b
text_of-append (tool_call c ∷ a) b = text_of-append a b
text_of-append (usage u ∷ a) b = text_of-append a b
text_of-append (provider_warning m ∷ a) b = text_of-append a b
text_of-append (output_limit m ∷ a) b = text_of-append a b
text_of-append (finished ∷ a) b = text_of-append a b

reasoning_of-append :
    (a b : List ModelEvent) → reasoning_of (a ++ b) ≡ reasoning_of a ++ reasoning_of b
reasoning_of-append [] b = refl
reasoning_of-append (reasoning_delta t ∷ a) b =
    ap (λ z. t ++ z) (reasoning_of-append a b)
    ∙ sym (append_assoc t (reasoning_of a) (reasoning_of b))
reasoning_of-append (text_delta t ∷ a) b = reasoning_of-append a b
reasoning_of-append (tool_call c ∷ a) b = reasoning_of-append a b
reasoning_of-append (usage u ∷ a) b = reasoning_of-append a b
reasoning_of-append (provider_warning m ∷ a) b = reasoning_of-append a b
reasoning_of-append (output_limit m ∷ a) b = reasoning_of-append a b
reasoning_of-append (finished ∷ a) b = reasoning_of-append a b

pub routed-then_more :
    (more : InlineThinkingFilter → Filtered) (r : Filtered)
    → routed (then_more more r) ≡ join_routed (routed r) (routed (more r.1))
unfolding join_routed
routed-then_more more (es, f) =
    rw (text_of-append es (more f).0, reasoning_of-append es (more f).0) refl

then_more-same :
    (more less : InlineThinkingFilter → Filtered) (r : Filtered)
    → ((g : InlineThinkingFilter) → routed (more g) ≡ routed (less g))
    → routed (then_more more r) ≡ routed (then_more less r)
then_more-same more less r h =
    routed-then_more more r ∙ ap (join_routed (routed r)) (h r.1) ∙ sym (routed-then_more less r)

-- The stream that is cut into deltas.
abbrev pub whole : List Text → Text
whole [] = []
whole (d ∷ ds) = d ++ whole ds

pub push_all-whole :
    (f : InlineThinkingFilter) (d : Text) (ds : List Text)
    → routed (push_all f (d ∷ ds)) ≡ routed (push f (whole (d ∷ ds)))
push_all-whole f d [] =
    rw (append-nil d) (routed-then_more (λ g. ([], g)) (push f d) ∙ join_nil (push f d))
  where
    join_nil : (r : Filtered) → join_routed (routed r) ([], [], r.1) ≡ routed r
    join_nil (es, g) =
        unfold join_routed in rw (append-nil (text_of es), append-nil (reasoning_of es)) refl
push_all-whole f d (e ∷ ds) =
    then_more-same (λ g. push_all g (e ∷ ds)) (λ g. push g (whole (e ∷ ds))) (push f d)
      (λ g. push_all-whole g e ds)
    ∙ sym (push-append f d (whole (e ∷ ds)))
