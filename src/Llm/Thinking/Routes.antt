-- ===== src/Llm/Thinking/Routes.antt =====
-- The filter against the tags of the whole stream.
use unshackled.Prelude.{
  ℕ, zero, suc, ◌≡◌, ◌<◌, refl, ap, sym, ◌∙◌, Bool, true, false, not, none, some, List, [], ◌∷◌,
  ◌++◌, length, ◌-◌, arith, Option-cases, inl, inr, append_assoc,
}
use unshackled.Text.{Text}
use unshackled.Text.Split.{is_empty}
use unshackled.Text.Trim.{split_once}
use unshackled.Text.Suffix.{take, drop}
use unshackled.Llm.Thinking.{
  InlineThinkingFilter, default_filter, tag_of, partial_tag_suffix, emit, emit_clear, filter_from,
  push, finish,
}
use unshackled.Llm.Thinking.Clear.{take-drop}
use unshackled.Llm.Thinking.Loop.{
  Filtered, Routed, text_of, reasoning_of, routed, then_more, push_all, then_more-emit, shorter,
}
use unshackled.Llm.Thinking.Chunks.{join_routed, routed-then_more, whole, push_all-whole}

-- The text and the reasoning of a stream, by its tags: of its first tag, what stands before it
-- and what stands behind it, where the other tag is the next.
abbrev pub place : Bool → Text → Text × Text → Text × Text
place true t (x, y) = (x, t ++ y)
place false t (x, y) = (t ++ x, y)

pub data Routes : Bool → Text → Text × Text → Type 0 where
  untagged :
      (b : Bool) (s : Text) (r : Text × Text)
      → split_once (tag_of b) s ≡ none
      → r ≡ place b s ([], [])
      → Routes b s r
  tagged :
      (b : Bool) (s before rest : Text) (q r : Text × Text)
      → split_once (tag_of b) s ≡ some (before, rest)
      → Routes (not b) rest q
      → r ≡ place b before q
      → Routes b s r

abbrev pub parts : Filtered → Text × Text
parts (es, f) = (text_of es, reasoning_of es)

-- The deltas of a stream, and its end.
abbrev pub filter_stream : List Text → Filtered
filter_stream ds = then_more finish (push_all default_filter ds)

parts-emit : (b : Bool) (t : Text) (r : Filtered) → parts (emit b t r) ≡ place b t (parts r)
parts-emit true [] (es, f) = refl
parts-emit false [] (es, f) = refl
parts-emit true (c ∷ t) (es, f) = refl
parts-emit false (c ∷ t) (es, f) = refl

place-append :
    (b : Bool) (s t : Text) (q : Text × Text) → place b s (place b t q) ≡ place b (s ++ t) q
place-append true s t (x, y) = ap (λ z. (x, z)) (sym (append_assoc s t y))
place-append false s t (x, y) = ap (λ z. (z, y)) (sym (append_assoc s t x))

parts-finish :
    (b : Bool) (t : Text)
    → parts (then_more finish ([], record { in_thinking = b; held = t })) ≡ place b t ([], [])
unfolding finish is_empty
parts-finish true [] = refl
parts-finish false [] = refl
parts-finish true (c ∷ t) = refl
parts-finish false (c ∷ t) = refl

filter_from-Routes :
    (n : ℕ) (b : Bool) (s : Text)
    → length s < n
    → Routes b s (parts (then_more finish (filter_from n b s)))
unfolding filter_from emit_clear
filter_from-Routes zero b s h = ground (arith, h)
filter_from-Routes (suc n) b s h = elim (Option-cases (split_once (tag_of b) s)) [
  | inl e ↦
      let k = length s - partial_tag_suffix s (tag_of b) in
      let left : InlineThinkingFilter = record { in_thinking = b; held = drop k s } in
      rw e (
        Routes.untagged b s _ e (
          ap parts (then_more-emit finish b (take k s) ([], left))
          ∙ parts-emit b (take k s) (then_more finish ([], left))
          ∙ ap (place b (take k s)) (parts-finish b (drop k s))
          ∙ place-append b (take k s) (drop k s) ([], [])
          ∙ ap (λ z. place b z ([], [])) (take-drop k s)))
  | inr ((before, rest), e) ↦
      let less = shorter b s before rest e in
      let later = filter_from n (not b) rest in
      rw e (
        Routes.tagged b s before rest (parts (then_more finish later)) _ e
          (filter_from-Routes n (not b) rest (omega (arith, less, h)))
          (ap parts (then_more-emit finish b before later)
            ∙ parts-emit b before (then_more finish later)))
]

parts_of : Routed → Text × Text
parts_of (x, y, f) = (x, y)

finish_routed : Routed → Routed
finish_routed (x, y, f) = join_routed (x, y, f) (routed (finish f))

parts-then_finish :
    (r : Filtered) → parts (then_more finish r) ≡ parts_of (finish_routed (routed r))
unfolding parts_of finish_routed
parts-then_finish (es, f) = ap parts_of (routed-then_more finish (es, f))

-- However a stream is cut into deltas, also inside a tag, the text and the reasoning of all events
-- are those that the tags of the whole stream give: what stands before a `<think>` is text, what
-- stands between it and the next `</think>` is reasoning, and so on behind it, where the part that no
-- tag ends goes by the tag before it, and the tags themselves are dropped.
pub filter_stream-Routes : (ds : List Text) → Routes false (whole ds) (parts (filter_stream ds))
unfolding push split_once finish is_empty
filter_stream-Routes [] = Routes.untagged false [] ([], []) refl refl
filter_stream-Routes (d ∷ ds) =
    let all_at_once = push default_filter (whole (d ∷ ds)) in
    let same : parts (then_more finish all_at_once) ≡ parts (filter_stream (d ∷ ds)) =
      parts-then_finish all_at_once
      ∙ ap (λ z. parts_of (finish_routed z)) (sym (push_all-whole default_filter d ds))
      ∙ sym (parts-then_finish (push_all default_filter (d ∷ ds))) in
    rw (sym same)
      (filter_from-Routes (suc (length (whole (d ∷ ds)))) false (whole (d ∷ ds)) (omega arith))
