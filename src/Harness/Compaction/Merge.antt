-- ===== src/Harness/Compaction/Merge.antt =====
-- crates/localpilot-harness/src/compaction.rs: `merge_consecutive_system`, applied to what is sent.
use unshackled.Prelude.{
  ◌≡◌, refl, sym, ap, ◌∙◌, Bool, true, not, ◌&&◌, List, [], ◌∷◌, ◌++◌, all, all-append,
  append_assoc, append-nil, arith, if◌then◌else◌, Bool-cases, inl, inr,
}
use unshackled.Text.{Text, one_of}
use unshackled.Core.Messages.{
  Role, system, user, assistant, tool, user_shell, ContentBlock, text, reasoning, tool_use,
  tool_result, Message, role_eq,
}
use unshackled.Harness.Compaction.Parts.{is_role}
use unshackled.Harness.Compaction.Pairs.{
  result_ids, open_for, open_calls, answers_open, is_paired, both_true,
}

abbrev pub both_system : Message → Message → Bool
both_system last m = is_role system last && is_role system m

-- One round: the message joins the last one, or stands behind it.
unfoldable pub push_merged : List Message → Message → List Message
push_merged [] m = m ∷ []
push_merged (last ∷ []) m =
    if both_system last m
    then record last { content = last.content ++ m.content } ∷ []
    else last ∷ m ∷ []
push_merged (l ∷ k ∷ out) m = l ∷ push_merged (k ∷ out) m

unfoldable pub merge_onto : List Message → List Message → List Message
unfolding push_merged
merge_onto out [] = out
merge_onto out (m ∷ ms) = merge_onto (push_merged out m) ms

abbrev pub merge_consecutive_system : List Message → List Message
merge_consecutive_system ms = merge_onto [] ms

-- No two system messages stand next to each other.
abbrev pub is_separated : List Message → Bool
is_separated [] = true
is_separated (m ∷ []) = true
is_separated (m ∷ n ∷ ms) = not (both_system m n) && is_separated (n ∷ ms)

abbrev pub all_content : List Message → List ContentBlock
all_content [] = []
all_content (m ∷ ms) = m.content ++ all_content ms

pub result_ids-append :
    (a b : List ContentBlock) → result_ids (a ++ b) ≡ result_ids a ++ result_ids b
result_ids-append [] b = refl
result_ids-append (tool_result r ∷ a) b = ap (◌∷◌ r.id) (result_ids-append a b)
result_ids-append (text t ∷ a) b = result_ids-append a b
result_ids-append (reasoning t s p ∷ a) b = result_ids-append a b
result_ids-append (tool_use c ∷ a) b = result_ids-append a b

all_content-push_merged :
    (out : List Message) (m : Message)
    → all_content (push_merged out m) ≡ all_content out ++ m.content
unfolding push_merged
all_content-push_merged [] m = append-nil m.content
all_content-push_merged (l ∷ k ∷ out) m =
    ap (◌++◌ l.content) (all_content-push_merged (k ∷ out) m)
    ∙ sym (append_assoc l.content (all_content (k ∷ out)) m.content)
all_content-push_merged (last ∷ []) m = elim (Bool-cases (both_system last m)) [
  | inl y ↦ rw y (
      append-nil (last.content ++ m.content)
      ∙ ap (λ z. z ++ m.content) (sym (append-nil last.content)))
  | inr n ↦ rw n (
      ap (◌++◌ last.content) (append-nil m.content)
      ∙ ap (λ z. z ++ m.content) (sym (append-nil last.content)))
]

is_separated-push_merged :
    (out : List Message) (m : Message)
    → is_separated out ≡ true
    → is_separated (push_merged out m) ≡ true
unfolding push_merged
is_separated-push_merged [] m h = refl
is_separated-push_merged (last ∷ []) m h = ground arith
is_separated-push_merged (l ∷ k ∷ []) m h = ground (arith, h)
is_separated-push_merged (l ∷ k ∷ j ∷ out) m h =
    ground (arith, h, is_separated-push_merged (k ∷ j ∷ out) m)

pub is_system : (r : Role) → role_eq r system ≡ true → r ≡ system
is_system system h = refl
is_system user h = ground (arith, h)
is_system assistant h = ground (arith, h)
is_system tool h = ground (arith, h)
is_system user_shell h = ground (arith, h)

-- Of two system messages the same calls stay open, so that their results can be joined.
joined_results :
    (calls : List Text) (r s : Role) (a b : List ContentBlock) (rest : List Text → Bool)
    → r ≡ system
    → s ≡ system
    → (all (λ id. one_of id (open_for r calls (a ++ b))) (result_ids (a ++ b))
        && rest (open_for r calls (a ++ b)))
      ≡ (all (λ id. one_of id (open_for r calls a)) (result_ids a)
          && (all (λ id. one_of id (open_for s (open_for r calls a) b)) (result_ids b)
              && rest (open_for s (open_for r calls a) b)))
joined_results calls r s a b rest e f = rw (e, f, result_ids-append a b, all-append) (ground arith)

is_paired-push_merged :
    (calls : List Text) (out : List Message) (m : Message) (ms : List Message)
    → is_paired calls (push_merged out m ++ ms) ≡ is_paired calls (out ++ m ∷ ms)
unfolding push_merged is_paired
is_paired-push_merged calls [] m ms = refl
is_paired-push_merged calls (l ∷ k ∷ out) m ms =
    ap (λ b. answers_open calls l && b) (is_paired-push_merged (open_calls calls l) (k ∷ out) m ms)
is_paired-push_merged calls (last ∷ []) m ms = elim (Bool-cases (both_system last m)) [
  | inl y ↦
      let (sl, sm) = both_true (is_role system last) (is_role system m) y in
      rw y (
        joined_results calls last.role m.role last.content m.content (λ c. is_paired c ms)
          (is_system last.role sl) (is_system m.role sm))
  | inr n ↦ rw n refl
]

is_paired-merge_onto :
    (out ms : List Message) → is_paired [] (merge_onto out ms) ≡ is_paired [] (out ++ ms)
unfolding merge_onto
is_paired-merge_onto out [] = ap (is_paired []) (sym (append-nil out))
is_paired-merge_onto out (m ∷ ms) =
    is_paired-merge_onto (push_merged out m) ms ∙ is_paired-push_merged [] out m ms

merge_onto-lem :
    (out ms : List Message)
    → is_separated out ≡ true
    → (is_separated (merge_onto out ms) ≡ true)
      × (all_content (merge_onto out ms) ≡ all_content out ++ all_content ms)
unfolding merge_onto
merge_onto-lem out [] h = (h, sym (append-nil (all_content out)))
merge_onto-lem out (m ∷ ms) h =
    let (s, c) = merge_onto-lem (push_merged out m) ms (is_separated-push_merged out m h) in
    (
      s,
      c
          ∙ ap (λ z. z ++ all_content ms) (all_content-push_merged out m)
          ∙ append_assoc (all_content out) m.content (all_content ms),
    )

-- Merging leaves no two system messages next to each other, keeps all content in order, and answers
-- a call by a result exactly where the conversation did.
pub merge_consecutive_system-lem :
    (ms : List Message)
    → (is_separated (merge_consecutive_system ms) ≡ true)
      × (all_content (merge_consecutive_system ms) ≡ all_content ms)
      × (is_paired [] (merge_consecutive_system ms) ≡ is_paired [] ms)
merge_consecutive_system-lem ms =
    let (s, c) = merge_onto-lem [] ms refl in (s, c, is_paired-merge_onto [] ms)
