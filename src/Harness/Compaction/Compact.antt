-- ===== src/Harness/Compaction/Compact.antt =====
-- Tool calls and results through the whole of `compact`.
use unshackled.Prelude.{
  ℕ, ◌≡◌, refl, sym, ap, ◌∙◌, true, ◌&&◌, Option, none, some, List, [], ◌∷◌, ◌++◌, all,
  append_assoc, append-nil, arith, Bool-cases, inl, inr,
}
use unshackled.Text.{Text}
use unshackled.Core.Messages.{
  Role, system, user, assistant, tool, user_shell, ContentBlock, text, reasoning, tool_use,
  tool_result, Message, no_metadata,
}
use unshackled.Core.Summary.{StructuredSummary}
use unshackled.Harness.Compaction.Parts.{
  flatten, is_role, split_system, retain, is_summary_message, summary_messages, group_onto,
  build_messages, fits,
}
use unshackled.Harness.Compaction.Trim.{
  truncate_blocks, truncate_message, truncate_from, trim_exchanges, trim_body, trim, compact,
  final_summary, cut_output, cut_to_fit,
}
use unshackled.Harness.Compaction.Pairs.{
  call_ids, result_ids, open_for, open_calls, answers_open, is_paired, open_after, is_paired-append,
  is_paired-behind, both_true, is_paired-anew, is_paired-suffix, IsGrouped,
}
use unshackled.Harness.Compaction.Loops.{
  split_system-append, flatten-group_onto, group_onto-IsGrouped,
}
use unshackled.Harness.Compaction.History.{Keeps, whole, part, trim_exchanges-Keeps}

-- Cutting the outputs leaves the calls and the results that a message holds.
pub truncate_blocks-ids :
    (bs : List ContentBlock)
    → (call_ids (truncate_blocks bs).0 ≡ call_ids bs)
      × (result_ids (truncate_blocks bs).0 ≡ result_ids bs)
unfolding truncate_blocks cut_output
truncate_blocks-ids [] = (refl, refl)
truncate_blocks-ids (text t ∷ bs) = truncate_blocks-ids bs
truncate_blocks-ids (reasoning t s p ∷ bs) = truncate_blocks-ids bs
truncate_blocks-ids (tool_use call ∷ bs) =
    let (c, r) = truncate_blocks-ids bs in (ap (◌∷◌ call.id) c, r)
truncate_blocks-ids (tool_result r ∷ bs) = ground (arith, truncate_blocks-ids bs)

pub open_for-truncate :
    (r : Role) (calls : List Text) (bs : List ContentBlock)
    → open_for r calls (truncate_blocks bs).0 ≡ open_for r calls bs
open_for-truncate user calls bs = refl
open_for-truncate assistant calls bs = (truncate_blocks-ids bs).0
open_for-truncate system calls bs = refl
open_for-truncate tool calls bs = refl
open_for-truncate user_shell calls bs = refl

is_paired-truncate :
    (calls : List Text) (m : Message) (ms : List Message)
    → is_paired calls ((truncate_message m).0 ∷ ms) ≡ is_paired calls (m ∷ ms)
unfolding is_paired truncate_message
is_paired-truncate calls m ms =
    rw (open_for-truncate m.role calls m.content, (truncate_blocks-ids m.content).1) refl

truncate_from-is_paired :
    (token_limit : ℕ) (before ms : List Message)
    → is_paired [] (truncate_from token_limit before ms).0 ≡ is_paired [] (before ++ ms)
unfolding truncate_from
truncate_from-is_paired token_limit before [] = rw append-nil refl
truncate_from-is_paired token_limit before (m ∷ ms) =
    elim (Bool-cases (fits (before ++ m ∷ ms) token_limit)) [
      | inl y ↦ rw y refl
      | inr n ↦
          let cut = (truncate_message m).0 in
          let ih = truncate_from-is_paired token_limit (before ++ cut ∷ []) ms in
          rw n (
            ih
            ∙ ap (is_paired []) (append_assoc before (cut ∷ []) ms)
            ∙ is_paired-append [] before (cut ∷ ms)
            ∙ ap (λ b. is_paired [] before && b) (is_paired-truncate (open_after [] before) m ms)
            ∙ sym (is_paired-append [] before (m ∷ ms)))
    ]

-- System messages open and close no calls.
open_for-system :
    (r : Role) (calls : List Text) (bs : List ContentBlock)
    → is_role system (record { role = r; content = bs; metadata = no_metadata }) ≡ true
    → open_for r calls bs ≡ calls
open_for-system system calls bs h = refl
open_for-system user calls bs h = cc
open_for-system assistant calls bs h = cc
open_for-system tool calls bs h = cc
open_for-system user_shell calls bs h = cc

system_open :
    (calls : List Text) (m : Message) → is_role system m ≡ true → open_calls calls m ≡ calls
system_open calls m h = open_for-system m.role calls m.content h

pub split_system-all : (ms : List Message) → all (is_role system) (split_system ms).0 ≡ true
unfolding split_system
split_system-all [] = refl
split_system-all (m ∷ ms) = ground (arith, split_system-all ms)

systems-open_after :
    (calls : List Text) (ms : List Message)
    → all (is_role system) ms ≡ true
    → open_after calls ms ≡ calls
systems-open_after calls [] s = refl
systems-open_after calls (m ∷ ms) s =
    let (sm, sl) = both_true (is_role system m) (all (is_role system) ms) s in
    ap (λ c. open_after c ms) (system_open calls m sm) ∙ systems-open_after calls ms sl

retain-is_paired :
    (calls : List Text) (ms : List Message)
    → all (is_role system) ms ≡ true
    → is_paired calls ms ≡ true
    → (is_paired calls (retain ms).0 ≡ true) × (open_after calls (retain ms).0 ≡ calls)
unfolding retain is_paired
retain-is_paired calls [] s h = (refl, refl)
retain-is_paired calls (m ∷ ms) s h =
    let (sm, sl) = both_true (is_role system m) (all (is_role system) ms) s in
    let same = system_open calls m sm in
    let (hm, hl) = both_true (answers_open calls m) (is_paired (open_calls calls m) ms) h in
    let (p, o) = retain-is_paired calls ms sl (sym (ap (λ c. is_paired c ms) same) ∙ hl) in
    let kept = (retain ms).0 in
    elim (Bool-cases (is_summary_message m)) [
      | inl y ↦ rw y (p, o)
      | inr n ↦ rw n (
        ap (λ b. b && is_paired (open_calls calls m) kept) hm ∙ ap (λ c. is_paired c kept) same ∙ p,
        ap (λ c. open_after c kept) same ∙ o,
      )
    ]

summary-is_paired :
    (calls : List Text) (summary : Option StructuredSummary) (ms : List Message)
    → is_paired calls (summary_messages summary ++ ms) ≡ is_paired calls ms
unfolding is_paired
summary-is_paired calls none ms = refl
summary-is_paired calls (some s) ms = refl

Keeps-is_paired :
    (es dropped kept : List (List Message))
    → IsGrouped es
    → is_paired [] (flatten es) ≡ true
    → Keeps es dropped kept
    → is_paired [] (flatten kept) ≡ true
unfolding is_paired
Keeps-is_paired es dropped kept g h (whole e) =
    (is_paired-suffix dropped kept (rw e at g) (rw e at h)).0
Keeps-is_paired es dropped kept g h (part before first rest prefix suffix u cut e d k) =
    let turn = cut.turn in
    let later = cut.later in
    let last : is_paired [] ((first ∷ rest) ++ []) ≡ true =
      (is_paired-suffix before ((first ∷ rest) ∷ []) (rw e at g) (rw e at h)).0 in
    let from_first : is_paired [] (first ∷ (prefix ++ turn ∷ later)) ≡ true =
      rw (append-nil, cut.whole) at last in
    let (user_part, behind) =
      both_true (answers_open [] first) (is_paired (open_calls [] first) (prefix ++ turn ∷ later))
        (unfold is_paired in from_first) in
    let from_turn = is_paired-behind (open_calls [] first) prefix (turn ∷ later) behind in
    rw (k, cut.kept, append-nil)
      (ap (λ b. b && is_paired (open_calls [] first) (turn ∷ later)) user_part
        ∙ is_paired-anew (open_calls [] first) (open_after (open_calls [] first) prefix) turn later
            (ground (arith, cut.is_turn))
        ∙ from_turn)

build_messages-is_paired :
    (sys : List Message) (summary : Option StructuredSummary) (es : List (List Message))
    → is_paired [] sys ≡ true
    → open_after [] sys ≡ []
    → is_paired [] (flatten es) ≡ true
    → is_paired [] (build_messages sys summary es) ≡ true
unfolding build_messages
build_messages-is_paired sys summary es hs o h =
    let behind = summary_messages summary ++ flatten es in
    is_paired-append [] sys behind
    ∙ ap (λ b. b && is_paired (open_after [] sys) behind) hs
    ∙ ap (λ c. is_paired c behind) o
    ∙ summary-is_paired [] summary (flatten es)
    ∙ h

cut_to_fit-is_paired :
    (built : List Message) (token_limit : ℕ)
    → is_paired [] (cut_to_fit built token_limit).0 ≡ is_paired [] built
unfolding cut_to_fit
cut_to_fit-is_paired built token_limit = elim (Bool-cases (fits built token_limit)) [
  | inl y ↦ rw y refl
  | inr n ↦ rw n (truncate_from-is_paired token_limit [] built)
]

trim_body-is_paired :
    (sys : List Message) (carried : List Text) (token_limit : ℕ) (body : List Message)
    → is_paired [] sys ≡ true
    → open_after [] sys ≡ []
    → is_paired [] body ≡ true
    → is_paired [] (trim_body sys carried token_limit body).out ≡ true
unfolding trim_body
trim_body-is_paired sys carried token_limit body hs o hb =
    let es = group_onto [] body in
    let grouped : is_paired [] (flatten es) ≡ true =
      ap (is_paired []) (flatten-group_onto [] body) ∙ hb in
    let (dropped, kept) = trim_exchanges sys carried token_limit es in
    let paired =
      Keeps-is_paired es dropped kept (group_onto-IsGrouped [] body tt) grouped
        ((trim_exchanges-Keeps sys token_limit carried es).0) in
    let summary = final_summary sys carried token_limit dropped kept in
    cut_to_fit-is_paired (build_messages sys summary kept) token_limit
    ∙ build_messages-is_paired sys summary kept hs o paired

-- If every tool result answers a call of the assistant's message before it, since the user's turn,
-- then so it does in the messages that compaction leaves, whatever the limit.
pub compact-is_paired :
    (ms : List Message) (token_limit : ℕ)
    → is_paired [] ms ≡ true
    → is_paired [] (compact ms token_limit) ≡ true
unfolding compact trim
compact-is_paired ms token_limit h = elim (Bool-cases (fits ms token_limit)) [
  | inl y ↦ rw y h
  | inr n ↦
      let leading = (split_system ms).0 in
      let body = (split_system ms).1 in
      let whole : is_paired [] (leading ++ body) ≡ true = rw (split_system-append ms) h in
      let (hl, hb) =
        both_true (is_paired [] leading) (is_paired (open_after [] leading) body)
          (sym (is_paired-append [] leading body) ∙ whole) in
      let s = split_system-all ms in
      let (kept, o) = retain-is_paired [] leading s hl in
      rw n (
        trim_body-is_paired (retain leading).0 (retain leading).1 token_limit body kept o
          (sym (ap (λ c. is_paired c body) (systems-open_after [] leading s)) ∙ hb))
]
