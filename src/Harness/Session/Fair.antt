-- ===== src/Harness/Session/Fair.antt =====
-- The contract on tools in the history of a session: every result answers an open call, and every
-- call is answered before the next turn.
use unshackled.Prelude.{
  ℕ, ◌≡◌, refl, sym, ap, ◌∙◌, Bool, true, false, not, ◌&&◌, ◌||◌, List, [], ◌∷◌, ◌++◌, all,
  append-nil, arith, if◌then◌else◌, Bool-cases, inl, inr,
}
use unshackled.Text.{Text, text_eq, one_of}
use unshackled.Text.Laws.{text_eq_refl}
use unshackled.Core.Messages.{
  system, user, assistant, tool, ContentBlock, tool_result, Message, new, text_message, ToolResult,
  MessageMetadata, text,
}
use unshackled.Core.Summary.{has_none}
use unshackled.Harness.Compaction.Parts.{is_role}
use unshackled.Harness.Compaction.Trim.{truncate_message, compact}
use unshackled.Harness.Compaction.Pairs.{
  call_ids, result_ids, open_calls, answers_open, is_paired, open_after, is_paired-append,
  both_true, opens_anew,
}
use unshackled.Harness.Compaction.Compact.{compact-is_paired, truncate_blocks-ids}
use unshackled.Harness.Compaction.Merge.{is_system}
use unshackled.Harness.Compaction.Answers.{
  answers, is_answered, is_answered-append, compact-is_answered,
}
use unshackled.Harness.Compaction.Every.{all-join, compact-all}
use unshackled.Harness.Session.History.{
  is_retrieval, without_retrieval, retrieval_block, into_synthetic, retrieval_context_marker,
}

-- A block of retrieved context is a system message, and holds no result.
abbrev pub is_plain : Message → Bool
is_plain m = not (is_retrieval m) || (is_role system m && has_none (result_ids m.content))

-- A history in which the results of the calls `pending`, of the last turn, are still to come.
pub record Pending (pending : List Text) (ms : List Message) : Type 0 where
  pub paired : is_paired [] ms ≡ true
  pub answered : is_answered pending ms ≡ true
  pub opened : all (λ id. one_of id (open_after [] ms)) pending ≡ true
  pub plain : all is_plain ms ≡ true

-- A history in which no call is left without its result.
abbrev pub IsFair : List Message → Type 0
IsFair = Pending []

open_after-append :
    (calls : List Text) (a b : List Message)
    → open_after calls (a ++ b) ≡ open_after (open_after calls a) b
open_after-append calls [] b = refl
open_after-append calls (m ∷ a) b = open_after-append (open_calls calls m) a b

-- The result of the next pending call.
pub Pending-result :
    (pending : List Text) (ms : List Message) (r : ToolResult)
    → Pending (r.id ∷ pending) ms
    → Pending pending (ms ++ new tool (tool_result r ∷ []) ∷ [])
unfolding is_paired is_answered is_retrieval
Pending-result pending ms r h =
    let m = new tool (tool_result r ∷ []) in
    let (first, others) =
      both_true (one_of r.id (open_after [] ms)) (all (λ id. one_of id (open_after [] ms)) pending)
        h.opened in
    record {
      paired =
          is_paired-append [] ms (m ∷ [])
          ∙ ap (λ b. b && ((one_of r.id (open_after [] ms) && true) && true)) h.paired
          ∙ ap (λ b. (b && true) && true) first;
      answered = is_answered-append pending ms (m ∷ []) ∙ ap (λ b. b && true) h.answered;
      opened =
          ap (λ c. all (λ id. one_of id c) pending) (open_after-append [] ms (m ∷ [])) ∙ others;
      plain = all-join is_plain ms (m ∷ []) h.plain refl;
    }

abbrev pub user_message : MessageMetadata → Text → Message
user_message metadata t = record { role = user; content = text t ∷ []; metadata = metadata }

-- A text of the user, once no result is to come.
pub Pending-user :
    (ms : List Message) (metadata : MessageMetadata) (t : Text)
    → is_retrieval (user_message metadata t) ≡ false
    → IsFair ms
    → IsFair (ms ++ user_message metadata t ∷ [])
unfolding is_paired is_answered
Pending-user ms metadata t g h =
    let m = user_message metadata t in
    record {
      paired = is_paired-append [] ms (m ∷ []) ∙ ap (λ b. b && true) h.paired;
      answered = is_answered-append [] ms (m ∷ []) ∙ ap (λ b. b && true) h.answered;
      opened = refl;
      plain = all-join is_plain ms (m ∷ []) h.plain (rw g refl);
    }

one_of_self : (id : Text) (ids : List Text) → one_of id (id ∷ ids) ≡ true
unfolding one_of
one_of_self id ids = rw (text_eq_refl id) refl

all-weaken :
    (id : Text) (xs ids : List Text)
    → all (λ x. one_of x ids) xs ≡ true
    → all (λ x. one_of x (id ∷ ids)) xs ≡ true
unfolding one_of
all-weaken id [] ids h = refl
all-weaken id (x ∷ xs) ids h = ground (arith, h, all-weaken id xs ids)

all_self : (ids : List Text) → all (λ x. one_of x ids) ids ≡ true
all_self [] = refl
all_self (id ∷ ids) =
    ap (λ b. b && all (λ x. one_of x (id ∷ ids)) ids) (one_of_self id ids)
    ∙ all-weaken id ids ids (all_self ids)

-- The assistant's turn: its calls are pending.
pub Pending-assistant :
    (ms : List Message) (bs : List ContentBlock)
    → result_ids bs ≡ []
    → IsFair ms
    → Pending (call_ids bs) (ms ++ new assistant bs ∷ [])
unfolding is_paired is_answered is_retrieval
Pending-assistant ms bs e h =
    let m = new assistant bs in
    let ids = call_ids bs in
    record {
      paired =
          is_paired-append [] ms (m ∷ [])
          ∙ ap (λ b. b && (all (λ id. one_of id ids) (result_ids bs) && true)) h.paired
          ∙ ap (λ r. all (λ id. one_of id ids) r && true) e;
      answered =
          is_answered-append ids ms (m ∷ [])
          ∙ ap (λ b. b && (all (λ id. one_of id ids) ids && true)) h.answered
          ∙ ap (λ b. b && true) (all_self ids);
      opened =
          ap (λ c. all (λ id. one_of id c) ids) (open_after-append [] ms (m ∷ [])) ∙ all_self ids;
      plain = all-join is_plain ms (m ∷ []) h.plain refl;
    }

-- The blocks of retrieved context can go.
module _ (m : Message) (marked : is_retrieval m ≡ true) (p : is_plain m ≡ true) where
  marked_plain : (is_role system m ≡ true) × (result_ids m.content ≡ [])
  marked_plain =
      let (s, n) =
        both_true (is_role system m) (has_none (result_ids m.content))
          (ground (arith, marked, p)) in
      (s, of_none (result_ids m.content) n)
    where
      of_none : (xs : List Text) → has_none xs ≡ true → xs ≡ []
      of_none [] h = refl
      of_none (x ∷ xs) h = cc

  marked-is_paired :
      (calls : List Text) (ms : List Message) → is_paired calls (m ∷ ms) ≡ is_paired calls ms
  unfolding is_paired
  marked-is_paired calls ms = let (s, e) = marked_plain in rw (is_system m.role s, e) refl

  marked-answers : (more : List Text) (ms : List Message) → answers more (m ∷ ms) ≡ answers more ms
  marked-answers more ms = let (s, e) = marked_plain in rw (is_system m.role s, e) refl

  marked-is_answered :
      (more : List Text) (ms : List Message) → is_answered more (m ∷ ms) ≡ is_answered more ms
  unfolding is_answered
  marked-is_answered more ms = let (s, e) = marked_plain in rw (is_system m.role s) refl

without-is_paired :
    (calls : List Text) (ms : List Message)
    → all is_plain ms ≡ true
    → is_paired calls (without_retrieval ms) ≡ is_paired calls ms
unfolding without_retrieval is_paired
without-is_paired calls [] h = refl
without-is_paired calls (m ∷ ms) h =
    let (p, ps) = both_true (is_plain m) (all is_plain ms) h in
    elim (Bool-cases (is_retrieval m)) [
      | inl y ↦ rw y (without-is_paired calls ms ps ∙ sym (marked-is_paired m y p calls ms))
      | inr n ↦
          rw n (ap (λ b. answers_open calls m && b) (without-is_paired (open_calls calls m) ms ps))
    ]

without-answers :
    (more : List Text) (ms : List Message)
    → all is_plain ms ≡ true
    → answers more (without_retrieval ms) ≡ answers more ms
unfolding without_retrieval
without-answers more [] h = refl
without-answers more (m ∷ ms) h =
    let (p, ps) = both_true (is_plain m) (all is_plain ms) h in
    elim (Bool-cases (is_retrieval m)) [
      | inl y ↦ rw y (without-answers more ms ps ∙ sym (marked-answers m y p more ms))
      | inr n ↦ rw n (
          ap (λ x. if opens_anew m then [] else result_ids m.content ++ x)
            (without-answers more ms ps))
    ]

without-is_answered :
    (more : List Text) (ms : List Message)
    → all is_plain ms ≡ true
    → is_answered more (without_retrieval ms) ≡ is_answered more ms
unfolding without_retrieval is_answered
without-is_answered more [] h = refl
without-is_answered more (m ∷ ms) h =
    let (p, ps) = both_true (is_plain m) (all is_plain ms) h in
    elim (Bool-cases (is_retrieval m)) [
      | inl y ↦ rw y (without-is_answered more ms ps ∙ sym (marked-is_answered m y p more ms))
      | inr n ↦ rw n (rw (without-answers more ms ps, without-is_answered more ms ps) refl)
    ]

without-plain :
    (ms : List Message) → all is_plain ms ≡ true → all is_plain (without_retrieval ms) ≡ true
unfolding without_retrieval
without-plain [] h = refl
without-plain (m ∷ ms) h =
    let (p, ps) = both_true (is_plain m) (all is_plain ms) h in
    elim (Bool-cases (is_retrieval m)) [
      | inl y ↦ rw y (without-plain ms ps)
      | inr n ↦ rw n (ap (λ b. b && all is_plain (without_retrieval ms)) p ∙ without-plain ms ps)
    ]

pub without_retrieval-IsFair : (ms : List Message) → IsFair ms → IsFair (without_retrieval ms)
without_retrieval-IsFair ms h = record {
  paired = without-is_paired [] ms h.plain ∙ h.paired;
  answered = without-is_answered [] ms h.plain ∙ h.answered;
  opened = refl;
  plain = without-plain ms h.plain;
}

-- The new block of retrieved context.
pub retrieval_block-IsFair :
    (ms : List Message) (t : Text) → IsFair ms → IsFair (ms ++ retrieval_block t)
unfolding is_paired is_answered is_retrieval text_eq
retrieval_block-IsFair ms [] h = rw append-nil h
retrieval_block-IsFair ms (c ∷ t) h =
    let m = into_synthetic retrieval_context_marker (text_message system (c ∷ t)) in
    record {
      paired = is_paired-append [] ms (m ∷ []) ∙ ap (λ b. b && true) h.paired;
      answered = is_answered-append [] ms (m ∷ []) ∙ ap (λ b. b && true) h.answered;
      opened = refl;
      plain = all-join is_plain ms (m ∷ []) h.plain refl;
    }

cut_same : (m : Message) → is_plain (truncate_message m).0 ≡ is_plain m
unfolding truncate_message is_retrieval
cut_same m = rw ((truncate_blocks-ids m.content).1) refl

-- Compaction leaves a fair history fair.
pub compact-IsFair :
    (ms : List Message) (token_limit : ℕ) → IsFair ms → IsFair (compact ms token_limit)
compact-IsFair ms token_limit h = record {
  paired = compact-is_paired ms token_limit h.paired;
  answered = compact-is_answered ms token_limit h.answered;
  opened = refl;
  plain = compact-all is_plain cut_same (λ t. unfold is_retrieval in refl) ms token_limit h.plain;
}
