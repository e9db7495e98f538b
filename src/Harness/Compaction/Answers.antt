-- ===== src/Harness/Compaction/Answers.antt =====
-- The other half of the contract on tools: every call is answered before the next turn.
use unshackled.Prelude.{
  ℕ, ◌≡◌, refl, sym, ap, ◌∙◌, Bool, true, ◌&&◌, Option, none, some, List, [], ◌∷◌, ◌++◌, all,
  append_assoc, append-nil, arith, if◌then◌else◌, Bool-cases, inl, inr,
}
use unshackled.Text.{Text, one_of}
use unshackled.Core.Messages.{
  Role, system, user, assistant, tool, user_shell, ContentBlock, Message, new, role_eq,
}
use unshackled.Core.Summary.{StructuredSummary}
use unshackled.Harness.Compaction.Parts.{
  flatten, is_role, split_system, retain, summary_messages, group_onto, build_messages, fits,
}
use unshackled.Harness.Compaction.Trim.{truncate_blocks, truncate_message, trim, compact}
use unshackled.Harness.Compaction.Pairs.{call_ids, result_ids, both_true, opens_anew}
use unshackled.Harness.Compaction.Loops.{split_system-append, flatten-append}
use unshackled.Harness.Compaction.Compact.{truncate_blocks-ids, split_system-all}
use unshackled.Harness.Compaction.Merge.{
  push_merged, merge_onto, merge_consecutive_system, is_system, result_ids-append, both_system,
}
use unshackled.Harness.Compaction.History.{Keeps, whole, part}
use unshackled.Harness.Compaction.Budget.{Shortened, trim-Keeps}

abbrev pub calls_for : Role → List ContentBlock → List Text
calls_for assistant bs = call_ids bs
calls_for _ bs = []

-- The results in sight: those up to the next turn, and `more` if there is none.
abbrev pub answers : List Text → List Message → List Text
answers more [] = more
answers more (m ∷ ms) = if opens_anew m then [] else result_ids m.content ++ answers more ms

abbrev pub is_answered_by : List Text → Message → Bool
is_answered_by ids m = all (λ id. one_of id ids) (calls_for m.role m.content)

-- Every call has an answer, if `more` are still to come at the end.
unfoldable pub is_answered : List Text → List Message → Bool
is_answered more [] = true
is_answered more (m ∷ ms) = is_answered_by (answers more ms) m && is_answered more ms

pub answers-append :
    (more : List Text) (a b : List Message) → answers more (a ++ b) ≡ answers (answers more b) a
answers-append more [] b = refl
answers-append more (m ∷ a) b =
    ap (λ x. if opens_anew m then [] else result_ids m.content ++ x) (answers-append more a b)

pub is_answered-append :
    (more : List Text) (a b : List Message)
    → is_answered more (a ++ b) ≡ (is_answered (answers more b) a && is_answered more b)
unfolding is_answered
is_answered-append more [] b = refl
is_answered-append more (m ∷ a) b =
    rw (answers-append more a b, is_answered-append more a b) (ground arith)

pub is_answered-behind :
    (a b : List Message) → is_answered [] (a ++ b) ≡ true → is_answered [] b ≡ true
is_answered-behind a b h =
    (both_true (is_answered (answers [] b) a) (is_answered [] b)
      (sym (is_answered-append [] a b) ∙ h)).1

-- A system message has no calls.
system_calls : (r : Role) (bs : List ContentBlock) → r ≡ system → calls_for r bs ≡ []
system_calls r bs e = rw e refl

systems-is_answered :
    (sys ms : List Message)
    → all (is_role system) sys ≡ true
    → is_answered [] ms ≡ true
    → is_answered [] (sys ++ ms) ≡ true
unfolding is_answered
systems-is_answered [] ms s h = h
systems-is_answered (m ∷ sys) ms s h =
    let (sm, sl) = both_true (is_role system m) (all (is_role system) sys) s in
    rw (system_calls m.role m.content (is_system m.role sm)) (systems-is_answered sys ms sl h)

-- What is cut in the outputs changes nothing.
truncated_calls :
    (r : Role) (bs : List ContentBlock) → calls_for r (truncate_blocks bs).0 ≡ calls_for r bs
truncated_calls assistant bs = (truncate_blocks-ids bs).0
truncated_calls user bs = refl
truncated_calls system bs = refl
truncated_calls tool bs = refl
truncated_calls user_shell bs = refl

Shortened-answers :
    (more : List Text) (ms ns : List Message) → Shortened ms ns → answers more ns ≡ answers more ms
unfolding truncate_message
Shortened-answers more [] [] h = refl
Shortened-answers more [] (n ∷ ns) h = absurd h
Shortened-answers more (m ∷ ms) [] h = absurd h
Shortened-answers more (m ∷ ms) (n ∷ ns) (inl e, h) = rw (e, Shortened-answers more ms ns h) refl
Shortened-answers more (m ∷ ms) (n ∷ ns) (inr e, h) =
    rw (e, Shortened-answers more ms ns h, (truncate_blocks-ids m.content).1) refl

Shortened-is_answered :
    (more : List Text) (ms ns : List Message)
    → Shortened ms ns
    → is_answered more ns ≡ is_answered more ms
unfolding is_answered truncate_message
Shortened-is_answered more [] [] h = refl
Shortened-is_answered more [] (n ∷ ns) h = absurd h
Shortened-is_answered more (m ∷ ms) [] h = absurd h
Shortened-is_answered more (m ∷ ms) (n ∷ ns) (inl e, h) =
    rw (e, Shortened-answers more ms ns h, Shortened-is_answered more ms ns h) refl
Shortened-is_answered more (m ∷ ms) (n ∷ ns) (inr e, h) =
    rw
      (
        e,
        Shortened-answers more ms ns h,
        Shortened-is_answered more ms ns h,
        truncated_calls m.role m.content,
      )
      refl

user_calls : (r : Role) (bs : List ContentBlock) → r ≡ user → calls_for r bs ≡ []
user_calls r bs e = rw e refl

is_user : (r : Role) → role_eq r user ≡ true → r ≡ user
is_user user h = refl
is_user system h = ground (arith, h)
is_user assistant h = ground (arith, h)
is_user tool h = ground (arith, h)
is_user user_shell h = ground (arith, h)

pub user-is_answered :
    (m : Message) (ms : List Message)
    → is_role user m ≡ true
    → is_answered [] (m ∷ ms) ≡ is_answered [] ms
unfolding is_answered
user-is_answered m ms u = rw (user_calls m.role m.content (is_user m.role u)) refl

Keeps-is_answered :
    (es dropped kept : List (List Message))
    → is_answered [] (flatten es) ≡ true
    → Keeps es dropped kept
    → is_answered [] (flatten kept) ≡ true
Keeps-is_answered es dropped kept h (whole e) =
    is_answered-behind (flatten dropped) (flatten kept) (rw (e, flatten-append dropped kept) at h)
Keeps-is_answered es dropped kept h (part before first rest prefix suffix u cut e d k) =
    let last : is_answered [] ((first ∷ rest) ++ []) ≡ true =
      is_answered-behind (flatten before) ((first ∷ rest) ++ [])
        (rw (e, flatten-append before ((first ∷ rest) ∷ [])) at h) in
    let from_first : is_answered [] ((first ∷ prefix) ++ cut.turn ∷ cut.later) ≡ true =
      rw (append-nil, cut.whole) at last in
    rw (k, cut.kept, append-nil)
      (user-is_answered first (cut.turn ∷ cut.later) u
        ∙ is_answered-behind (first ∷ prefix) (cut.turn ∷ cut.later) from_first)

retain-systems :
    (ms : List Message) → all (is_role system) ms ≡ true → all (is_role system) (retain ms).0 ≡ true
unfolding retain
retain-systems [] s = refl
retain-systems (m ∷ ms) s = ground (arith, s, retain-systems ms)

summary_system :
    (summary : Option StructuredSummary) → all (is_role system) (summary_messages summary) ≡ true
summary_system none = refl
summary_system (some s) = refl

trim-is_answered :
    (ms : List Message) (token_limit : ℕ)
    → is_answered [] ms ≡ true
    → is_answered [] (trim ms token_limit).out ≡ true
trim-is_answered ms token_limit h =
    let leading = (split_system ms).0 in
    let body = (split_system ms).1 in
    let sys = (retain leading).0 in
    let summary = (trim ms token_limit).summary in
    let kept = (trim ms token_limit).exchanges in
    let (grouped, _, _, keeps, some_kept, short) = trim-Keeps ms token_limit in
    let of_body : is_answered [] (flatten (group_onto [] body)) ≡ true =
      ap (is_answered []) grouped
      ∙ is_answered-behind leading body (ap (is_answered []) (split_system-append ms) ∙ h) in
    let of_kept =
      Keeps-is_answered (group_onto [] body) (trim ms token_limit).dropped kept of_body keeps in
    Shortened-is_answered [] (build_messages sys summary kept) (trim ms token_limit).out short
    ∙ unfold build_messages in
      systems-is_answered sys (summary_messages summary ++ flatten kept)
        (retain-systems leading (split_system-all ms))
        (systems-is_answered (summary_messages summary) (flatten kept) (summary_system summary)
          of_kept)

-- If every call of a conversation is answered before the next turn, then so it is in the messages
-- that compaction leaves, whatever the limit.
pub compact-is_answered :
    (ms : List Message) (token_limit : ℕ)
    → is_answered [] ms ≡ true
    → is_answered [] (compact ms token_limit) ≡ true
unfolding compact
compact-is_answered ms token_limit h = elim (Bool-cases (fits ms token_limit)) [
  | inl y ↦ rw y h
  | inr n ↦ rw n (trim-is_answered ms token_limit h)
]

-- Joining two system messages changes neither the results in sight nor the calls.
joined_answers :
    (r s : Role) (a b : List ContentBlock) (later : List Text)
    → r ≡ system
    → s ≡ system
    → (if opens_anew (new r (a ++ b)) then [] else result_ids (a ++ b) ++ later) ≡ (
        if opens_anew (new r a)
        then []
        else result_ids a ++ (if opens_anew (new s b) then [] else result_ids b ++ later))
joined_answers r s a b later e f =
    rw (e, f, result_ids-append a b) (append_assoc (result_ids a) (result_ids b) later)

answers-push_merged :
    (more : List Text) (out : List Message) (m : Message) (ms : List Message)
    → answers more (push_merged out m ++ ms) ≡ answers more (out ++ m ∷ ms)
unfolding push_merged
answers-push_merged more [] m ms = refl
answers-push_merged more (l ∷ k ∷ out) m ms =
    ap (λ x. if opens_anew l then [] else result_ids l.content ++ x)
      (answers-push_merged more (k ∷ out) m ms)
answers-push_merged more (last ∷ []) m ms = elim (Bool-cases (both_system last m)) [
  | inl y ↦
      let (sl, sm) = both_true (is_role system last) (is_role system m) y in
      rw y (
        joined_answers last.role m.role last.content m.content (answers more ms)
          (is_system last.role sl) (is_system m.role sm))
  | inr n ↦ rw n refl
]

is_answered-push_merged :
    (more : List Text) (out : List Message) (m : Message) (ms : List Message)
    → is_answered more (push_merged out m ++ ms) ≡ is_answered more (out ++ m ∷ ms)
unfolding push_merged is_answered
is_answered-push_merged more [] m ms = refl
is_answered-push_merged more (l ∷ k ∷ out) m ms =
    rw (answers-push_merged more (k ∷ out) m ms, is_answered-push_merged more (k ∷ out) m ms) refl
is_answered-push_merged more (last ∷ []) m ms = elim (Bool-cases (both_system last m)) [
  | inl y ↦
      let (sl, sm) = both_true (is_role system last) (is_role system m) y in
      rw y (
        rw
          (
            system_calls last.role (last.content ++ m.content) (is_system last.role sl),
            system_calls last.role last.content (is_system last.role sl),
            system_calls m.role m.content (is_system m.role sm),
          )
          refl)
  | inr n ↦ rw n refl
]

is_answered-merge_onto :
    (out ms : List Message) → is_answered [] (merge_onto out ms) ≡ is_answered [] (out ++ ms)
unfolding merge_onto
is_answered-merge_onto out [] = ap (is_answered []) (sym (append-nil out))
is_answered-merge_onto out (m ∷ ms) =
    is_answered-merge_onto (push_merged out m) ms ∙ is_answered-push_merged [] out m ms

-- Merging system messages leaves every call answered that was.
pub merge_consecutive_system-is_answered :
    (ms : List Message) → is_answered [] (merge_consecutive_system ms) ≡ is_answered [] ms
merge_consecutive_system-is_answered ms = is_answered-merge_onto [] ms
