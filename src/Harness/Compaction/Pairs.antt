-- ===== src/Harness/Compaction/Pairs.antt =====
-- Tool calls and their results in a conversation.
use unshackled.Prelude.{
  ◌≡◌, refl, sym, ap, ◌∙◌, Bool, true, false, ◌&&◌, ◌||◌, List, [], ◌∷◌, ◌++◌, all, arith, All,
}
use unshackled.Text.{Text, one_of}
use unshackled.Core.Messages.{
  Role, system, user, assistant, tool, user_shell, ContentBlock, tool_use, tool_result, Message,
}
use unshackled.Harness.Compaction.Parts.{flatten, is_role}

abbrev pub call_ids : List ContentBlock → List Text
call_ids [] = []
call_ids (tool_use call ∷ bs) = call.id ∷ call_ids bs
call_ids (b ∷ bs) = call_ids bs

abbrev pub result_ids : List ContentBlock → List Text
result_ids [] = []
result_ids (tool_result r ∷ bs) = r.id ∷ result_ids bs
result_ids (b ∷ bs) = result_ids bs

-- The calls that a result may answer: those of the last assistant message since the user's turn.
abbrev pub open_for : Role → List Text → List ContentBlock → List Text
open_for user calls bs = []
open_for assistant calls bs = call_ids bs
open_for _ calls bs = calls

abbrev pub open_calls : List Text → Message → List Text
open_calls calls m = open_for m.role calls m.content

abbrev pub answers_open : List Text → Message → Bool
answers_open calls m = all (λ id. one_of id (open_calls calls m)) (result_ids m.content)

-- Every tool result answers a call that is open where it stands.
unfoldable pub is_paired : List Text → List Message → Bool
is_paired calls [] = true
is_paired calls (m ∷ ms) = answers_open calls m && is_paired (open_calls calls m) ms

abbrev pub open_after : List Text → List Message → List Text
open_after calls [] = calls
open_after calls (m ∷ ms) = open_after (open_calls calls m) ms

pub is_paired-append :
    (calls : List Text) (a b : List Message)
    → is_paired calls (a ++ b) ≡ (is_paired calls a && is_paired (open_after calls a) b)
unfolding is_paired
is_paired-append calls [] b = refl
is_paired-append calls (m ∷ a) b = ground (arith, is_paired-append (open_calls calls m) a b)

pub both_true : (a b : Bool) → (a && b) ≡ true → (a ≡ true) × (b ≡ true)
both_true a b h = ground (arith, h)

pub is_paired-behind :
    (calls : List Text) (a b : List Message)
    → is_paired calls (a ++ b) ≡ true
    → is_paired (open_after calls a) b ≡ true
is_paired-behind calls a b h =
    (both_true (is_paired calls a) (is_paired (open_after calls a) b)
      (sym (is_paired-append calls a b) ∙ h)).1

-- The calls before a user's or an assistant's message do not matter for it.
abbrev pub opens_anew : Message → Bool
opens_anew m = is_role user m || is_role assistant m

open_calls-anew :
    (calls other : List Text) (m : Message)
    → opens_anew m ≡ true
    → open_calls calls m ≡ open_calls other m
open_calls-anew calls other m h = by_role m.role h
  where
    by_role :
        (r : Role)
        → (is_role user (record m { role = r }) || is_role assistant (record m { role = r })) ≡ true
        → open_for r calls m.content ≡ open_for r other m.content
    by_role user h = refl
    by_role assistant h = refl
    by_role system h = cc
    by_role tool h = cc
    by_role user_shell h = cc

pub is_paired-anew :
    (calls other : List Text) (m : Message) (ms : List Message)
    → opens_anew m ≡ true
    → is_paired calls (m ∷ ms) ≡ is_paired other (m ∷ ms)
unfolding is_paired
is_paired-anew calls other m ms h =
    ap (λ c. all (λ id. one_of id c) (result_ids m.content) && is_paired c ms)
      (open_calls-anew calls other m h)

abbrev pub starts_user : List Message → Bool
starts_user [] = false
starts_user (m ∷ ms) = is_role user m

abbrev pub Headed : List (List Message) → Type 0
Headed = All (λ e. starts_user e ≡ true)

-- Every exchange but the first starts with a user message.
abbrev pub IsGrouped : List (List Message) → Type 0
IsGrouped [] = Unit {0}
IsGrouped (e ∷ es) = Headed es

is_paired-Headed :
    (calls other : List Text) (es : List (List Message))
    → Headed es
    → is_paired calls (flatten es) ≡ is_paired other (flatten es)
is_paired-Headed calls other [] h = unfold is_paired in refl
is_paired-Headed calls other ([] ∷ es) h = ground (arith, h.0)
is_paired-Headed calls other ((m ∷ e) ∷ es) h =
    is_paired-anew calls other m (e ++ flatten es) (ground (arith, h.0))

-- A suffix of the exchanges.
pub is_paired-suffix :
    (dropped kept : List (List Message))
    → IsGrouped (dropped ++ kept)
    → is_paired [] (flatten (dropped ++ kept)) ≡ true
    → (is_paired [] (flatten kept) ≡ true) × IsGrouped kept
is_paired-suffix [] kept g h = (h, g)
is_paired-suffix (e ∷ dropped) kept g h =
    is_paired-suffix dropped kept (Headed-IsGrouped (dropped ++ kept) g) (
      is_paired-Headed [] (open_after [] e) (dropped ++ kept) g
      ∙ is_paired-behind [] e (flatten (dropped ++ kept)) h)
  where
    Headed-IsGrouped : (es : List (List Message)) → Headed es → IsGrouped es
    Headed-IsGrouped [] h = tt
    Headed-IsGrouped (e ∷ es) h = h.1
