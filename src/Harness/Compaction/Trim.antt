-- ===== src/Harness/Compaction/Trim.antt =====
-- crates/localpilot-harness/src/compaction.rs: the loops of `compact_plan` that drop exchanges, split
-- the last one and cut the outputs of tools.
use unshackled.Prelude.{
  ℕ, suc, ◌+◌, not, ◌&&◌, ◌||◌, Option, none, some, List, [], ◌∷◌, ◌++◌, length, ltb, if◌then◌else◌,
}
use unshackled.Text.{Text, codes}
use unshackled.Core.Messages.{user, assistant, tool, ContentBlock, tool_result, ToolResult, Message}
use unshackled.Core.Summary.{StructuredSummary, has_none}
use unshackled.Harness.Compaction.Sizes.{truncate}
use unshackled.Harness.Compaction.Parts.{
  truncated_output_chars, flatten, is_role, split_system, retain, group_onto, build_messages, fits,
  fold_carried, structured_summary, structured_summary_with,
}

module _ (sys : List Message) (token_limit : ℕ) where
  -- The first loop: what it drops, and what it keeps.
  unfoldable pub drop_oldest : List (List Message) → List (List Message) × List (List Message)
  unfolding fits
  drop_oldest [] = ([], [])
  drop_oldest (e ∷ []) = ([], e ∷ [])
  drop_oldest (e ∷ f ∷ es) =
      let (dropped, kept) = drop_oldest (f ∷ es) in
      if fits (sys ++ flatten (e ∷ f ∷ es)) token_limit
      then ([], e ∷ f ∷ es)
      else (e ∷ dropped, kept)

  module _ (carried : List Text) where
    -- `summary` as it is set after each change of `dropped`.
    unfoldable pub summary_of : List (List Message) → Option StructuredSummary
    unfolding fold_carried structured_summary_with
    summary_of dropped = fold_carried carried (structured_summary dropped)

    -- The second loop, behind the exchanges dropped before.
    unfoldable pub drop_with_summary :
        List (List Message) → List (List Message) → List (List Message) × List (List Message)
    unfolding fits summary_of build_messages
    drop_with_summary dropped [] = (dropped, [])
    drop_with_summary dropped (e ∷ []) = (dropped, e ∷ [])
    drop_with_summary dropped (e ∷ f ∷ es) =
        let more = drop_with_summary (dropped ++ e ∷ []) (f ∷ es) in
        if fits (build_messages sys (summary_of dropped) (e ∷ f ∷ es)) token_limit
        then (dropped, e ∷ f ∷ es)
        else more

    -- The loop over the four smaller budgets.
    unfoldable pub shrink :
        List (List Message)
        → List (List Message)
        → List (ℕ × ℕ)
        → Option StructuredSummary
        → Option StructuredSummary
    unfolding fits fold_carried structured_summary_with build_messages
    shrink dropped exchanges [] summary = summary
    shrink dropped exchanges ((max_exchanges, max_user_chars) ∷ budgets) summary =
        let tried =
          fold_carried carried (structured_summary_with dropped max_exchanges max_user_chars) in
        let later = shrink dropped exchanges budgets tried in
        if fits (build_messages sys tried exchanges) token_limit then tried else later

  -- The loop over the cut points: what lies before the cut, behind the user message, is `before`.
  unfoldable pub find_cut :
      Option StructuredSummary
      → Message
      → List Message
      → Message
      → List Message
      → Option (List Message × List Message)
  unfolding fits build_messages
  find_cut summary first before previous [] = none
  find_cut summary first before previous (m ∷ rest) =
      let later = find_cut summary first (before ++ m ∷ []) m rest in
      if is_role assistant m
        && (is_role tool previous || is_role user previous)
        && fits (build_messages sys summary ((first ∷ m ∷ rest) ∷ [])) token_limit
      then some (before, first ∷ m ∷ rest)
      else later

  unfoldable pub split_oversized_exchange :
      Option StructuredSummary → List Message → Option (List Message × List Message)
  unfolding find_cut
  split_oversized_exchange summary [] = none
  split_oversized_exchange summary (first ∷ []) = none
  split_oversized_exchange summary (first ∷ second ∷ rest) =
      if is_role user first then find_cut summary first (second ∷ []) second rest else none

abbrev pub truncation_mark : Text
truncation_mark = codes "\n[output truncated during context compaction]"

unfoldable pub cut_output : ToolResult → ToolResult
unfolding truncate
cut_output r = record r { output = truncate r.output truncated_output_chars ++ truncation_mark }

unfoldable pub truncate_blocks : List ContentBlock → List ContentBlock × ℕ
truncate_blocks [] = ([], 0)
truncate_blocks (tool_result r ∷ bs) =
    let (cut, n) = truncate_blocks bs in
    if ltb truncated_output_chars (length r.output)
    then (tool_result (cut_output r) ∷ cut, suc n)
    else (tool_result r ∷ cut, n)
truncate_blocks (b ∷ bs) = let (cut, n) = truncate_blocks bs in (b ∷ cut, n)

unfoldable pub truncate_message : Message → Message × ℕ
unfolding truncate_blocks
truncate_message m = let (cut, n) = truncate_blocks m.content in (record m { content = cut }, n)

-- The loop over the messages; those before the index are `done`.
unfoldable pub truncate_from : ℕ → List Message → List Message → List Message × ℕ
unfolding fits truncate_message
truncate_from token_limit before [] = (before, 0)
truncate_from token_limit before (m ∷ ms) =
    let (cut, n) = truncate_message m in
    let (all_cut, k) = truncate_from token_limit (before ++ cut ∷ []) ms in
    if fits (before ++ m ∷ ms) token_limit then (before ++ m ∷ ms, 0) else (all_cut, n + k)

abbrev pub truncate_oldest_tool_results : List Message → ℕ → List Message × ℕ
truncate_oldest_tool_results ms token_limit = truncate_from token_limit [] ms

-- The last resort, and the number of outputs that it cut.
unfoldable pub cut_to_fit : List Message → ℕ → List Message × ℕ
unfolding fits truncate_from
cut_to_fit built token_limit =
    if fits built token_limit then (built, 0) else truncate_oldest_tool_results built token_limit

-- The state of `compact_plan` when its messages are built.
pub record Trimmed : Type 0 where
  pub system_messages : List Message
  pub carried : List Text
  pub dropped : List (List Message)
  pub exchanges : List (List Message)
  pub summary : Option StructuredSummary
  pub out : List Message
  pub truncated_tool_results : ℕ

abbrev pub split_into :
    List (List Message)
    → List Message
    → Option (List Message × List Message)
    → List (List Message) × List (List Message)
split_into dropped e none = (dropped, e ∷ [])
split_into dropped e (some (before, suffix)) = (dropped ++ before ∷ [], suffix ∷ [])

module _ (sys : List Message) (carried : List Text) (token_limit : ℕ) where
  -- The split of a single remaining exchange that does not fit.
  unfoldable pub split_last :
      List (List Message) → List (List Message) → List (List Message) × List (List Message)
  unfolding split_oversized_exchange fits build_messages summary_of
  split_last dropped (e ∷ []) =
      let summary = summary_of sys token_limit carried dropped in
      if fits (build_messages sys summary (e ∷ [])) token_limit
      then (dropped, e ∷ [])
      else split_into dropped e (split_oversized_exchange sys token_limit summary e)
  split_last dropped exchanges = (dropped, exchanges)

  abbrev pub smaller_budgets : List (ℕ × ℕ)
  smaller_budgets = (4, 60) ∷ (2, 60) ∷ (1, 60) ∷ (1, 30) ∷ []

  -- The summary that is left when the messages are built.
  unfoldable pub final_summary :
      List (List Message) → List (List Message) → Option StructuredSummary
  unfolding shrink fits build_messages summary_of
  final_summary dropped exchanges =
      let summary = summary_of sys token_limit carried dropped in
      let smaller = shrink sys token_limit carried dropped exchanges smaller_budgets summary in
      if not (fits (build_messages sys summary exchanges) token_limit) && not (has_none dropped)
      then (if fits (build_messages sys smaller exchanges) token_limit then smaller else none)
      else summary

  -- What is dropped and what is kept of the exchanges.
  unfoldable pub trim_exchanges : List (List Message) → List (List Message) × List (List Message)
  unfolding drop_oldest drop_with_summary split_last
  trim_exchanges exchanges =
      let (dropped, kept) = drop_oldest sys token_limit exchanges in
      let (dropped', kept') = drop_with_summary sys token_limit carried dropped kept in
      split_last dropped' kept'

  unfoldable pub trim_body : List Message → Trimmed
  unfolding trim_exchanges final_summary build_messages cut_to_fit group_onto
  trim_body body =
      let (dropped, exchanges) = trim_exchanges (group_onto [] body) in
      let summary = final_summary dropped exchanges in
      let built = build_messages sys summary exchanges in
      let (out, truncated) = cut_to_fit built token_limit in
      record {
        system_messages = sys;
        carried = carried;
        dropped = dropped;
        exchanges = exchanges;
        summary = summary;
        out = out;
        truncated_tool_results = truncated;
      }

-- `compact_plan` on messages that do not fit the limit.
unfoldable pub trim : List Message → ℕ → Trimmed
unfolding split_system retain trim_body
trim ms token_limit =
    let (leading, body) = split_system ms in
    let (sys, carried) = retain leading in trim_body sys carried token_limit body

-- `compact`: the messages of `compact_plan`.
unfoldable pub compact : List Message → ℕ → List Message
unfolding fits trim
compact ms token_limit = if fits ms token_limit then ms else (trim ms token_limit).out
