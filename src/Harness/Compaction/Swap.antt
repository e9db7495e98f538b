-- ===== src/Harness/Compaction/Swap.antt =====
-- crates/localpilot-harness/src/compaction.rs: `apply_smart_digest`, the change to a smart digest.
use unshackled.Prelude.{ℕ, ◌+◌, ◌/◌, Option, none, some, List, [], ◌∷◌, length, ltb, if◌then◌else◌}
use unshackled.Text.{Text, codes}
use unshackled.Core.Messages.{system, Message, text_message}
use unshackled.Core.Summary.{SummaryBudget, StructuredSummary, render}
use unshackled.Harness.Compaction.Sizes.{byte_len, estimate_tokens}
use unshackled.Harness.Compaction.Parts.{is_summary_message}
use unshackled.Harness.Compaction.Plan.{
  deterministic, smart_with_fallback, CompactionResult, count_messages,
}

abbrev pub cons_message : Message → Option (List Message) → Option (List Message)
cons_message m none = none
cons_message m (some ms) = some (m ∷ ms)

-- The first summary message replaced; `none` if there is none.
unfoldable pub swap_summary : List Message → StructuredSummary → Option (List Message)
unfolding is_summary_message render
swap_summary [] smart = none
swap_summary (m ∷ ms) smart =
    let later = cons_message m (swap_summary ms smart) in
    if is_summary_message m then some (text_message system (render smart) ∷ ms) else later

abbrev pub fall_back : CompactionResult → Text → CompactionResult
fall_back r reason = record r {
  metadata = record r.metadata { used_mode = deterministic; fallback_reason = some reason };
}

abbrev pub smart_budget : CompactionResult → ℕ → List Message → SummaryBudget
smart_budget r dropped swapped = record {
  estimated_tokens = estimate_tokens swapped;
  original_messages = dropped + length swapped;
  kept_messages = length swapped;
  dropped_messages = dropped;
  truncated_tool_results = r.metadata.truncated_tool_results;
  truncation_reason = none;
}

abbrev pub swap_in :
    CompactionResult → List (List Message) → StructuredSummary → List Message → CompactionResult
swap_in r dropped smart swapped =
    let digest = record smart { budget = smart_budget r (count_messages dropped) swapped } in
    record r {
      messages = swapped;
      summary = some digest;
      metadata = record r.metadata {
        used_mode = smart_with_fallback;
        digest_estimate_tokens = byte_len (render digest) / 4;
      };
    }

abbrev pub apply_swapped :
    CompactionResult
    → List (List Message)
    → StructuredSummary
    → ℕ
    → Option (List Message)
    → CompactionResult
apply_swapped r dropped smart token_limit none =
    fall_back r (codes "deterministic summary was dropped; smart digest not applied")
apply_swapped r dropped smart token_limit (some swapped) =
    if ltb token_limit (estimate_tokens swapped)
    then fall_back r (codes "smart summary exceeded budget")
    else swap_in r dropped smart swapped

unfoldable pub apply_smart_digest :
    CompactionResult → List (List Message) → StructuredSummary → ℕ → CompactionResult
unfolding swap_summary estimate_tokens byte_len render
apply_smart_digest r dropped smart token_limit =
    apply_swapped r dropped smart token_limit (swap_summary r.messages smart)
