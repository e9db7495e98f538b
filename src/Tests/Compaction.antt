-- ===== src/Tests/Compaction.antt =====
-- Compaction at concrete inputs.
use unshackled.Prelude.{◌≡◌, refl, true, false, none, List, [], ◌∷◌}
use unshackled.Text.{codes, one_of, text_eq}
use unshackled.Core.Messages.{
  system, user, assistant, tool, tool_use, tool_result, Message, new, text_message,
}
use unshackled.Core.Summary.{StructuredSummary}
use unshackled.Core.Summary
use unshackled.Harness.Compaction.Trim.{compact}
use unshackled.Harness.Compaction.Pairs.{is_paired}
use unshackled.Harness.Compaction.Compact.{compact-is_paired}
use unshackled.Harness.Compaction.Plan.{CompactionResult, no_metadata}
use unshackled.Harness.Compaction.Swap.{apply_smart_digest}
use unshackled.Harness.Compaction.Smart.{SmartOutcome, apply_smart_digest-SmartOutcome}
use unshackled.Harness.Compaction.Merge.{
  merge_consecutive_system, is_separated, all_content, merge_consecutive_system-lem,
}

-- A turn that reads two files, and a further question.
abbrev talk : List Message
talk =
    text_message system (codes "prompt")
    ∷ text_message user (codes "read both files")
    ∷ new assistant
        (tool_use (record { id = codes "a"; name = codes "read_file"; input = codes "{}" }) ∷ [])
    ∷ new tool
        (tool_result (record { id = codes "a"; output = codes "one"; is_error = false }) ∷ [])
    ∷ new assistant
        (tool_use (record { id = codes "b"; name = codes "read_file"; input = codes "{}" }) ∷ [])
    ∷ new tool
        (tool_result (record { id = codes "b"; output = codes "two"; is_error = false }) ∷ [])
    ∷ text_message user (codes "and now?")
    ∷ text_message assistant (codes "done")
    ∷ []

talk-is_paired : is_paired [] talk ≡ true
unfolding is_paired one_of text_eq
talk-is_paired = refl

compact-is_paired_example : is_paired [] (compact talk 10) ≡ true
compact-is_paired_example = compact-is_paired talk 10 talk-is_paired

abbrev digest : StructuredSummary
digest = Summary.new (codes "Smart") (codes "both files were read" ∷ [])

abbrev trimmed : CompactionResult
trimmed = record {
  messages =
      text_message system
        (codes "Conversation summary for trimmed history:\n- user asked: read both files")
      ∷ text_message user (codes "and now?")
      ∷ [];
  compacted = true;
  summary = none;
  metadata = no_metadata;
}

apply_smart_digest-SmartOutcome_example :
    SmartOutcome trimmed digest 20 (apply_smart_digest trimmed (talk ∷ []) digest 20)
apply_smart_digest-SmartOutcome_example =
    apply_smart_digest-SmartOutcome trimmed (talk ∷ []) digest 20

abbrev doubled : List Message
doubled =
    text_message system (codes "prompt")
    ∷ text_message system (codes "summary")
    ∷ text_message user (codes "go on")
    ∷ text_message system (codes "note")
    ∷ []

merge_consecutive_system-lem_example :
    (is_separated (merge_consecutive_system doubled) ≡ true)
    × (all_content (merge_consecutive_system doubled) ≡ all_content doubled)
    × (is_paired [] (merge_consecutive_system doubled) ≡ is_paired [] doubled)
merge_consecutive_system-lem_example = merge_consecutive_system-lem doubled
