-- ===== src/Harness/Compaction/Plan.antt =====
-- crates/localpilot-harness/src/compaction.rs: the digest of what was dropped, and `compact_plan` with
-- its metadata.
use unshackled.Prelude.{
  ℕ, ◌+◌, ◌/◌, Bool, true, false, Option, none, some, List, [], ◌∷◌, ◌++◌, map, length, leb, ltb,
  ◌==◌, if◌then◌else◌,
}
use unshackled.Text.{Text, codes, join_with}
use unshackled.Text.Decimal.{decimal}
use unshackled.Text.Ordered.{map_get}
use unshackled.Core.Messages.{Message}
use unshackled.Core.Summary.{
  SummarySectionKind, goal, constraints, progress, decisions, next_steps, critical_context,
  relevant_files, command_outcomes, risks, stale_or_superseded, label, SummarySection,
  SummarySource, StructuredSummary, file_path, new, new_source, has_none, render,
}
use unshackled.Harness.Compaction.Sizes.{byte_len, estimate_tokens}
use unshackled.Harness.Compaction.Parts.{summary_title, fold_carried, fits}
use unshackled.Harness.Compaction.Trim.{Trimmed, trim}
use unshackled.Harness.Compaction.Digest.{Json, bounded_unique}
use unshackled.Harness.Compaction.Buckets.{
  DigestBuckets, no_buckets, kind_rank, push_each, digest_exchanges,
}

pub record SemanticDigest : Type 0 where
  pub entries : List Text
  pub sections : List SummarySection
  pub sources : List SummarySource

abbrev pub last_intent : List Text → List Text
last_intent [] = []
last_intent (t ∷ []) = t ∷ []
last_intent (t ∷ u ∷ ts) = last_intent (u ∷ ts)

abbrev pub command_item : Text × ℕ → Text
command_item (name, count) =
    if ltb 1 count
    then name ++ (codes " used " ++ (decimal count ++ codes " time(s)"))
    else name ++ codes " used"

abbrev pub path_label : Text → Option (List Text) → Text
path_label path none = path
path_label path (some []) = path
path_label path (some (op ∷ ops)) = join_with (codes "/") (op ∷ ops) ++ b' ' ∷ path

abbrev pub path_source : Text → SummarySource
path_source path = record (new_source file_path path) { path = some path }

-- The sections once every bucket is emptied into them.
unfoldable pub all_sections : DigestBuckets → List SummarySection
unfolding push_each map_get decimal
all_sections b =
    let goals = push_each goal (last_intent b.user_intents) b.sections in
    let commands = push_each command_outcomes (map command_item b.command_counts) goals in
    let files =
      push_each relevant_files (map (λ p. path_label p (map_get p b.file_ops)) b.file_paths)
        commands in
    let failed =
      push_each command_outcomes (map (λ f. codes "failure observed: " ++ f) b.failures) files in
    push_each stale_or_superseded b.stale failed

abbrev pub items_of : SummarySectionKind → List SummarySection → List Text
items_of kind [] = []
items_of kind (s ∷ ss) = if kind_rank s.kind == kind_rank kind then s.items else items_of kind ss

unfoldable pub digest_entries : List SummarySectionKind → List SummarySection → List Text
unfolding bounded_unique label
digest_entries [] ss = []
digest_entries (kind ∷ kinds) ss =
    map (λ item. label kind ++ (codes ": " ++ item)) (bounded_unique (items_of kind ss) 4)
    ++ digest_entries kinds ss

abbrev pub all_kinds : List SummarySectionKind
all_kinds =
    goal ∷ constraints ∷ progress ∷ decisions ∷ next_steps ∷ critical_context ∷ relevant_files
    ∷ command_outcomes ∷ risks ∷ stale_or_superseded ∷ []

abbrev pub bounded_section : SummarySection → SummarySection
bounded_section s = record s { items = bounded_unique s.items 8 }

pub data CompactionMode : Type 0 where
  deterministic smart_with_fallback : CompactionMode

pub record CompactionMetadata : Type 0 where
  pub requested_mode : CompactionMode
  pub used_mode : CompactionMode
  pub dropped_exchanges : ℕ
  pub kept_messages : ℕ
  pub dropped_messages : ℕ
  pub digest_estimate_tokens : ℕ
  pub fallback_reason : Option Text
  pub truncated_tool_results : ℕ

abbrev pub no_metadata : CompactionMetadata
no_metadata = record {
  requested_mode = deterministic;
  used_mode = deterministic;
  dropped_exchanges = 0;
  kept_messages = 0;
  dropped_messages = 0;
  digest_estimate_tokens = 0;
  fallback_reason = none;
  truncated_tool_results = 0;
}

pub record CompactionResult : Type 0 where
  pub messages : List Message
  pub compacted : Bool
  pub summary : Option StructuredSummary
  pub metadata : CompactionMetadata

pub record CompactionPlan : Type 0 where
  pub result : CompactionResult
  pub dropped : List (List Message)
  pub carried : List Text

abbrev pub count_messages : List (List Message) → ℕ
count_messages [] = 0
count_messages (e ∷ es) = length e + count_messages es

abbrev pub or_default : Option StructuredSummary → StructuredSummary
or_default none = new summary_title (codes "older exchanges were trimmed" ∷ [])
or_default (some s) = s

abbrev pub or_summary :
    Option StructuredSummary → Option StructuredSummary → Option StructuredSummary
or_summary none other = other
or_summary (some s) other = some s

module _ (parse_json : Text → Json) where
  unfoldable pub semantic_digest : List (List Message) → SemanticDigest
  unfolding digest_exchanges all_sections digest_entries bounded_unique
  semantic_digest dropped =
      let (b, sources) = digest_exchanges parse_json 0 dropped (no_buckets, []) in
      let sections = all_sections b in
      record {
        entries = digest_entries all_kinds sections;
        sections = map bounded_section sections;
        sources = sources ++ map path_source b.file_paths;
      }

  unfoldable pub finalize_summary :
      Option StructuredSummary → List (List Message) → List Message → ℕ → ℕ → StructuredSummary
  unfolding semantic_digest estimate_tokens
  finalize_summary summary dropped output token_limit truncated_tool_results =
      let found = or_default summary in
      let digest = semantic_digest dropped in
      record found {
        entries = found.entries ++ digest.entries;
        sections =
            digest.sections
            ++ (if has_none found.entries
                then []
                else record { kind = critical_context; items = found.entries } ∷ []);
        sources = digest.sources;
        budget = record {
          estimated_tokens = estimate_tokens output;
          original_messages = count_messages dropped + length output;
          kept_messages = length output;
          dropped_messages = count_messages dropped;
          truncated_tool_results = truncated_tool_results;
          truncation_reason =
              if leb token_limit (estimate_tokens output)
              then some (codes "context budget pressure")
              else none;
        };
      }

  unfoldable pub plan_of : Trimmed → ℕ → CompactionPlan
  unfolding finalize_summary fold_carried render byte_len
  plan_of t token_limit =
      let digest =
        finalize_summary (or_summary t.summary (fold_carried t.carried none)) t.dropped t.out
          token_limit t.truncated_tool_results in
      record {
        result = record {
          messages = t.out;
          compacted = true;
          summary = some digest;
          metadata = record {
            requested_mode = deterministic;
            used_mode = deterministic;
            dropped_exchanges = length t.dropped;
            kept_messages = count_messages t.exchanges + length t.system_messages;
            dropped_messages = count_messages t.dropped;
            digest_estimate_tokens = byte_len (render digest) / 4;
            fallback_reason = none;
            truncated_tool_results = t.truncated_tool_results;
          };
        };
        dropped = t.dropped;
        carried = t.carried;
      }

  unfoldable pub compact_plan : List Message → ℕ → CompactionPlan
  unfolding fits trim plan_of
  compact_plan ms token_limit =
      if fits ms token_limit
      then record {
        result = record {
          messages = ms;
          compacted = false;
          summary = none;
          metadata = record no_metadata { kept_messages = length ms };
        };
        dropped = [];
        carried = [];
      }
      else plan_of (trim ms token_limit) token_limit
