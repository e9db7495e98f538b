-- ===== src/Core/Summary.antt =====
-- crates/localpilot-core/src/summary.rs: structured summaries and their text.
use unshackled.Prelude.{
  ℕ, Bool, true, false, not, ◌&&◌, Option, none, List, [], ◌∷◌, ◌++◌, map, if◌then◌else◌,
}
use unshackled.Text.{Text, codes}

pub data SummarySectionKind : Type 0 where
  goal constraints progress decisions next_steps critical_context : SummarySectionKind
  relevant_files command_outcomes risks stale_or_superseded : SummarySectionKind

unfoldable pub label : SummarySectionKind → Text
label goal = codes "goal"
label constraints = codes "constraints/preferences"
label progress = codes "progress"
label decisions = codes "decisions"
label next_steps = codes "next steps"
label critical_context = codes "critical context"
label relevant_files = codes "relevant files"
label command_outcomes = codes "commands/failures"
label risks = codes "unresolved risks"
label stale_or_superseded = codes "stale/superseded"

pub record SummarySection : Type 0 where
  pub kind : SummarySectionKind
  pub items : List Text

pub data SummarySourceKind : Type 0 where
  message_range tool_call tool_result file_path command : SummarySourceKind
  previous_summary ingest_chunk accepted_memory graph_fact : SummarySourceKind

pub record SummarySource : Type 0 where
  pub kind : SummarySourceKind
  pub source_id : Text
  pub range : Option Text
  pub path : Option Text
  pub redacted : Bool

pub record SummaryBudget : Type 0 where
  pub estimated_tokens : ℕ
  pub original_messages : ℕ
  pub kept_messages : ℕ
  pub dropped_messages : ℕ
  pub truncated_tool_results : ℕ
  pub truncation_reason : Option Text

pub record StructuredSummary : Type 0 where
  pub schema_version : ℕ
  pub title : Text
  pub entries : List Text
  pub sections : List SummarySection
  pub sources : List SummarySource
  pub budget : SummaryBudget

abbrev pub no_budget : SummaryBudget
no_budget = record {
  estimated_tokens = 0;
  original_messages = 0;
  kept_messages = 0;
  dropped_messages = 0;
  truncated_tool_results = 0;
  truncation_reason = none;
}

abbrev pub new : Text → List Text → StructuredSummary
new title entries = record {
  schema_version = 2;
  title = title;
  entries = entries;
  sections = [];
  sources = [];
  budget = no_budget;
}

-- `SummarySource::new`.
abbrev pub new_source : SummarySourceKind → Text → SummarySource
new_source kind source_id = record {
  kind = kind;
  source_id = source_id;
  range = none;
  path = none;
  redacted = true;
}

abbrev pub has_none {ℓ} : {A : Type ℓ} → List A → Bool
has_none [] = true
has_none (x ∷ xs) = false

-- The items of the sections, each behind the label of its section.
unfoldable pub section_entries : List SummarySection → List Text
unfolding label
section_entries [] = []
section_entries (s ∷ ss) =
    map (λ item. label s.kind ++ (codes ": " ++ item)) s.items ++ section_entries ss

abbrev pub entry_lines : List Text → Text
entry_lines [] = []
entry_lines (e ∷ es) = b'\n' ∷ (codes "- " ++ (e ++ entry_lines es))

unfoldable pub render : StructuredSummary → Text
unfolding section_entries
render s =
    let entries =
      if has_none s.entries && not (has_none s.sections)
      then section_entries s.sections
      else s.entries in
    s.title ++ entry_lines entries
