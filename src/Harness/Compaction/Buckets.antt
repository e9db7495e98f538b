-- ===== src/Harness/Compaction/Buckets.antt =====
-- crates/localpilot-harness/src/compaction.rs: what `semantic_digest` collects, and the digest it
-- makes. What serde_json reads in the text of a tool's input is a parameter.
use unshackled.Prelude.{
  ℕ, suc, ◌+◌, not, ◌||◌, Option, none, some, List, [], ◌∷◌, ◌++◌, ltb, ◌==◌, if◌then◌else◌,
}
use unshackled.Text.{Text, codes, lower, contains}
use unshackled.Text.Trim.{trim, strip_prefix}
use unshackled.Text.Split.{is_empty}
use unshackled.Text.Decimal.{decimal}
use unshackled.Text.Ordered.{set_insert, set_extend, map_update}
use unshackled.Core.Messages.{
  Role, user, ContentBlock, tool_use, tool_result, ToolCall, ToolResult, Message, role_eq,
}
use unshackled.Core.Summary.{
  SummarySectionKind, goal, constraints, progress, decisions, next_steps, critical_context,
  relevant_files, command_outcomes, risks, stale_or_superseded, SummarySection, SummarySource,
  message_range, tool_call, SummarySourceKind, new_source,
}
use unshackled.Harness.Compaction.Sizes.{truncate, first_text}
use unshackled.Harness.Compaction.Digest.{
  Json, contains_any, classify_file_op, collect_text_paths, collect_json_paths,
}

-- The order of the kinds, in which the map of the sections is kept.
abbrev pub kind_rank : SummarySectionKind → ℕ
kind_rank goal = 0
kind_rank constraints = 1
kind_rank progress = 2
kind_rank decisions = 3
kind_rank next_steps = 4
kind_rank critical_context = 5
kind_rank relevant_files = 6
kind_rank command_outcomes = 7
kind_rank risks = 8
kind_rank stale_or_superseded = 9

-- `sections.entry(kind).or_default().push(item)`.
unfoldable pub push_section : SummarySectionKind → Text → List SummarySection → List SummarySection
push_section kind item [] = record { kind = kind; items = item ∷ [] } ∷ []
push_section kind item (s ∷ ss) =
    let later = s ∷ push_section kind item ss in
    if kind_rank kind == kind_rank s.kind
    then record s { items = s.items ++ item ∷ [] } ∷ ss
    else if ltb (kind_rank kind) (kind_rank s.kind)
    then record { kind = kind; items = item ∷ [] } ∷ s ∷ ss
    else later

unfoldable pub push_each :
    SummarySectionKind → List Text → List SummarySection → List SummarySection
unfolding push_section
push_each kind [] ss = ss
push_each kind (item ∷ items) ss = push_each kind items (push_section kind item ss)

pub record DigestBuckets : Type 0 where
  pub sections : List SummarySection
  pub user_intents : List Text
  pub command_counts : List (Text × ℕ)
  pub file_paths : List Text
  pub file_ops : List (Text × List Text)
  pub failures : List Text
  pub stale : List Text

abbrev pub no_buckets : DigestBuckets
no_buckets = record {
  sections = [];
  user_intents = [];
  command_counts = [];
  file_paths = [];
  file_ops = [];
  failures = [];
  stale = [];
}

abbrev pub add_section : SummarySectionKind → Text → DigestBuckets → DigestBuckets
add_section kind item b = record b { sections = push_section kind item b.sections }

-- The two tests on what a user says.
unfoldable pub classify_user : Text → Text → DigestBuckets → DigestBuckets
unfolding truncate set_insert push_section contains
classify_user trimmed low b =
    let said = record b { user_intents = set_insert (truncate trimmed 120) b.user_intents } in
    let bound =
      if contains_any low (
        codes "prefer" ∷ codes "always" ∷ codes "never" ∷ codes "constraint" ∷ codes "require" ∷ [])
      then add_section constraints (truncate trimmed 140) said
      else said in
    if contains_any low (codes "next" ∷ codes "todo" ∷ codes "pending" ∷ codes "after that" ∷ [])
    then add_section next_steps (truncate trimmed 140) bound
    else bound

abbrev pub count_command : Option Text → DigestBuckets → DigestBuckets
count_command none b = b
count_command (some c) b = record b {
  command_counts = map_update 0 (truncate c 120) suc b.command_counts;
}

-- The tests on what anyone says.
unfoldable pub classify_any : Text → Text → DigestBuckets → DigestBuckets
unfolding truncate set_insert push_section contains map_update strip_prefix collect_text_paths
classify_any trimmed low b =
    let long = truncate trimmed 140 in
    let decided =
      if contains_any low (
        codes "decided"
        ∷ codes "decision"
        ∷ codes "use "
        ∷ codes "switch to"
        ∷ codes "settled"
        ∷ [])
      then add_section decisions long b
      else b in
    let moved =
      if contains_any low (
        codes "fixed"
        ∷ codes "implemented"
        ∷ codes "changed"
        ∷ codes "added"
        ∷ codes "completed"
        ∷ [])
      then add_section progress long decided
      else decided in
    let failed =
      if not (
        contains_any low
          (codes "blocked" ∷ codes "risk" ∷ codes "unknown" ∷ codes "cannot" ∷ codes "failed" ∷ []))
      then moved
      else if contains (codes "failed") low || contains (codes "error") low
      then record moved { failures = set_insert long moved.failures }
      else add_section risks long moved in
    let aged =
      if contains_any low
        (codes "obsolete" ∷ codes "stale" ∷ codes "superseded" ∷ codes "replaced" ∷ [])
      then record failed { stale = set_insert long failed.stale }
      else failed in
    let counted = count_command (strip_prefix (codes "$ ") trimmed) aged in
    record counted { file_paths = collect_text_paths trimmed counted.file_paths }

unfoldable pub classify_text : Role → Text → DigestBuckets → DigestBuckets
unfolding classify_user classify_any is_empty
classify_text role t b =
    let trimmed = trim t in
    let low = lower trimmed in
    if is_empty trimmed
    then b
    else classify_any trimmed low (if role_eq role user then classify_user trimmed low b else b)

abbrev pub classify_first : Role → Option Text → DigestBuckets → DigestBuckets
classify_first role none b = b
classify_first role (some t) b = classify_text role t b

-- `file_ops` with the operation added to each path.
abbrev pub mark_paths : Option Text → List Text → List (Text × List Text) → List (Text × List Text)
mark_paths none paths ops = ops
mark_paths (some op) [] ops = ops
mark_paths (some op) (p ∷ ps) ops = mark_paths (some op) ps (map_update [] p (set_insert op) ops)

module _ (parse_json : Text → Json) where
  unfoldable pub digest_call : ToolCall → DigestBuckets → DigestBuckets
  unfolding map_update set_insert set_extend collect_json_paths classify_file_op
  digest_call call b =
      let paths = collect_json_paths (parse_json call.input) [] in
      record b {
        command_counts = map_update 0 call.name suc b.command_counts;
        file_ops = mark_paths (classify_file_op call.name) paths b.file_ops;
        file_paths = set_extend b.file_paths paths;
      }

  abbrev pub digest_result : ToolResult → DigestBuckets → DigestBuckets
  digest_result r b =
      if r.is_error
      then record b { failures = set_insert (truncate r.output 120) b.failures }
      else b

  unfoldable pub digest_blocks :
      List ContentBlock → DigestBuckets × List SummarySource → DigestBuckets × List SummarySource
  unfolding digest_call set_insert truncate
  digest_blocks [] s = s
  digest_blocks (tool_use call ∷ bs) (b, sources) =
      digest_blocks bs (digest_call call b, sources ++ new_source tool_call call.id ∷ [])
  digest_blocks (tool_result r ∷ bs) (b, sources) =
      digest_blocks bs
        (digest_result r b, sources ++ new_source SummarySourceKind.tool_result r.id ∷ [])
  digest_blocks (block ∷ bs) s = digest_blocks bs s

  unfoldable pub digest_messages :
      List Message → DigestBuckets × List SummarySource → DigestBuckets × List SummarySource
  unfolding classify_text digest_blocks first_text
  digest_messages [] s = s
  digest_messages (m ∷ ms) (b, sources) =
      digest_messages ms (digest_blocks m.content (classify_first m.role (first_text m) b, sources))

  unfoldable pub digest_exchanges :
      ℕ
      → List (List Message)
      → DigestBuckets × List SummarySource
      → DigestBuckets × List SummarySource
  unfolding digest_messages decimal
  digest_exchanges index [] s = s
  digest_exchanges index (e ∷ es) (b, sources) = digest_exchanges (index + 1) es (
      digest_messages e
        (b, sources ++ new_source message_range (codes "exchange-" ++ decimal index) ∷ []))
