-- ===== src/Harness/Compaction/Parts.antt =====
-- crates/localpilot-harness/src/compaction.rs: the steps that `compact_plan` is made of.
use unshackled.Prelude.{
  ℕ, zero, suc, ◌-◌, Bool, false, ◌&&◌, ◌||◌, Option, none, some, List, [], ◌∷◌, ◌++◌, length, leb,
  ◌==◌, if◌then◌else◌,
}
use unshackled.Text.{Text, codes, starts_with, join_with}
use unshackled.Text.Split.{lines}
use unshackled.Core.Messages.{
  Role, system, user, ContentBlock, tool_use, Message, text_message, role_eq,
}
use unshackled.Core.Summary.{StructuredSummary, new, render, has_none}
use unshackled.Harness.Compaction.Sizes.{estimate_tokens, truncate, first_text}

abbrev pub summary_title : Text
summary_title = codes "Conversation summary for trimmed history:"

abbrev pub truncated_output_chars : ℕ
truncated_output_chars = 240

abbrev pub flatten : List (List Message) → List Message
flatten [] = []
flatten (e ∷ es) = e ++ flatten es

abbrev pub is_role : Role → Message → Bool
is_role r m = role_eq m.role r

-- The leading system messages, and the body behind them.
unfoldable pub split_system : List Message → List Message × List Message
split_system [] = ([], [])
split_system (m ∷ ms) =
    let (leading, body) = split_system ms in
    if is_role system m then (m ∷ leading, body) else ([], m ∷ ms)

abbrev pub is_title : Option Text → Bool
is_title none = false
is_title (some t) = starts_with summary_title t

unfoldable pub is_summary_message : Message → Bool
unfolding first_text
is_summary_message m = is_title (first_text m)

-- `trim_start_matches("- ")`.
unfoldable pub trim_dashes : Text → Text
trim_dashes [] = []
trim_dashes (c ∷ []) = c ∷ []
trim_dashes (c ∷ d ∷ s) =
    let rest = trim_dashes s in if (c == b'-') && (d == b' ') then rest else c ∷ d ∷ s

unfoldable pub trimmed_lines : List Text → List Text
unfolding trim_dashes
trimmed_lines [] = []
trimmed_lines (l ∷ ls) = trim_dashes l ∷ trimmed_lines ls

abbrev pub skip_one : List Text → List Text
skip_one [] = []
skip_one (l ∷ ls) = ls

abbrev pub carried_lines : Option Text → List Text
carried_lines none = []
carried_lines (some t) = trimmed_lines (skip_one (lines t))

-- `system.retain`: the messages that stay, and the lines carried out of earlier summaries.
unfoldable pub retain : List Message → List Message × List Text
unfolding is_summary_message trimmed_lines
retain [] = ([], [])
retain (m ∷ ms) =
    let (kept, carried) = retain ms in
    if is_summary_message m
    then (kept, carried_lines (first_text m) ++ carried)
    else (m ∷ kept, carried)

abbrev pub drop {ℓ} : {A : Type ℓ} → ℕ → List A → List A
drop zero xs = xs
drop (suc n) [] = []
drop (suc n) (x ∷ xs) = drop n xs

abbrev pub max_entries : ℕ
max_entries = 8

abbrev pub entries_of : Option StructuredSummary → List Text
entries_of none = []
entries_of (some s) = s.entries

unfoldable pub fold_carried : List Text → Option StructuredSummary → Option StructuredSummary
fold_carried carried summary =
    let entries = carried ++ entries_of summary in
    if has_none carried
    then summary
    else some (new summary_title (drop (length entries - max_entries) entries))

-- `last_mut().push`.
unfoldable pub push_last : List (List Message) → Message → List (List Message)
push_last [] m = []
push_last (e ∷ []) m = (e ++ m ∷ []) ∷ []
push_last (e ∷ f ∷ es) m = e ∷ push_last (f ∷ es) m

-- The exchanges of the body, each but the first from a user message on.
unfoldable pub group_onto : List (List Message) → List Message → List (List Message)
unfolding push_last
group_onto exchanges [] = exchanges
group_onto exchanges (m ∷ ms) =
    group_onto
      (push_last (if is_role user m || has_none exchanges then exchanges ++ [] ∷ [] else exchanges)
        m)
      ms

abbrev pub summary_messages : Option StructuredSummary → List Message
summary_messages none = []
summary_messages (some digest) = text_message system (render digest) ∷ []

unfoldable pub build_messages :
    List Message → Option StructuredSummary → List (List Message) → List Message
build_messages sys summary exchanges = sys ++ (summary_messages summary ++ flatten exchanges)

unfoldable pub fits : List Message → ℕ → Bool
unfolding estimate_tokens
fits ms token_limit = leb (estimate_tokens ms) token_limit

abbrev pub cut_text : ℕ → Option Text → Option Text
cut_text max_chars none = none
cut_text max_chars (some t) = some (truncate t max_chars)

-- Of the first user message, its first text.
abbrev pub user_text : ℕ → List Message → Option Text
user_text max_chars [] = none
user_text max_chars (m ∷ ms) =
    if is_role user m then cut_text max_chars (first_text m) else user_text max_chars ms

unfoldable pub block_tools : List ContentBlock → List Text
block_tools [] = []
block_tools (tool_use call ∷ bs) = call.name ∷ block_tools bs
block_tools (b ∷ bs) = block_tools bs

unfoldable pub tools_of : List Message → List Text
unfolding block_tools
tools_of [] = []
tools_of (m ∷ ms) = block_tools m.content ++ tools_of ms

abbrev pub exchange_line : Option Text → List Text → Option Text
exchange_line (some u) [] = some (codes "user asked: " ++ u)
exchange_line (some u) (t ∷ ts) =
    some
      (codes "user asked: " ++ (u ++ (codes "; tools used: " ++ join_with (codes ", ") (t ∷ ts))))
exchange_line none (t ∷ ts) = some (codes "tools used: " ++ join_with (codes ", ") (t ∷ ts))
exchange_line none [] = none

unfoldable pub summarize_exchange : List Message → ℕ → Option Text
unfolding tools_of truncate first_text
summarize_exchange exchange max_user_chars =
    exchange_line (user_text max_user_chars exchange) (tools_of exchange)

abbrev pub cons_some : Option Text → List Text → List Text
cons_some none ts = ts
cons_some (some t) ts = t ∷ ts

unfoldable pub exchange_lines : ℕ → List (List Message) → List Text
unfolding summarize_exchange
exchange_lines max_user_chars [] = []
exchange_lines max_user_chars (e ∷ es) =
    cons_some (summarize_exchange e max_user_chars) (exchange_lines max_user_chars es)

-- `rev().take(n).rev()` keeps the last `n`.
abbrev pub last_of {ℓ} : {A : Type ℓ} → ℕ → List A → List A
last_of n xs = drop (length xs - n) xs

unfoldable pub structured_summary_with : List (List Message) → ℕ → ℕ → Option StructuredSummary
unfolding exchange_lines
structured_summary_with dropped max_exchanges max_user_chars =
    if has_none dropped
    then none
    else some (new summary_title (exchange_lines max_user_chars (last_of max_exchanges dropped)))

abbrev pub structured_summary : List (List Message) → Option StructuredSummary
structured_summary dropped = structured_summary_with dropped 4 120
