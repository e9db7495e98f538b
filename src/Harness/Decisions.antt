-- ===== src/Harness/Decisions.antt =====
-- crates/localpilot-harness/src/decisions.rs: the log of decisions. The date of today is an argument.
use unshackled.Prelude.{
  ℕ, ◌+◌, ◌%◌, ◌^◌, max, ltb, Bool, true, false, ◌&&◌, Option, none, some, List, [], ◌∷◌, ◌++◌,
  if◌then◌else◌,
}
use unshackled.Text.{Text, codes, starts_with, contains}
use unshackled.Text.Trim.{trim, strip_prefix, split_once, trim_end}
use unshackled.Text.Split.{lines, replace_crlf}
use unshackled.Text.Decimal.{decimal}
use unshackled.Text.Decimal
use unshackled.Harness.Progress.File.{malformed, Parsed, ok, err, title_after}
pub mod Fresh

pub record Decision : Type 0 where
  pub id : Text
  pub date : Text
  pub title : Text
  pub decision : Text
  pub rationale : Text
  pub refs : Text

pub record Decisions : Type 0 where
  pub name : Text
  pub entries : List Decision

abbrev pub no_decisions : Text → Decisions
no_decisions name = record { name = name; entries = [] }

abbrev pub separator : Text
separator = codes " · "

-- `is_entry_header`.
unfoldable pub is_header : Text → Bool
unfolding starts_with contains
is_header body = starts_with (codes "D") body && contains separator body

abbrev pub header_entry : Text → Text → Text → Decision
header_entry id date title = record {
  id = trim id;
  date = trim date;
  title = trim title;
  decision = [];
  rationale = [];
  refs = [];
}

abbrev pub dated : Text → Text → Option (Text × Text) → Decision
dated id rest none = header_entry id rest []
dated id rest (some (date, title)) = header_entry id date title

-- `splitn(3, SEPARATOR)`: what follows the first separator is split once more.
abbrev pub split_header : Text → Option (Text × Text) → Decision
split_header header none = header_entry header [] []
split_header header (some (id, rest)) = dated id rest (split_once separator rest)

abbrev pub header_of : Option Text → Option Text
header_of none = none
header_of (some h) = if is_header h then some h else none

abbrev pub or_field : Option Text → (Text → Decision) → Decision → Decision
or_field none set other = other
or_field (some value) set other = set (trim value)

-- The field of the last entry that a line sets.
unfoldable pub set_field : Text → Decision → Decision
unfolding strip_prefix
set_field line d =
    or_field (strip_prefix (codes "- decision:") line) (λ v. record d { decision = v })
      (or_field (strip_prefix (codes "- rationale:") line) (λ v. record d { rationale = v })
        (or_field (strip_prefix (codes "- refs:") line) (λ v. record d { refs = v }) d))

unfoldable pub set_last : Text → List Decision → List Decision
unfolding set_field
set_last line [] = []
set_last line (d ∷ []) = set_field line d ∷ []
set_last line (d ∷ e ∷ ds) = d ∷ set_last line (e ∷ ds)

abbrev pub read_line : Text → List Decision → Option Text → List Decision
read_line line ds none = set_last line ds
read_line line ds (some header) = ds ++ split_header header (split_once separator header) ∷ []

unfoldable pub read_lines : List Decision → List Text → List Decision
unfolding is_header set_last strip_prefix split_once
read_lines ds [] = ds
read_lines ds (l ∷ ls) =
    read_lines (read_line (trim l) ds (header_of (strip_prefix (codes "- ") (trim l)))) ls

abbrev pub titled : Option Text → List Text → Parsed Decisions
titled none ls =
    err (malformed (codes "DECISIONS.md") (codes "missing '# Decisions: <name>' title"))
titled (some name) ls = ok (record { name = name; entries = read_lines [] ls })

unfoldable pub parse : Text → Parsed Decisions
unfolding read_lines title_after replace_crlf
parse file = let t = replace_crlf file in titled (title_after t (codes "# Decisions:")) (lines t)

unfoldable pub render_entries : List Decision → Text
render_entries [] = []
render_entries (d ∷ ds) =
    codes "- "
    ++ (d.id
        ++ (separator
            ++ (d.date
                ++ (separator
                    ++ (d.title
                        ++ (codes "\n  - decision: "
                            ++ (d.decision
                                ++ (codes "\n  - rationale: "
                                    ++ (d.rationale
                                        ++ (codes "\n  - refs: "
                                            ++ (d.refs
                                                ++ (codes "\n\n" ++ render_entries ds))))))))))))

unfoldable pub render : Decisions → Text
unfolding render_entries
render d = codes "# Decisions: " ++ (d.name ++ (codes "\n\n" ++ render_entries d.entries))

abbrev pub number_of : Option Text → Option ℕ
number_of none = none
number_of (some digits) = Decimal.parse (2 ^ 32) digits

abbrev pub max_some : Option ℕ → ℕ → ℕ
max_some none n = n
max_some (some m) n = max m n

-- The highest number among the ids, and 0 if there is none.
unfoldable pub highest_id : List Decision → ℕ
unfolding strip_prefix Decimal.parse
highest_id [] = 0
highest_id (d ∷ ds) = max_some (number_of (strip_prefix (codes "D") d.id)) (highest_id ds)

-- `{n:03}`.
unfoldable pub padded : ℕ → Text
padded n =
    if ltb n 10
    then codes "00" ++ decimal n
    else if ltb n 100
    then codes "0" ++ decimal n
    else decimal n

unfoldable pub next_id : Decisions → Text
unfolding highest_id padded
next_id d = codes "D" ++ padded ((highest_id d.entries + 1) % 2 ^ 32)

unfoldable pub append : Decisions → Text → Text → Text → Text → Text → Decisions × Text
unfolding next_id
append d date title decision rationale refs =
    let entry : Decision = record {
      id = next_id d;
      date = date;
      title = title;
      decision = decision;
      rationale = rationale;
      refs = refs;
    } in
    (record d { entries = d.entries ++ entry ∷ [] }, next_id d)
