-- ===== src/Harness/Progress/File.antt =====
-- crates/localpilot-harness/src/progress.rs: the text of progress files, with the titles of
-- crates/localpilot-harness/src/brief.rs.
use unshackled.Prelude.{
  ℕ, ◌^◌, Bool, true, false, ◌||◌, Option, none, some, List, [], ◌∷◌, ◌++◌, any, ltb, ◌==◌,
  if◌then◌else◌,
}
use unshackled.Text.{Text, codes, text_eq, trim_start}
use unshackled.Text.Trim.{trim, strip_prefix, split_once}
use unshackled.Text.Split.{lines, is_empty, replace_crlf}
use unshackled.Text.Decimal.{decimal}
use unshackled.Text.Decimal
use unshackled.Harness.Progress.{Step, Progress}

pub data HarnessError : Type 0 where
  missing_section malformed : Text → Text → HarnessError
  io : Text → Text → HarnessError
  provider : Text → HarnessError

pub data Parsed (A : Type 0) : Type 0 where
  ok : A → Parsed A
  err : HarnessError → Parsed A

abbrev pub document : Text
document = codes "PROGRESS.md"

abbrev pub malformed_file : {A : Type 0} → Text → Parsed A
malformed_file detail = err (malformed document detail)

abbrev pub trim_some : Option Text → Option Text
trim_some none = none
trim_some (some s) = some (trim s)

abbrev pub or_else : Option Text → Option Text → Option Text
or_else none later = later
or_else (some t) later = some t

-- `find_map` over the lines.
unfoldable pub find_title : Text → List Text → Option Text
unfolding strip_prefix
find_title prefix [] = none
find_title prefix (l ∷ ls) =
    or_else (trim_some (strip_prefix prefix (trim l))) (find_title prefix ls)

abbrev pub non_empty : Option Text → Option Text
non_empty none = none
non_empty (some t) = if is_empty t then none else some t

unfoldable pub title_after : Text → Text → Option Text
unfolding find_title
title_after t prefix = non_empty (find_title prefix (lines t))

-- What is read of a step behind its checkbox, as far as the number.
abbrev pub numbered : Bool → Text → Text → Option ℕ → Parsed (Option Step)
numbered done number_str description none =
    malformed_file (codes "invalid step number '" ++ (number_str ++ codes "'"))
numbered done number_str description (some number) = ok (
    some (record {
      number = number;
      description = trim description;
      done = done;
      commit = none;
      attempts = 0;
    }))

abbrev pub described : Text → Bool → Option (Text × Text) → Parsed (Option Step)
described line done none = malformed_file (codes "step missing 'N. description': " ++ line)
described line done (some (number_str, description)) =
    numbered done number_str description (Decimal.parse (2 ^ 64) (trim number_str))

abbrev pub behind_box : Text → Bool → Option Text → Parsed (Option Step)
behind_box line done none = malformed_file (codes "malformed step checkbox: " ++ line)
behind_box line done (some after) = described line done (split_once (codes ". ") after)

abbrev pub marked : Text → Option Text → Parsed (Option Step)
marked line none = ok none
marked line (some []) = ok none
marked line (some (mark ∷ after)) =
    if (mark == b'x') || (mark == b'X')
    then behind_box line true (strip_prefix (codes "] ") after)
    else if mark == b' '
    then behind_box line false (strip_prefix (codes "] ") after)
    else ok none

unfoldable pub parse_step_line : Text → Parsed (Option Step)
unfolding strip_prefix split_once Decimal.parse
parse_step_line line = marked line (strip_prefix (codes "- [") line)

abbrev pub trim_both : Option (Text × Text) → Option (Text × Text)
trim_both none = none
trim_both (some (key, value)) = some (trim key, trim value)

abbrev pub key_value : Option Text → Option (Text × Text)
key_value none = none
key_value (some rest) = trim_both (split_once (codes ":") rest)

unfoldable pub parse_meta_line : Text → Option (Text × Text)
unfolding strip_prefix split_once
parse_meta_line line = key_value (strip_prefix (codes "- ") line)

abbrev pub set_attempts : Step → Text → Option ℕ → Parsed (List Step)
set_attempts last value none =
    malformed_file (codes "invalid attempts value '" ++ (value ++ codes "'"))
set_attempts last value (some n) = ok (record last { attempts = n } ∷ [])

abbrev pub cons_step : Step → Parsed (List Step) → Parsed (List Step)
cons_step s (ok ss) = ok (s ∷ ss)
cons_step s (err e) = err e

-- The change to the last step, if there is one.
unfoldable pub set_meta : Text → Text → List Step → Parsed (List Step)
unfolding text_eq Decimal.parse
set_meta key value [] = ok []
set_meta key value (s ∷ t ∷ ss) = cons_step s (set_meta key value (t ∷ ss))
set_meta key value (last ∷ []) =
    if text_eq key (codes "commit")
    then ok (record last { commit = some value } ∷ [])
    else if text_eq key (codes "attempts")
    then set_attempts last value (Decimal.parse (2 ^ 32) value)
    else ok (last ∷ [])

abbrev pub take_meta : List Step → Option (Text × Text) → Parsed (List Step)
take_meta steps none = ok steps
take_meta steps (some (key, value)) = set_meta key value steps

abbrev pub take_step : List Step → Text → Parsed (Option Step) → Parsed (List Step)
take_step steps line (err e) = err e
take_step steps line (ok (some step)) =
    if any (λ s. s.number == step.number) steps
    then malformed_file (codes "duplicate step number " ++ decimal step.number)
    else ok (steps ++ step ∷ [])
take_step steps line (ok none) = take_meta steps (parse_meta_line line)

-- One round of the loop over the lines.
unfoldable pub parse_line : List Step → Text → Parsed (List Step)
unfolding parse_step_line parse_meta_line set_meta decimal
parse_line steps line = take_step steps (trim_start line) (parse_step_line (trim_start line))

abbrev pub then_steps : Parsed (List Step) → (List Step → Parsed (List Step)) → Parsed (List Step)
then_steps (err e) k = err e
then_steps (ok steps) k = k steps

unfoldable pub parse_lines : List Step → List Text → Parsed (List Step)
unfolding parse_line
parse_lines steps [] = ok steps
parse_lines steps (l ∷ ls) = then_steps (parse_line steps l) λ s. parse_lines s ls

abbrev pub parsed_steps : Text → Text → Parsed (List Step) → Parsed Progress
parsed_steps name branch (err e) = err e
parsed_steps name branch (ok steps) = ok (record { name = name; branch = branch; steps = steps })

abbrev pub parsed_titles : Option Text → Option Text → List Text → Parsed Progress
parsed_titles none branch ls = malformed_file (codes "missing '# Progress: <name>' title")
parsed_titles (some name) none ls = malformed_file (codes "missing 'Branch:' line")
parsed_titles (some name) (some branch) ls = parsed_steps name branch (parse_lines [] ls)

unfoldable pub parse : Text → Parsed Progress
unfolding title_after parse_lines replace_crlf
parse file =
    let t = replace_crlf file in
    parsed_titles (title_after t (codes "# Progress:")) (title_after t (codes "Branch:")) (lines t)

abbrev pub commit_text : Option Text → Text
commit_text none = []
commit_text (some commit) = codes "  - commit: " ++ (commit ++ codes "\n")

abbrev pub attempts_text : ℕ → Text
attempts_text attempts =
    if ltb 0 attempts then codes "  - attempts: " ++ (decimal attempts ++ codes "\n") else []

unfoldable pub render_step : Step → Text
unfolding decimal
render_step s =
    codes "- ["
    ++ ((if s.done then codes "x" else codes " ")
        ++ (codes "] "
            ++ (decimal s.number
                ++ (codes ". "
                    ++ (s.description
                        ++ (codes "\n"
                            ++ (if s.done
                                then commit_text s.commit ++ attempts_text s.attempts
                                else [])))))))

unfoldable pub render_steps : List Step → Text
unfolding render_step
render_steps [] = []
render_steps (s ∷ ss) = render_step s ++ render_steps ss

unfoldable pub render : Progress → Text
unfolding render_steps
render p =
    codes "# Progress: "
    ++ (p.name
        ++ (codes "\nBranch: " ++ (p.branch ++ (codes "\n\n## Steps\n\n" ++ render_steps p.steps))))
