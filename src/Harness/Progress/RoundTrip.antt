-- ===== src/Harness/Progress/RoundTrip.antt =====
-- A progress file that is written and read.
use unshackled.Prelude.{◌≡◌, ◌≢◌, refl, ap, some, List, [], ◌∷◌, ◌++◌, All, map}
use unshackled.Text.{Text, codes, trim_start, is_whitespace}
use unshackled.Text.Trim.{trim, strip_prefix}
use unshackled.Text.Split.{is_empty}
use unshackled.Text.Lines.{is_line, IsLine, IsLine-append, lines-unlines, replace_crlf-unlines}
use unshackled.Text.Fields.{IsField, trim-blank, trim_end-append}
use unshackled.Harness.Progress.{Step, Progress}
use unshackled.Harness.Progress.Completion.{Distinct}
use unshackled.Harness.Progress.File.{
  ok, parse_step_line, parse_meta_line, parse_line, parse_lines, find_title, title_after, parse,
  render, non_empty,
}
use unshackled.Harness.Progress.FileSteps.{
  all_step_lines, as_kept, IsWritten, Fresh, parse_lines-all_step_lines,
}
use unshackled.Harness.Progress.FileLines.{file_lines, render-lem, all_step_lines-IsLine}

-- A title that a file can hold: a trimmed line that is not empty.
abbrev pub IsTitle : Text → Type 0
IsTitle t = IsField t × (t ≢ [])

trim-name :
    (name : Text)
    → IsTitle name
    → trim (codes "# Progress: " ++ name) ≡ codes "# Progress: " ++ name
unfolding trim_start is_whitespace
trim-name name ((l, a, b), n) = trim_end-append (codes "# Progress: ") name n b

trim-branch :
    (branch : Text)
    → IsTitle branch
    → trim (codes "Branch: " ++ branch) ≡ codes "Branch: " ++ branch
unfolding trim_start is_whitespace
trim-branch branch ((l, a, b), n) = trim_end-append (codes "Branch: ") branch n b

non_empty-lem : (t : Text) → t ≢ [] → non_empty (some t) ≡ some t
unfolding is_empty
non_empty-lem [] n = absurd (n refl)
non_empty-lem (c ∷ t) n = refl

find_title-name :
    (name : Text) (ls : List Text)
    → IsTitle name
    → find_title (codes "# Progress:") ((codes "# Progress: " ++ name) ∷ ls) ≡ some name
unfolding find_title strip_prefix
find_title-name name ls h = rw (trim-name name h) (ap some (trim-blank name h.0))

find_title-branch :
    (name branch : Text) (ls : List Text)
    → IsTitle name
    → IsTitle branch
    → find_title
        (codes "Branch:")
        ((codes "# Progress: " ++ name) ∷ (codes "Branch: " ++ branch) ∷ ls)
      ≡ some branch
unfolding find_title strip_prefix
find_title-branch name branch ls h g =
    rw (trim-name name h, trim-branch branch g) (ap some (trim-blank branch g.0))

parse_lines-file_lines :
    (p : Progress)
    → All IsWritten p.steps
    → Distinct p.steps
    → parse_lines [] (file_lines p) ≡ ok (map as_kept p.steps)
unfolding parse_lines parse_line trim_start is_whitespace parse_step_line parse_meta_line
    strip_prefix
parse_lines-file_lines p w d = parse_lines-all_step_lines [] p.steps (none_before p.steps) d w
  where
    none_before : (ss : List Step) → Fresh [] ss
    none_before [] = tt
    none_before (s ∷ ss) = (refl, none_before ss)

file_lines-IsLine :
    (p : Progress)
    → IsTitle p.name
    → IsTitle p.branch
    → All IsWritten p.steps
    → All IsLine (file_lines p)
unfolding is_line
file_lines-IsLine p ((l, _, _), _) ((m, _, _), _) w =
    let steps = all_step_lines-IsLine p.steps w in
    (
      IsLine-append (codes "# Progress: ") p.name refl l,
      (IsLine-append (codes "Branch: ") p.branch refl m, (refl, (refl, (refl, steps)))),
    )

-- What is written is read back, but for the commit and the attempts of steps that are not done: if
-- the titles are trimmed lines and not empty, the numbers of the steps differ, and each step has
-- numbers that fit their types and texts that are trimmed lines.
pub parse-render :
    (p : Progress)
    → IsTitle p.name
    → IsTitle p.branch
    → All IsWritten p.steps
    → Distinct p.steps
    → parse (render p) ≡ ok (record p { steps = map as_kept p.steps })
unfolding parse title_after
parse-render p hn hb w d =
    let one_line = file_lines-IsLine p hn hb w in
    rw
      (
        render-lem p,
        replace_crlf-unlines (file_lines p) one_line,
        lines-unlines (file_lines p) one_line,
        find_title-name p.name
            ((codes "Branch: " ++ p.branch) ∷ [] ∷ codes "## Steps" ∷ [] ∷ all_step_lines p.steps)
            hn,
        find_title-branch p.name p.branch ([] ∷ codes "## Steps" ∷ [] ∷ all_step_lines p.steps) hn
            hb,
        non_empty-lem p.name hn.1,
        non_empty-lem p.branch hb.1,
        parse_lines-file_lines p w d,
      )
      refl
