-- ===== src/Harness/Progress/StepLines.antt =====
-- The lines of a step in a progress file, and how they are read.
use unshackled.Prelude.{
  ℕ, ◌^◌, ◌<◌, ◌≡◌, refl, ap, ◌∙◌, Bool, true, false, none, some, List, [], ◌∷◌, ◌++◌, all, arith,
  if◌then◌else◌,
}
use unshackled.Text.{Text, codes, trim_start, is_whitespace}
use unshackled.Text.Trim.{trim_end, strip_prefix, split_once}
use unshackled.Text.Decimal.{decimal, parse, is_digit, decimal-all, parse-decimal}
use unshackled.Text.Fields.{IsField, trim-field, trim-blank, IsField-digits}
use unshackled.Harness.Progress.{Step}
use unshackled.Harness.Progress.Completion.{has_number}
use unshackled.Harness.Progress.File.{
  ok, parse_step_line, parse_meta_line, set_meta, parse_line, described, numbered, marked,
  set_attempts,
}

abbrev pub box : Bool → Text
box done = if done then codes "x" else codes " "

abbrev pub step_line : Step → Text
step_line s =
    codes "- ["
    ++ (box s.done ++ (codes "] " ++ (decimal s.number ++ (codes ". " ++ s.description))))

-- A step that is read from its own line.
abbrev pub opened : Step → Step
opened s = record s { commit = none; attempts = 0 }

split_once-digits :
    (n d : Text)
    → all is_digit n ≡ true
    → split_once (codes ". ") (n ++ (codes ". " ++ d)) ≡ some (n, d)
unfolding split_once strip_prefix
split_once-digits [] d h = refl
split_once-digits (c ∷ n) d h = ground (arith, h, split_once-digits n d)

described-lem :
    (line : Text) (done : Bool) (n : ℕ) (d : Text)
    → n < 2 ^ 64
    → IsField d
    → described line done (split_once (codes ". ") (decimal n ++ (codes ". " ++ d)))
      ≡ ok (some (record { number = n; description = d; done = done; commit = none; attempts = 0 }))
described-lem line done n d h f =
    ap (described line done) (split_once-digits (decimal n) d (decimal-all n))
    ∙ ap (λ t. numbered done (decimal n) d (parse (2 ^ 64) t))
        (trim-field (decimal n) (IsField-digits (decimal n) (decimal-all n)))
    ∙ ap (numbered done (decimal n) d) (parse-decimal (2 ^ 64) n h)
    ∙ ap
        (λ t.
          ok (
            some
              (record { number = n; description = t; done = done; commit = none; attempts = 0 })))
        (trim-field d f)

marked-lem :
    (line : Text) (done : Bool) (n : ℕ) (d : Text)
    → n < 2 ^ 64
    → IsField d
    → marked line (some (box done ++ (codes "] " ++ (decimal n ++ (codes ". " ++ d)))))
      ≡ ok (some (record { number = n; description = d; done = done; commit = none; attempts = 0 }))
unfolding strip_prefix
marked-lem line true n d h f = described-lem line true n d h f
marked-lem line false n d h f = described-lem line false n d h f

parse_step_line-step_line :
    (s : Step)
    → s.number < 2 ^ 64
    → IsField s.description
    → parse_step_line (step_line s) ≡ ok (some (opened s))
unfolding parse_step_line strip_prefix
parse_step_line-step_line s h f = marked-lem (step_line s) s.done s.number s.description h f

pub parse_line-step_line :
    (steps : List Step) (s : Step)
    → has_number s.number steps ≡ false
    → s.number < 2 ^ 64
    → IsField s.description
    → parse_line steps (step_line s) ≡ ok (steps ++ opened s ∷ [])
unfolding parse_line trim_start is_whitespace
parse_line-step_line steps s fresh h f = rw (parse_step_line-step_line s h f, fresh) refl

set_meta-last :
    (key value : Text) (steps : List Step) (s t : Step)
    → set_meta key value (s ∷ []) ≡ ok (t ∷ [])
    → set_meta key value (steps ++ s ∷ []) ≡ ok (steps ++ t ∷ [])
unfolding set_meta
set_meta-last key value [] s t h = h
set_meta-last key value (r ∷ []) s t h = rw h refl
set_meta-last key value (r ∷ q ∷ steps) s t h = rw (set_meta-last key value (q ∷ steps) s t h) refl

abbrev pub commit_line : Text → Text
commit_line commit = codes "  - commit: " ++ commit

abbrev pub attempts_line : ℕ → Text
attempts_line attempts = codes "  - attempts: " ++ decimal attempts

pub parse_line-commit_line :
    (steps : List Step) (s : Step) (c : Text)
    → IsField c
    → parse_line (steps ++ s ∷ []) (commit_line c) ≡ ok (steps ++ record s { commit = some c } ∷ [])
unfolding parse_line trim_start is_whitespace parse_step_line strip_prefix parse_meta_line
    split_once trim_end
parse_line-commit_line steps s c f =
    ap (λ v. set_meta (codes "commit") v (steps ++ s ∷ [])) (trim-blank c f)
    ∙ set_meta-last (codes "commit") c steps s (record s { commit = some c }) refl

pub parse_line-attempts_line :
    (steps : List Step) (s : Step) (n : ℕ)
    → n < 2 ^ 32
    → parse_line (steps ++ s ∷ []) (attempts_line n) ≡ ok (steps ++ record s { attempts = n } ∷ [])
unfolding parse_line trim_start is_whitespace parse_step_line strip_prefix parse_meta_line
    split_once trim_end
parse_line-attempts_line steps s n h =
    ap (λ v. set_meta (codes "attempts") v (steps ++ s ∷ []))
      (trim-blank (decimal n) (IsField-digits (decimal n) (decimal-all n)))
    ∙ set_meta-last (codes "attempts") (decimal n) steps s (record s { attempts = n })
        (ap (set_attempts s (decimal n)) (parse-decimal (2 ^ 32) n h))
