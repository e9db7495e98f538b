-- ===== src/Harness/Progress/Accepted.antt =====
-- What holds of every progress file that is read.
use mathlib.Core.Path.{subst}
use unshackled.Prelude.{
  ℕ, ◌^◌, ◌<◌, ◌≡◌, ◌≢◌, refl, ap, ◌∙◌, Bool, true, false, ◌||◌, Option, none, some, List, [], ◌∷◌,
  ◌++◌, any-append, All, All-append, ◌==◌, arith, Bool-cases, inl, inr,
}
use unshackled.Text.{Text, codes, text_eq, trim_start}
use unshackled.Text.Trim.{trim, strip_prefix, split_once}
use unshackled.Text.Split.{is_empty, lines, replace_crlf}
use unshackled.Text.Decimal.{decimal, Below, parse-Below}
use unshackled.Text.Decimal
use unshackled.Harness.Progress.{Step, Progress}
use unshackled.Harness.Progress.Completion.{has_number, Distinct}
use unshackled.Harness.Progress.File.{
  Parsed, ok, err, numbered, described, behind_box, marked, parse_step_line, parse_meta_line,
  set_attempts, cons_step, set_meta, take_meta, take_step, parse_line, then_steps, parse_lines,
  non_empty, title_after, find_title, parsed_steps, parsed_titles, parse,
}

-- The numbers of a step fit their types.
abbrev pub Fits : Step → Type 0
Fits s = (s.number < 2 ^ 64) × (s.attempts < 2 ^ 32)

abbrev Ensures : {A : Type 0} → (A → Type 0) → Parsed A → Type 0
Ensures P (ok a) = P a
Ensures P (err e) = Unit {0}

abbrev FitsSome : Option Step → Type 0
FitsSome none = Unit {0}
FitsSome (some s) = Fits s

numbered-Fits :
    (done : Bool) (n d : Text) (o : Option ℕ)
    → Below (2 ^ 64) o
    → Ensures FitsSome (numbered done n d o)
numbered-Fits done n d none h = tt
numbered-Fits done n d (some k) h = (h, omega arith)

described-Fits :
    (line : Text) (done : Bool) (o : Option (Text × Text))
    → Ensures FitsSome (described line done o)
described-Fits line done none = tt
described-Fits line done (some (n, d)) =
    numbered-Fits done n d (Decimal.parse (2 ^ 64) (trim n))
      (parse-Below (2 ^ 64) (trim n) (omega arith))

behind_box-Fits :
    (line : Text) (done : Bool) (o : Option Text) → Ensures FitsSome (behind_box line done o)
behind_box-Fits line done none = tt
behind_box-Fits line done (some after) = described-Fits line done (split_once (codes ". ") after)

marked-Fits : (line : Text) (o : Option Text) → Ensures FitsSome (marked line o)
marked-Fits line none = tt
marked-Fits line (some []) = tt
marked-Fits line (some (c ∷ after)) =
    let ticked = behind_box-Fits line true (strip_prefix (codes "] ") after) in
    let open_box = behind_box-Fits line false (strip_prefix (codes "] ") after) in
    elim (Bool-cases ((c == b'x') || (c == b'X'))) [
      | inl y ↦ rw y ticked
      | inr n ↦ elim (Bool-cases (c == b' ')) [ inl y ↦ rw (n, y) open_box | inr m ↦ rw (n, m) tt ]
    ]

-- Steps as a file can hold them.
abbrev pub AreRead : List Step → Type 0
AreRead ss = Distinct ss × All Fits ss

Distinct-fresh :
    (ss : List Step) (t : Step)
    → has_number t.number ss ≡ false
    → Distinct ss
    → Distinct (ss ++ t ∷ [])
Distinct-fresh [] t h d = (refl, tt)
Distinct-fresh (s ∷ ss) t h (n, d) = (
  any-append (λ x. x.number == s.number) ss (t ∷ []) ∙ ground (arith, h, n),
  Distinct-fresh ss t (ground (arith, h)) d,
)

-- The same numbers, and still as a file can hold them.
abbrev Renewed : List Step → List Step → Type 0
Renewed old ss = ((n : ℕ) → has_number n ss ≡ has_number n old) × AreRead ss

cons_step-Renewed :
    (s : Step) (old : List Step) (r : Parsed (List Step))
    → has_number s.number old ≡ false
    → Fits s
    → Ensures (Renewed old) r
    → Ensures (Renewed (s ∷ old)) (cons_step s r)
cons_step-Renewed s old (err e) n f h = tt
cons_step-Renewed s old (ok ss) n f (same, (d, all_fit)) =
    (λ k. ap (λ b. (s.number == k) || b) (same k), ((same s.number ∙ n, d), (f, all_fit)))

set_attempts-Renewed :
    (s : Step) (value : Text) (o : Option ℕ)
    → Fits s
    → Below (2 ^ 32) o
    → Ensures (Renewed (s ∷ [])) (set_attempts s value o)
set_attempts-Renewed s value none f h = tt
set_attempts-Renewed s value (some n) f h = (λ k. refl, ((refl, tt), ((f.0, h), tt)))

set_meta-Renewed :
    (key value : Text) (ss : List Step) → AreRead ss → Ensures (Renewed ss) (set_meta key value ss)
unfolding set_meta
set_meta-Renewed key value [] h = (λ k. refl, h)
set_meta-Renewed key value (s ∷ t ∷ ss) ((n, d), (f, fs)) =
    cons_step-Renewed s (t ∷ ss) (set_meta key value (t ∷ ss)) n f
      (set_meta-Renewed key value (t ∷ ss) (d, fs))
set_meta-Renewed key value (s ∷ []) (d, (f, fs)) =
    elim (Bool-cases (text_eq key (codes "commit"))) [
      | inl y ↦ rw y (λ k. refl, ((refl, tt), (f, tt)))
      | inr n ↦ elim (Bool-cases (text_eq key (codes "attempts"))) [
        | inl y ↦
            rw (n, y)
              (set_attempts-Renewed s value (Decimal.parse (2 ^ 32) value) f
                (parse-Below (2 ^ 32) value (omega arith)))
        | inr m ↦ rw (n, m) (λ k. refl, (d, (f, fs)))
      ]
    ]

take_meta-AreRead :
    (ss : List Step) (o : Option (Text × Text)) → AreRead ss → Ensures AreRead (take_meta ss o)
take_meta-AreRead ss none h = h
take_meta-AreRead ss (some (key, value)) h =
    forget (set_meta key value ss) (set_meta-Renewed key value ss h)
  where
    forget : (r : Parsed (List Step)) → Ensures (Renewed ss) r → Ensures AreRead r
    forget (ok ts) (same, read) = read
    forget (err e) h = tt

take_step-AreRead :
    (ss : List Step) (line : Text) (r : Parsed (Option Step))
    → AreRead ss
    → Ensures FitsSome r
    → Ensures AreRead (take_step ss line r)
take_step-AreRead ss line (err e) h f = tt
take_step-AreRead ss line (ok none) h f = take_meta-AreRead ss (parse_meta_line line) h
take_step-AreRead ss line (ok (some s)) (d, fs) f = elim (Bool-cases (has_number s.number ss)) [
  | inl y ↦ rw y tt
  | inr n ↦ rw n (Distinct-fresh ss s n d, All-append Fits ss (s ∷ []) fs (f, tt))
]

then_steps-AreRead :
    (r : Parsed (List Step)) (k : List Step → Parsed (List Step))
    → Ensures AreRead r
    → ((ts : List Step) → AreRead ts → Ensures AreRead (k ts))
    → Ensures AreRead (then_steps r k)
then_steps-AreRead (err e) k h f = tt
then_steps-AreRead (ok ts) k h f = f ts h

parse_lines-AreRead :
    (ss : List Step) (ls : List Text) → AreRead ss → Ensures AreRead (parse_lines ss ls)
unfolding parse_lines parse_line parse_step_line
parse_lines-AreRead ss [] h = h
parse_lines-AreRead ss (l ∷ ls) h =
    let line = trim_start l in
    then_steps-AreRead (parse_line ss l) (λ ts. parse_lines ts ls)
      (take_step-AreRead ss line (parse_step_line line) h
        (marked-Fits line (strip_prefix (codes "- [") line)))
      (λ ts k. parse_lines-AreRead ts ls k)

-- A plan as a file can hold it.
abbrev pub IsPlan : Progress → Type 0
IsPlan p = (p.name ≢ []) × (p.branch ≢ []) × AreRead p.steps

non_empty-ne : (o : Option Text) (t : Text) → non_empty o ≡ some t → t ≢ []
unfolding is_empty
non_empty-ne none t h e = ground (arith, h)
non_empty-ne (some []) t h e = ground (arith, h)
non_empty-ne (some (c ∷ s)) t h e = ground (arith, h, e)

parsed_titles-IsPlan :
    (name branch : Option Text) (ls : List Text)
    → ((t : Text) → name ≡ some t → t ≢ [])
    → ((t : Text) → branch ≡ some t → t ≢ [])
    → Ensures IsPlan (parsed_titles name branch ls)
parsed_titles-IsPlan none branch ls n b = tt
parsed_titles-IsPlan (some name) none ls n b = tt
parsed_titles-IsPlan (some name) (some branch) ls n b =
    whole (parse_lines [] ls) (parse_lines-AreRead [] ls (tt, tt))
  where
    whole :
        (r : Parsed (List Step)) → Ensures AreRead r → Ensures IsPlan (parsed_steps name branch r)
    whole (err e) h = tt
    whole (ok ss) h = (n name refl, b branch refl, h)

-- A plan that is read from any text has a name and a branch, no two steps of one number, and
-- numbers and attempts that fit their types.
pub parse-IsPlan : (file : Text) (p : Progress) → parse file ≡ ok p → IsPlan p
unfolding parse title_after
parse-IsPlan file p h =
    let t = replace_crlf file in
    let name = find_title (codes "# Progress:") (lines t) in
    let branch = find_title (codes "Branch:") (lines t) in
    subst (Ensures IsPlan) h (
      parsed_titles-IsPlan (non_empty name) (non_empty branch) (lines t) (non_empty-ne name)
        (non_empty-ne branch))
