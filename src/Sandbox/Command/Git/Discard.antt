-- ===== src/Sandbox/Command/Git/Discard.antt =====
-- The git commands that discard uncommitted work.
use unshackled.Prelude.{
  ◌≡◌, refl, sym, ap, ◌∙◌, ◌⊎◌, ◌↔◌, inl, inr, ltb, length, any, Bool-cases, Bool, true, false,
  ◌&&◌, ◌||◌, List, [], ◌∷◌, ◌++◌, arith, all,
}
use unshackled.Text.{Text, codes, text_eq, one_of, lower, lower_char, starts_with, contains}
use unshackled.Text.Laws.{any-one_of, text_eq_sound, text_eq_refl}
use unshackled.Sandbox.Command.Class.{project_write, destructive, unknown}
use unshackled.Sandbox.Command.Programs.{any_arg}
use unshackled.Sandbox.Command.Git.{
  is_flag, operands, subcommand, classify_git, classify_git_sub, discards_working_tree, git_network,
  git_read_only, git_project_write,
}
use unshackled.Sandbox.Command.Classify.{
  program_stem, args_lower, classify_posix_stem, classify_posix,
}

-- The subcommand is found behind any flags.
subcommand-flags :
    (flags : List Text) (sub : Text) (rest : List Text)
    → all is_flag flags ≡ true
    → is_flag sub ≡ false
    → subcommand (flags ++ sub ∷ rest) ≡ (sub, rest)
unfolding subcommand
subcommand-flags [] sub rest h n = rw n
subcommand-flags (f ∷ flags) sub rest h n = ground (arith, subcommand-flags flags sub rest, h, n)

-- An argument that is no flag; and two of them.
abbrev pub HasOperand : List Text → Type 0
HasOperand [] = ⊥
HasOperand (a ∷ args) = (is_flag a ≡ false) ⊎ HasOperand args

abbrev pub HasTwoOperands : List Text → Type 0
HasTwoOperands [] = ⊥
HasTwoOperands (a ∷ args) = ((is_flag a ≡ false) × HasOperand args) ⊎ HasTwoOperands args

-- The forms that are taken to throw away changes in the working tree, by subcommand and arguments.
pub data Discards : Text → List Text → Type 0 where
  reset :
      {rest : List Text} (x : Text)
      → one_of x rest ≡ true
      → (x ≡ codes "--hard") ⊎ (x ≡ codes "--merge")
      → Discards (codes "reset") rest
  clean :
      {rest : List Text} (x : Text)
      → one_of x rest ≡ true
      → (x ≡ codes "--force") ⊎ ((is_flag x ≡ true) × (contains (codes "f") x ≡ true))
      → Discards (codes "clean") rest
  restore : {rest : List Text} → Discards (codes "restore") rest
  checkout_path :
      {rest : List Text} (x : Text)
      → one_of x rest ≡ true
      → (x ≡ codes "--") ⊎ ((x ≡ codes ".") ⊎ (starts_with (codes "./") x ≡ true))
      → Discards (codes "checkout") rest
  checkout_two : {rest : List Text} → HasTwoOperands rest → Discards (codes "checkout") rest

abbrev resets : Text → Bool
resets a = one_of a (codes "--hard" ∷ codes "--merge" ∷ [])

abbrev forces : Text → Bool
forces a = text_eq a (codes "--force") || (is_flag a && contains (codes "f") a)

abbrev pub names_path : Text → Bool
names_path a = text_eq a (codes "--") || text_eq a (codes ".") || starts_with (codes "./") a

resets_iff : (x : Text) → (resets x ≡ true) ↔ ((x ≡ codes "--hard") ⊎ (x ≡ codes "--merge"))
unfolding one_of
resets_iff x = (λ h. by_test (Bool-cases (text_eq x (codes "--hard"))) h, back)
  where
    by_test :
        (text_eq x (codes "--hard") ≡ true) ⊎ (text_eq x (codes "--hard") ≡ false)
        → resets x ≡ true
        → (x ≡ codes "--hard") ⊎ (x ≡ codes "--merge")
    by_test (inl y) h = inl (text_eq_sound x (codes "--hard") y)
    by_test (inr n) h = inr (text_eq_sound x (codes "--merge") (ground (arith, h, n)))

    back : (x ≡ codes "--hard") ⊎ (x ≡ codes "--merge") → resets x ≡ true
    back (inl e) = rw e (unfold text_eq in refl)
    back (inr e) = rw e (unfold text_eq in refl)

forces_iff :
    (x : Text)
    → (forces x ≡ true)
      ↔ ((x ≡ codes "--force") ⊎ ((is_flag x ≡ true) × (contains (codes "f") x ≡ true)))
forces_iff x = (λ h. by_test (Bool-cases (text_eq x (codes "--force"))) h, back)
  where
    by_test :
        (text_eq x (codes "--force") ≡ true) ⊎ (text_eq x (codes "--force") ≡ false)
        → forces x ≡ true
        → (x ≡ codes "--force") ⊎ ((is_flag x ≡ true) × (contains (codes "f") x ≡ true))
    by_test (inl y) h = inl (text_eq_sound x (codes "--force") y)
    by_test (inr n) h = inr (ground (arith, h, n), ground (arith, h, n))

    back :
        (x ≡ codes "--force") ⊎ ((is_flag x ≡ true) × (contains (codes "f") x ≡ true))
        → forces x ≡ true
    back (inl e) = rw e (unfold text_eq in refl)
    back (inr (f, c)) = ground (arith, f, c)

names_path_iff :
    (x : Text)
    → (names_path x ≡ true)
      ↔ ((x ≡ codes "--") ⊎ ((x ≡ codes ".") ⊎ (starts_with (codes "./") x ≡ true)))
names_path_iff x = (
  λ h. by_test (Bool-cases (text_eq x (codes "--"))) (Bool-cases (text_eq x (codes "."))) h,
  back,
)
  where
    by_test :
        (text_eq x (codes "--") ≡ true) ⊎ (text_eq x (codes "--") ≡ false)
        → (text_eq x (codes ".") ≡ true) ⊎ (text_eq x (codes ".") ≡ false)
        → names_path x ≡ true
        → (x ≡ codes "--") ⊎ ((x ≡ codes ".") ⊎ (starts_with (codes "./") x ≡ true))
    by_test (inl y) d h = inl (text_eq_sound x (codes "--") y)
    by_test (inr n) (inl y) h = inr (inl (text_eq_sound x (codes ".") y))
    by_test (inr n) (inr m) h = inr (inr (ground (arith, h, n, m)))

    back :
        (x ≡ codes "--") ⊎ ((x ≡ codes ".") ⊎ (starts_with (codes "./") x ≡ true))
        → names_path x ≡ true
    back (inl e) = rw e (unfold text_eq in refl)
    back (inr (inl e)) = rw e (unfold text_eq in refl)
    back (inr (inr s)) = ground (arith, s)

-- A list that passes a test holds an element that passes it.
any-element :
    (p : Text → Bool) (args : List Text)
    → any p args ≡ true
    → (x : Text) × (one_of x args ≡ true) × (p x ≡ true)
unfolding one_of
any-element p [] h = cc
any-element p (a ∷ args) h = elim (Bool-cases (p a)) [
  | inl y ↦ (a, ground (arith, text_eq_refl a), y)
  | inr n ↦
      let (x, among, holds) = any-element p args (ground (arith, h, n)) in
      (x, ground (arith, among), holds)
]

operands-HasOperand : (args : List Text) → (ltb 0 (length (operands args)) ≡ true) ↔ HasOperand args
operands-HasOperand [] = (λ h. ground (arith, h), λ h. absurd h)
operands-HasOperand (a ∷ args) = elim (Bool-cases (is_flag a)) [
  | inl f ↦ (
    λ h. inr ((operands-HasOperand args).0 (ground (arith, h, f))),
    λ h. (elim h [
      | inl n ↦ ground (arith, n, f)
      | inr later ↦ ground (arith, f, (operands-HasOperand args).1 later)
    ]),
  )
  | inr n ↦ (λ h. inl n, λ h. ground (arith, n))
]

operands-HasTwoOperands :
    (args : List Text) → (ltb 1 (length (operands args)) ≡ true) ↔ HasTwoOperands args
operands-HasTwoOperands [] = (λ h. ground (arith, h), λ h. absurd h)
operands-HasTwoOperands (a ∷ args) = elim (Bool-cases (is_flag a)) [
  | inl f ↦ (
    λ h. inr ((operands-HasTwoOperands args).0 (ground (arith, h, f))),
    λ h. (elim h [
      | inl (n, more) ↦ ground (arith, n, f)
      | inr later ↦ ground (arith, f, (operands-HasTwoOperands args).1 later)
    ]),
  )
  | inr n ↦ (
    λ h. inl (n, (operands-HasOperand args).0 (ground (arith, h, n))),
    λ h. (elim h [
      | inl (m, more) ↦ ground (arith, n, (operands-HasOperand args).1 more)
      | inr later ↦
          let two : ltb 1 (length (operands args)) ≡ true =
            (operands-HasTwoOperands args).1 later in
          ground (arith, n, two)
    ]),
  )
]

Discards-class :
    {sub : Text} {rest : List Text} → Discards sub rest → classify_git_sub sub rest ≡ destructive
unfolding classify_git_sub discards_working_tree any_arg one_of text_eq
Discards-class (reset {rest} x m h) = rw (any-one_of resets x rest ((resets_iff x).1 h) m)
Discards-class (clean {rest} x m h) = rw (any-one_of forces x rest ((forces_iff x).1 h) m)
Discards-class restore = refl
Discards-class (checkout_path {rest} x m h) =
    rw (any-one_of names_path x rest ((names_path_iff x).1 h) m)
Discards-class (checkout_two {rest} h) = elim (Bool-cases (any names_path rest)) [
  | inl y ↦ rw y refl
  | inr n ↦ rw (n, (operands-HasTwoOperands rest).1 h) refl
]

-- The tests of `classify_git` for a discarding form, one by one.
data Tested (sub : Text) (rest : List Text) : Type 0 where
  is_reset : text_eq sub (codes "reset") ≡ true → any resets rest ≡ true → Tested sub rest
  is_clean : text_eq sub (codes "clean") ≡ true → any forces rest ≡ true → Tested sub rest
  is_restore : text_eq sub (codes "restore") ≡ true → Tested sub rest
  is_checkout :
      text_eq sub (codes "checkout") ≡ true → discards_working_tree rest ≡ true → Tested sub rest

destructive-Tested :
    (sub : Text) (rest : List Text) → classify_git_sub sub rest ≡ destructive → Tested sub rest
unfolding classify_git_sub any_arg
destructive-Tested sub rest h = elim (Bool-cases (one_of sub git_network)) [
  | inl y ↦ ground (arith, h, y)
  | inr n ↦ elim (Bool-cases (one_of sub git_read_only)) [
    | inl y ↦ ground (arith, h, n, y)
    | inr m ↦ elim (Bool-cases (text_eq sub (codes "reset") && any resets rest)) [
      | inl y ↦ is_reset (ground (arith, y)) (ground (arith, y))
      | inr r ↦ elim (Bool-cases (text_eq sub (codes "clean") && any forces rest)) [
        | inl y ↦ is_clean (ground (arith, y)) (ground (arith, y))
        | inr c ↦ elim (Bool-cases (text_eq sub (codes "restore"))) [
          | inl y ↦ is_restore y
          | inr t ↦
              elim (Bool-cases (text_eq sub (codes "checkout") && discards_working_tree rest)) [
                | inl y ↦ is_checkout (ground (arith, y)) (ground (arith, y))
                | inr k ↦ elim (Bool-cases (one_of sub git_project_write)) [
                  | inl y ↦ absurd (not_write (rw (n, m, r, c, t, k, y) at h))
                  | inr q ↦ absurd (not_unknown (rw (n, m, r, c, t, k, q) at h))
                ]
              ]
        ]
      ]
    ]
  ]
]
  where
    not_write : project_write ≡ destructive → ⊥
    not_write e = cc

    not_unknown : unknown ≡ destructive → ⊥
    not_unknown e = cc

checkout-Discards :
    (rest : List Text) → discards_working_tree rest ≡ true → Discards (codes "checkout") rest
unfolding discards_working_tree
checkout-Discards rest h = elim (Bool-cases (any names_path rest)) [
  | inl y ↦
      let (x, m, p) = any-element names_path rest y in checkout_path x m ((names_path_iff x).0 p)
  | inr n ↦ checkout_two ((operands-HasTwoOperands rest).0 (rw n at h))
]

Tested-Discards : (sub : Text) (rest : List Text) → Tested sub rest → Discards sub rest
Tested-Discards sub rest (is_reset e h) =
    let (x, m, p) = any-element resets rest h in
    rw (text_eq_sound sub (codes "reset") e) (reset x m ((resets_iff x).0 p))
Tested-Discards sub rest (is_clean e h) =
    let (x, m, p) = any-element forces rest h in
    rw (text_eq_sound sub (codes "clean") e) (clean x m ((forces_iff x).0 p))
Tested-Discards sub rest (is_restore e) = rw (text_eq_sound sub (codes "restore") e) restore
Tested-Discards sub rest (is_checkout e h) =
    rw (text_eq_sound sub (codes "checkout") e) (checkout-Discards rest h)

classify_posix_stem-git :
    (args : List Text) → classify_posix_stem (codes "git") args ≡ classify_git args
unfolding classify_posix_stem one_of text_eq
classify_posix_stem-git args = refl

-- git, however it is named and behind flags that take no argument of their own, is classed as
-- destructive in exactly these forms: `reset` with `--hard` or `--merge`; `clean` with `--force` or a
-- flag that holds an `f`; `restore`; and `checkout` with `--`, `.`, an argument that starts with `./`,
-- or two arguments that are no flags. All letters are compared in lower case.
pub Discards-classify_posix :
    (program : Text) (args flags : List Text) (sub : Text) (rest : List Text)
    → program_stem program ≡ codes "git"
    → args_lower args ≡ flags ++ sub ∷ rest
    → all is_flag flags ≡ true
    → is_flag sub ≡ false
    → (classify_posix program args ≡ destructive) ↔ Discards sub rest
unfolding classify_posix
Discards-classify_posix program args flags sub rest p a f n =
    let same : classify_posix program args ≡ classify_git_sub sub rest =
      ap (λ s. classify_posix_stem s (args_lower args)) p
      ∙ ap (classify_posix_stem (codes "git")) a
      ∙ classify_posix_stem-git (flags ++ sub ∷ rest)
      ∙ ap (λ q. classify_git_sub q.0 q.1) (subcommand-flags flags sub rest f n) in
    (
      λ h. Tested-Discards sub rest (destructive-Tested sub rest (sym same ∙ h)),
      λ d. same ∙ Discards-class d,
    )

forced_checkout-class :
    (branch : Text)
    → is_flag branch ≡ false
    → names_path branch ≡ false
    → classify_git (codes "checkout" ∷ codes "-f" ∷ branch ∷ []) ≡ project_write
unfolding classify_git one_of text_eq starts_with contains
forced_checkout-class branch f n = rw (n, f)

-- A forced checkout of a branch discards uncommitted work too, and is classed as a project write.
pub forced_checkout-classify_posix :
    (branch : Text)
    → is_flag (lower branch) ≡ false
    → names_path (lower branch) ≡ false
    → classify_posix (codes "git") (codes "checkout" ∷ codes "-f" ∷ branch ∷ []) ≡ project_write
unfolding classify_posix one_of text_eq lower_char
forced_checkout-classify_posix branch f n =
    classify_posix_stem-git (codes "checkout" ∷ codes "-f" ∷ lower branch ∷ [])
    ∙ forced_checkout-class (lower branch) f n
