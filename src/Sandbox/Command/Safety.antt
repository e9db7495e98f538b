-- ===== src/Sandbox/Command/Safety.antt =====
-- Commands by the program that they run, through the classifiers and the permission engine.
use unshackled.Prelude.{
  ◌≡◌, ◌≢◌, refl, ◌⊎◌, inl, inr, Bool, true, false, not, List, [], ◌∷◌, ◌++◌, arith, if◌then◌else◌,
  Bool-cases, all,
}
use unshackled.Text.{Text, text_eq, one_of}
use unshackled.Text.Laws.{one_of-all}
use unshackled.Sandbox.Command.Class.{CommandClass, destructive, privileged, unknown}
use unshackled.Sandbox.Command.Programs.{is_opaque_wrapper, wrappers, interpreters}
use unshackled.Sandbox.Command.Classify.{
  program_stem, args_lower, privileged_programs, destructive_programs, classify_posix_stem,
  classify_posix,
}
use unshackled.Sandbox.Permission.Floor.{Gated, destroys, escalates, opaque, Gated-decide}
use unshackled.Sandbox.Permission.{
  run_command, PermissionRequest, PermissionEngine, bypass, ask_or_deny, decide,
}

abbrev apart : List Text → Text → Bool
apart ys x = not (one_of x ys)

-- A text of one list of literals is not in another that shares none with it.
one_of-apart :
    (xs ys : List Text) (s : Text)
    → all (apart ys) xs ≡ true
    → one_of s xs ≡ true
    → one_of s ys ≡ false
one_of-apart xs ys s h m = ground (arith, one_of-all (apart ys) xs s h m)

text_eq-of_one_of :
    (xs : List Text) (s t : Text)
    → all (apart (t ∷ [])) xs ≡ true
    → one_of s xs ≡ true
    → text_eq s t ≡ false
unfolding one_of
text_eq-of_one_of xs s t h m = ground (arith, one_of-apart xs (t ∷ []) s h m)

wrappers-privileged : all (apart (privileged_programs)) wrappers ≡ true
unfolding one_of text_eq
wrappers-privileged = refl

destructive-privileged : all (apart (privileged_programs)) destructive_programs ≡ true
unfolding one_of text_eq
destructive-privileged = refl

destructive-wrappers : all (apart (wrappers)) destructive_programs ≡ true
unfolding one_of text_eq
destructive-wrappers = refl

destructive-interpreters : all (apart (interpreters)) destructive_programs ≡ true
unfolding one_of text_eq
destructive-interpreters = refl

posix-privileged :
    (stem : Text) (args : List Text)
    → one_of stem privileged_programs ≡ true
    → classify_posix_stem stem args ≡ privileged
unfolding classify_posix_stem
posix-privileged stem args m = rw m

posix-wrappers :
    (stem : Text) (args : List Text)
    → one_of stem wrappers ≡ true
    → classify_posix_stem stem args ≡ unknown
unfolding classify_posix_stem
posix-wrappers stem args m =
    rw (one_of-apart wrappers privileged_programs stem wrappers-privileged m, m)

is_opaque_wrapper-destructive :
    (stem : Text) (args : List Text)
    → one_of stem destructive_programs ≡ true
    → is_opaque_wrapper stem args ≡ false
unfolding is_opaque_wrapper
is_opaque_wrapper-destructive stem args m = rw (
  one_of-apart destructive_programs wrappers stem destructive-wrappers m,
  one_of-apart destructive_programs interpreters stem destructive-interpreters m,
)

if_same : (b : Bool) (c : CommandClass) → (if b then c else c) ≡ c
if_same b c = ground arith

posix-destructive :
    (stem : Text) (args : List Text)
    → one_of stem destructive_programs ≡ true
    → classify_posix_stem stem args ≡ destructive
unfolding classify_posix_stem
posix-destructive stem args m = rw (
  one_of-apart destructive_programs privileged_programs stem destructive-privileged m,
  one_of-apart destructive_programs wrappers stem destructive-wrappers m,
  one_of-apart destructive_programs interpreters stem destructive-interpreters m,
  m,
  if_same,
)

-- The programs that change the user, hide a command from the classifier, or destroy data.
abbrev pub gated_programs : List Text
gated_programs = privileged_programs ++ (wrappers ++ destructive_programs)

one_of-append :
    (s : Text) (xs ys : List Text)
    → one_of s (xs ++ ys) ≡ true
    → (one_of s xs ≡ true) ⊎ (one_of s ys ≡ true)
unfolding one_of
one_of-append s [] ys h = inr h
one_of-append s (x ∷ xs) ys h = elim (Bool-cases (text_eq s x)) [
  | inl e ↦ inl (rw e)
  | inr n ↦ elim (one_of-append s xs ys (ground arith)) [
    | inl a ↦ inl (ground (arith, a))
    | inr b ↦ inr b
  ]
]

posix-Gated :
    (stem : Text) (args : List Text)
    → one_of stem gated_programs ≡ true
    → Gated (run_command (classify_posix_stem stem args))
posix-Gated stem args h =
    elim (one_of-append stem privileged_programs (wrappers ++ destructive_programs) h) [
      | inl p ↦ rw (posix-privileged stem args p) escalates
      | inr q ↦ elim (one_of-append stem wrappers destructive_programs q) [
        | inl w ↦ rw (posix-wrappers stem args w) opaque
        | inr d ↦ rw (posix-destructive stem args d) destroys
      ]
    ]

-- Under every profile but `bypass`, a command whose program changes the user, wraps another
-- command or destroys data is put to the user, or denied where there is none: whatever its
-- arguments, the directory and the case of its name, the allowlist and the trust.
pub gated_program-decide :
    (e : PermissionEngine) (r : PermissionRequest) (program : Text) (args : List Text)
    → e.profile ≢ bypass
    → one_of (program_stem program) gated_programs ≡ true
    → r.effect ≡ run_command (classify_posix program args)
    → decide e r ≡ ask_or_deny r.interactivity
unfolding classify_posix
gated_program-decide e r program args n h p =
    Gated-decide e r n (rw p (posix-Gated (program_stem program) (args_lower args) h))
