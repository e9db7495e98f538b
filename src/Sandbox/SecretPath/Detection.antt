-- ===== src/Sandbox/SecretPath/Detection.antt =====
-- Secret paths under a change of ASCII case, and below the directories of credentials.
use unshackled.Prelude.{
  ℕ, ◌≡◌, refl, ap, ◌∙◌, Bool, true, Option, none, some, [], ◌∷◌, ◌++◌, arith, if◌then◌else◌, any,
  all,
}
use unshackled.Text.{Text, one_of, text_eq, lower, lower_char, starts_with, contains}
use unshackled.Text.Laws.{lower_idem, one_of-all, any-one_of, text_eq_sound}
use unshackled.Text.FilePath.{file_name}
use unshackled.Text.FilePath.Laws.{lower_option, file_name-lower}
use unshackled.Sandbox.SecretPath.{
  or_empty, secret_dirs, forward_slash, lossy, is_secret_name, is_secret_like,
}

lower_option-or_empty : (o : Option Text) → or_empty (lower_option o) ≡ lower (or_empty o)
lower_option-or_empty none = refl
lower_option-or_empty (some s) = refl

forward_slash-lower :
    (c : ℕ) → lower_char (forward_slash (lower_char c)) ≡ lower_char (forward_slash c)
unfolding forward_slash lower_char
forward_slash-lower c = ground arith

lossy-lower : (path : Text) → lossy (lower path) ≡ lossy path
lossy-lower [] = refl
lossy-lower (c ∷ path) = ground (arith, forward_slash-lower c, lossy-lower path)

-- The case of its letters does not hide a secret path.
pub is_secret_like-lower : (path : Text) → is_secret_like (lower path) ≡ is_secret_like path
unfolding is_secret_like
is_secret_like-lower path = rw (
  lossy-lower path,
  file_name-lower path,
  lower_option-or_empty (file_name path),
  lower_idem (or_empty (file_name path)),
)

contains-append :
    (needle pre s : Text) → contains needle s ≡ true → contains needle (pre ++ s) ≡ true
unfolding contains
contains-append needle [] s h = h
contains-append needle (c ∷ pre) s h = ground (arith, contains-append needle pre s h)

starts_with-append : (p s : Text) → starts_with p (p ++ s) ≡ true
unfolding starts_with
starts_with-append [] s = refl
starts_with-append (c ∷ p) s = ground (arith, starts_with-append p s)

contains_prefix : (needle s : Text) → starts_with needle s ≡ true → contains needle s ≡ true
unfolding contains
contains_prefix needle [] h = h
contains_prefix needle (c ∷ s) h = ground (arith, h)

lossy-append : (s t : Text) → lossy (s ++ t) ≡ lossy s ++ lossy t
lossy-append [] t = refl
lossy-append (c ∷ s) t = ap (◌∷◌ (lower_char (forward_slash c))) (lossy-append s t)

is_lossy_dir : Text → Bool
is_lossy_dir d = text_eq (lossy d) d

secret_dirs_lossy : all is_lossy_dir secret_dirs ≡ true
unfolding is_lossy_dir text_eq lower_char forward_slash
secret_dirs_lossy = refl

secret_dir-lossy : (d : Text) → one_of d secret_dirs ≡ true → lossy d ≡ d
unfolding is_lossy_dir
secret_dir-lossy d m =
    text_eq_sound (lossy d) d (one_of-all is_lossy_dir secret_dirs d secret_dirs_lossy m)

contains-lossy : (d pre rest : Text) → lossy d ≡ d → contains d (lossy (pre ++ (d ++ rest))) ≡ true
contains-lossy d pre rest e =
    rw (lossy-append pre (d ++ rest), lossy-append d rest)
      (contains-append d (lossy pre) (lossy d ++ lossy rest) (
        contains_prefix d (lossy d ++ lossy rest)
          (ap (λ x. starts_with d (x ++ lossy rest)) e ∙ starts_with-append d (lossy rest))))

either_true : (a b : Bool) → b ≡ true → (if a then true else b) ≡ true
either_true a b h = ground arith

-- Every path through one of the credential directories is taken for a secret, whatever stands
-- before and behind.
pub secret_dir-is_secret_like :
    (d pre rest : Text) → one_of d secret_dirs ≡ true → is_secret_like (pre ++ (d ++ rest)) ≡ true
unfolding is_secret_like
secret_dir-is_secret_like d pre rest m =
    let inside : any (λ x. contains x (lossy (pre ++ (d ++ rest)))) secret_dirs ≡ true =
      any-one_of (λ x. contains x (lossy (pre ++ (d ++ rest)))) d secret_dirs
        (contains-lossy d pre rest (secret_dir-lossy d m)) m in
    either_true (is_secret_name (lower (or_empty (file_name (pre ++ (d ++ rest)))))) _ inside
