-- ===== src/Sandbox/Command/Case.antt =====
-- The class of a command under a change of ASCII case, and with the directory of its program.
use unshackled.Prelude.{◌≡◌, sym, ap, ◌∙◌, Option, none, some, List, ◌∷◌, ◌++◌, map}
use unshackled.Text.{Text, lower}
use unshackled.Text.Laws.{lower_idem, map-lower_idem}
use unshackled.Text.FilePath.{file_name, name_stem}
use unshackled.Text.FilePath.Laws.{
  IsName, lower_option, file_name-lower, name_stem-lower, file_name-IsName, file_name-dir,
}
use unshackled.Sandbox.Command.Classify.{program_stem, stem_or, classify_posix, classify_windows}

stem_or-lower :
    (program : Text) (o : Option Text)
    → lower (stem_or (lower program) (lower_option o)) ≡ lower (stem_or program o)
stem_or-lower program none = lower_idem program
stem_or-lower program (some name) = ap lower (name_stem-lower name) ∙ lower_idem (name_stem name)

program_stem-lower : (program : Text) → program_stem (lower program) ≡ program_stem program
unfolding program_stem
program_stem-lower program =
    ap (λ o. lower (stem_or (lower program) o)) (file_name-lower program)
    ∙ stem_or-lower program (file_name program)

-- Upper and lower case cannot be used to get another class, on either platform.
pub classify-lower :
    (program : Text) (args : List Text)
    → (classify_posix (lower program) (map lower args) ≡ classify_posix program args)
      × (classify_windows (lower program) (map lower args) ≡ classify_windows program args)
unfolding classify_posix classify_windows
classify-lower program args = (
  rw (program_stem-lower program, map-lower_idem args),
  rw (program_stem-lower program, map-lower_idem args),
)

program_stem-dir :
    (dir name : Text) → IsName name → program_stem (dir ++ b'/' ∷ name) ≡ program_stem name
unfolding program_stem
program_stem-dir dir name v =
    ap (λ o. lower (stem_or (dir ++ b'/' ∷ name) o)) (file_name-dir dir name v)
    ∙ ap (λ o. lower (stem_or name o)) (sym (file_name-IsName name v))

-- A program that is named with its directory gets the class of its bare name, on either platform.
pub classify-dir :
    (dir name : Text) (args : List Text)
    → IsName name
    → (classify_posix (dir ++ b'/' ∷ name) args ≡ classify_posix name args)
      × (classify_windows (dir ++ b'/' ∷ name) args ≡ classify_windows name args)
unfolding classify_posix classify_windows
classify-dir dir name args v = (rw (program_stem-dir dir name v), rw (program_stem-dir dir name v))
