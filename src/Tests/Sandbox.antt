-- ===== src/Tests/Sandbox.antt =====
-- The sandbox at concrete inputs.
use unshackled.Prelude.{◌≤◌, ◌≡◌, refl, ◌↔◌, true, false, some, List, [], ◌∷◌, arith}
use unshackled.Text.{Text, codes, text_eq, one_of, starts_with, lower_char}
use unshackled.Text.Split.{is_empty}
use unshackled.Text.FilePath.{file_name, name_stem}
use unshackled.Text.FilePath.Laws.{IsName}
use unshackled.Sandbox.Permission.{
  allow, deny, default_profile, relaxed, run_command, non_interactive, PermissionRequest,
  PermissionEngine, ask_or_deny, decide,
}
use unshackled.Sandbox.Permission.Decide.{Approved, decide-allow_iff}
use unshackled.Sandbox.Permission.Order.{leniency, decide_mono}
use unshackled.Sandbox.Command.Class.{destructive, privileged, project_write}
use unshackled.Sandbox.Command.Classify.{program_stem, classify_posix}
use unshackled.Sandbox.Command.Safety.{gated_program-decide}
use unshackled.Sandbox.Command.Git.Discard.{
  Discards, Discards-classify_posix, forced_checkout-classify_posix,
}
use unshackled.Sandbox.Workspace.{
  Component, root_dir, cur_dir, parent_dir, normal, Components, FileSystem, Workspace, ok, is_below,
  lexically_normalize, canonicalize_existing_prefix, resolve, contains_path,
}
use unshackled.Sandbox.Workspace.Lexical.{walk, walk-lexically_normalize}
use unshackled.Sandbox.Workspace.Containment.{
  Resolves, IsInside, contains_path-resolve_iff, canonicalize_existing_prefix-Resolves,
}

abbrev engine : PermissionEngine
engine = record { profile = relaxed; allowlist = codes "shell" ∷ [] }

abbrev removal : PermissionRequest
removal = record {
  tool = codes "shell";
  effect = run_command destructive;
  interactivity = non_interactive;
  trusted = true;
  detail = codes "rm -rf build";
}

decide-allow_iff_example : (decide engine removal ≡ allow) ↔ Approved engine removal
decide-allow_iff_example = decide-allow_iff engine removal

decide_mono_example :
    (leniency (decide engine (record removal { trusted = false }))
      ≤ leniency (decide engine (record removal { trusted = true })))
    × (leniency (decide (record engine { profile = default_profile }) removal)
        ≤ leniency (decide (record engine { profile = relaxed }) removal))
decide_mono_example = decide_mono engine removal

abbrev sudo_request : PermissionRequest
sudo_request = record removal { effect = run_command privileged }

gated_program-decide_example : decide engine sudo_request ≡ deny
unfolding ask_or_deny classify_posix one_of text_eq program_stem file_name name_stem lower_char
gated_program-decide_example =
    gated_program-decide engine sudo_request (codes "/usr/bin/Sudo") (codes "ls" ∷ [])
      (ground arith) refl refl

abbrev git_args : List Text
git_args = codes "--no-pager" ∷ codes "Reset" ∷ codes "--hard" ∷ []

Discards-classify_posix_example :
    (classify_posix (codes "/usr/bin/git") git_args ≡ destructive)
    ↔ Discards (codes "reset") (codes "--hard" ∷ [])
unfolding program_stem file_name name_stem lower_char starts_with one_of text_eq is_empty
Discards-classify_posix_example =
    Discards-classify_posix (codes "/usr/bin/git") git_args (codes "--no-pager" ∷ [])
      (codes "reset") (codes "--hard" ∷ []) refl refl refl refl

forced_checkout-classify_posix_example :
    classify_posix (codes "git") (codes "checkout" ∷ codes "-f" ∷ codes "main" ∷ []) ≡ project_write
unfolding starts_with text_eq lower_char
forced_checkout-classify_posix_example = forced_checkout-classify_posix (codes "main") refl refl

rm-IsName : IsName (codes "rm")
unfolding text_eq is_empty
rm-IsName = record { one_piece = refl; proper = refl }

abbrev src : Component
src = normal (codes "src")

abbrev winding : Components
winding = root_dir ∷ src ∷ cur_dir ∷ parent_dir ∷ normal (codes "lib") ∷ []

walk-lexically_normalize_example : walk [] (lexically_normalize winding) ≡ codes "lib" ∷ []
walk-lexically_normalize_example = walk-lexically_normalize [] winding

-- A file system without symbolic links, in which only the root and `/src` exist.
abbrev files : FileSystem
files = record {
  exists = λ path. is_below path (root_dir ∷ src ∷ []);
  canonicalize = λ path. some path;
}

abbrev workspace : Workspace
workspace = record { root = root_dir ∷ src ∷ [] }

contains_path-resolve_iff_example : (contains_path files workspace winding ≡ true) ↔ (
    (real : Components) × (resolve files workspace winding ≡ ok real)
    × IsInside files workspace winding real)
contains_path-resolve_iff_example = contains_path-resolve_iff files workspace winding

canonicalize_existing_prefix-Resolves_example :
    Resolves files winding (canonicalize_existing_prefix files winding)
canonicalize_existing_prefix-Resolves_example = canonicalize_existing_prefix-Resolves files winding
