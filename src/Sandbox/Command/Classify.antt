-- ===== src/Sandbox/Command/Classify.antt =====
-- crates/localpilot-sandbox/src/command.rs: the classifiers of the two platforms.
use unshackled.Prelude.{not, ◌&&◌, ◌||◌, Option, none, some, List, [], ◌∷◌, map, if◌then◌else◌}
use unshackled.Text.{Text, codes, text_eq, one_of, lower}
use unshackled.Text.FilePath.{file_name, name_stem}
use unshackled.Sandbox.Command.Class.{
  CommandClass, read_only, project_write, network, destructive, privileged, unknown,
}
use unshackled.Sandbox.Command.Programs.{
  is_opaque_wrapper, is_network_program, is_network_package_op, is_read_only_program,
  is_project_write_program, any_arg,
}
use unshackled.Sandbox.Command.Git.{classify_git}
use unshackled.Sandbox.Command.Shells.{classify_powershell, classify_cmd}

abbrev pub stem_or : Text → Option Text → Text
stem_or program none = program
stem_or program (some name) = name_stem name

-- A path with no last name is taken whole.
unfoldable pub program_stem : Text → Text
unfolding file_name name_stem
program_stem program = lower (stem_or program (file_name program))

abbrev pub args_lower : List Text → List Text
args_lower = map lower

abbrev pub privileged_programs : List Text
privileged_programs = codes "sudo" ∷ codes "doas" ∷ codes "su" ∷ codes "pkexec" ∷ []

abbrev pub rm_flags : List Text
rm_flags =
    codes "-r" ∷ codes "-rf" ∷ codes "-fr" ∷ codes "-f" ∷ codes "--recursive" ∷ codes "--force" ∷ []

abbrev pub destructive_programs : List Text
destructive_programs =
    codes "rm"
    ∷ codes "rmdir"
    ∷ codes "shred"
    ∷ codes "dd"
    ∷ codes "mkfs"
    ∷ codes "fdisk"
    ∷ codes "parted"
    ∷ codes "wipefs"
    ∷ codes "truncate"
    ∷ []

abbrev pub in_place : List Text
in_place = codes "-i" ∷ codes "--in-place" ∷ []

unfoldable pub classify_posix_stem : Text → List Text → CommandClass
unfolding any_arg is_opaque_wrapper is_network_program is_network_package_op is_read_only_program
    is_project_write_program classify_git
classify_posix_stem stem args =
    if one_of stem privileged_programs
    then privileged
    else if is_opaque_wrapper stem args
    then unknown
    else if text_eq stem (codes "rm") && any_arg args rm_flags
    then destructive
    else if one_of stem destructive_programs
    then destructive
    else if is_network_program stem || is_network_package_op stem args
    then network
    else if text_eq stem (codes "git")
    then classify_git args
    else if is_read_only_program stem || (text_eq stem (codes "sed") && not (any_arg args in_place))
    then read_only
    else if is_project_write_program stem || (text_eq stem (codes "sed") && any_arg args in_place)
    then project_write
    else unknown

unfoldable pub classify_posix : Text → List Text → CommandClass
unfolding program_stem classify_posix_stem
classify_posix program args = classify_posix_stem (program_stem program) (args_lower args)

abbrev pub windows_privileged : List Text
windows_privileged = codes "reg" ∷ codes "regedit" ∷ []

abbrev pub windows_destructive : List Text
windows_destructive =
    codes "del"
    ∷ codes "erase"
    ∷ codes "rd"
    ∷ codes "rmdir"
    ∷ codes "format"
    ∷ codes "diskpart"
    ∷ []

abbrev pub windows_project_write : List Text
windows_project_write =
    codes "copy" ∷ codes "move" ∷ codes "md" ∷ codes "mkdir" ∷ codes "xcopy" ∷ codes "robocopy" ∷ []

abbrev pub windows_read_only : List Text
windows_read_only = codes "type" ∷ codes "dir" ∷ codes "where" ∷ codes "findstr" ∷ codes "more" ∷ []

unfoldable pub classify_windows_stem : Text → List Text → CommandClass
unfolding any_arg is_opaque_wrapper is_network_program is_network_package_op is_read_only_program
    is_project_write_program classify_git classify_powershell classify_cmd
classify_windows_stem stem args =
    if one_of stem (codes "runas" ∷ [])
    then privileged
    else if one_of stem windows_privileged
    then privileged
    else if one_of stem (codes "powershell" ∷ codes "pwsh" ∷ [])
    then classify_powershell args
    else if text_eq stem (codes "cmd")
    then classify_cmd args
    else if is_opaque_wrapper stem args
    then unknown
    else if one_of stem windows_destructive
    then destructive
    else if one_of stem windows_project_write
    then project_write
    else if one_of stem windows_read_only
    then read_only
    else if is_network_program stem || is_network_package_op stem args
    then network
    else if text_eq stem (codes "git")
    then classify_git args
    else if is_read_only_program stem
    then read_only
    else if is_project_write_program stem
    then project_write
    else unknown

-- On POSIX paths; the separators of Windows paths are not modelled.
unfoldable pub classify_windows : Text → List Text → CommandClass
unfolding program_stem classify_windows_stem
classify_windows program args = classify_windows_stem (program_stem program) (args_lower args)
