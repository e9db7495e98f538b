-- ===== src/Sandbox/Command/Git.antt =====
-- `classify_git` of crates/localpilot-sandbox/src/command.rs.
pub mod Discard
use unshackled.Prelude.{
  ℕ, Bool, true, false, not, ◌&&◌, ◌||◌, Option, none, some, List, [], ◌∷◌, length, any, ltb,
  if◌then◌else◌,
}
use unshackled.Text.{Text, codes, text_eq, one_of, starts_with, contains}
use unshackled.Sandbox.Command.Class.{
  CommandClass, read_only, project_write, network, destructive, unknown,
}
use unshackled.Sandbox.Command.Programs.{any_arg}

abbrev pub is_flag : Text → Bool
is_flag a = starts_with (codes "-") a

-- The first argument that is no flag, and the arguments behind it.
unfoldable pub subcommand : List Text → Text × List Text
subcommand [] = ([], [])
subcommand (a ∷ args) = let later = subcommand args in if not (is_flag a) then (a, args) else later

abbrev pub operands : List Text → List Text
operands [] = []
operands (a ∷ args) = if not (is_flag a) then a ∷ operands args else operands args

unfoldable pub discards_working_tree : List Text → Bool
discards_working_tree rest =
    if any (λ a. text_eq a (codes "--") || text_eq a (codes ".") || starts_with (codes "./") a) rest
    then true
    else ltb 1 (length (operands rest))

abbrev pub git_network : List Text
git_network =
    codes "clone"
    ∷ codes "pull"
    ∷ codes "push"
    ∷ codes "fetch"
    ∷ codes "remote"
    ∷ codes "submodule"
    ∷ []

abbrev pub git_read_only : List Text
git_read_only =
    codes "status"
    ∷ codes "log"
    ∷ codes "diff"
    ∷ codes "show"
    ∷ codes "branch"
    ∷ codes "rev-parse"
    ∷ codes "describe"
    ∷ codes "blame"
    ∷ codes "tag"
    ∷ codes "ls-files"
    ∷ []

abbrev pub git_project_write : List Text
git_project_write =
    codes "add"
    ∷ codes "commit"
    ∷ codes "checkout"
    ∷ codes "switch"
    ∷ codes "stash"
    ∷ codes "merge"
    ∷ codes "rebase"
    ∷ codes "reset"
    ∷ codes "cherry-pick"
    ∷ codes "apply"
    ∷ codes "mv"
    ∷ codes "rm"
    ∷ []

unfoldable pub classify_git_sub : Text → List Text → CommandClass
unfolding any_arg discards_working_tree
classify_git_sub sub rest =
    if one_of sub git_network
    then network
    else if one_of sub git_read_only
    then read_only
    else if text_eq sub (codes "reset") && any_arg rest (codes "--hard" ∷ codes "--merge" ∷ [])
    then destructive
    else if text_eq sub (codes "clean")
        && any (λ a. text_eq a (codes "--force") || (is_flag a && contains (codes "f") a)) rest
    then destructive
    else if text_eq sub (codes "restore")
    then destructive
    else if text_eq sub (codes "checkout") && discards_working_tree rest
    then destructive
    else if one_of sub git_project_write
    then project_write
    else unknown

unfoldable pub classify_git : List Text → CommandClass
unfolding subcommand classify_git_sub
classify_git args = let (sub, rest) = subcommand args in classify_git_sub sub rest
