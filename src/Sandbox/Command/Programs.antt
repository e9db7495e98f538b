-- ===== src/Sandbox/Command/Programs.antt =====
-- The tables of programs in crates/localpilot-sandbox/src/command.rs.
use unshackled.Prelude.{Bool, true, false, ◌&&◌, List, [], ◌∷◌, any, if◌then◌else◌}
use unshackled.Text.{Text, codes, text_eq, one_of}

unfoldable pub any_arg : List Text → List Text → Bool
any_arg args needles = any (λ a. one_of a needles) args

abbrev pub wrappers : List Text
wrappers =
    codes "bash"
    ∷ codes "sh"
    ∷ codes "zsh"
    ∷ codes "dash"
    ∷ codes "ksh"
    ∷ codes "fish"
    ∷ codes "env"
    ∷ codes "nohup"
    ∷ codes "xargs"
    ∷ codes "nice"
    ∷ codes "ionice"
    ∷ codes "stdbuf"
    ∷ codes "timeout"
    ∷ codes "time"
    ∷ codes "wsl"
    ∷ []

abbrev pub interpreters : List Text
interpreters =
    codes "python"
    ∷ codes "python3"
    ∷ codes "node"
    ∷ codes "deno"
    ∷ codes "bun"
    ∷ codes "perl"
    ∷ codes "ruby"
    ∷ codes "php"
    ∷ []

abbrev pub inline_code_flags : List Text
inline_code_flags = codes "-c" ∷ codes "-e" ∷ codes "--eval" ∷ codes "-eval" ∷ []

unfoldable pub is_opaque_wrapper : Text → List Text → Bool
unfolding any_arg
is_opaque_wrapper stem args =
    if one_of stem wrappers
    then true
    else one_of stem interpreters && any_arg args inline_code_flags

abbrev pub network_programs : List Text
network_programs =
    codes "curl"
    ∷ codes "wget"
    ∷ codes "ssh"
    ∷ codes "scp"
    ∷ codes "sftp"
    ∷ codes "rsync"
    ∷ codes "nc"
    ∷ codes "ncat"
    ∷ codes "netcat"
    ∷ codes "telnet"
    ∷ codes "ping"
    ∷ codes "ftp"
    ∷ codes "http"
    ∷ codes "https"
    ∷ []

unfoldable pub is_network_program : Text → Bool
is_network_program stem = one_of stem network_programs

abbrev pub package_managers : List Text
package_managers =
    codes "apt"
    ∷ codes "apt-get"
    ∷ codes "yum"
    ∷ codes "dnf"
    ∷ codes "pacman"
    ∷ codes "brew"
    ∷ codes "pip"
    ∷ codes "pip3"
    ∷ codes "npm"
    ∷ codes "pnpm"
    ∷ codes "yarn"
    ∷ codes "gem"
    ∷ codes "go"
    ∷ []

abbrev pub installs : List Text
installs =
    codes "install"
    ∷ codes "add"
    ∷ codes "update"
    ∷ codes "upgrade"
    ∷ codes "publish"
    ∷ codes "fetch"
    ∷ codes "remove"
    ∷ []

abbrev pub cargo_installs : List Text
cargo_installs = codes "install" ∷ codes "add" ∷ codes "publish" ∷ codes "update" ∷ []

unfoldable pub is_network_package_op : Text → List Text → Bool
unfolding any_arg
is_network_package_op stem args =
    if one_of stem package_managers
    then any_arg args installs
    else if text_eq stem (codes "cargo")
    then any_arg args cargo_installs
    else false

abbrev pub read_only_programs : List Text
read_only_programs =
    codes "ls"
    ∷ codes "cat"
    ∷ codes "echo"
    ∷ codes "pwd"
    ∷ codes "head"
    ∷ codes "tail"
    ∷ codes "wc"
    ∷ codes "grep"
    ∷ codes "egrep"
    ∷ codes "fgrep"
    ∷ codes "rg"
    ∷ codes "stat"
    ∷ codes "file"
    ∷ codes "which"
    ∷ codes "type"
    ∷ codes "basename"
    ∷ codes "dirname"
    ∷ codes "true"
    ∷ codes "date"
    ∷ codes "printenv"
    ∷ codes "sort"
    ∷ codes "uniq"
    ∷ codes "cut"
    ∷ codes "tr"
    ∷ codes "less"
    ∷ codes "more"
    ∷ codes "tree"
    ∷ codes "du"
    ∷ codes "df"
    ∷ codes "uname"
    ∷ codes "whoami"
    ∷ codes "id"
    ∷ codes "hostname"
    ∷ codes "awk"
    ∷ codes "cmp"
    ∷ codes "diff"
    ∷ codes "realpath"
    ∷ codes "readlink"
    ∷ []

unfoldable pub is_read_only_program : Text → Bool
is_read_only_program stem = one_of stem read_only_programs

abbrev pub project_write_programs : List Text
project_write_programs =
    codes "touch"
    ∷ codes "mkdir"
    ∷ codes "mv"
    ∷ codes "cp"
    ∷ codes "ln"
    ∷ codes "tee"
    ∷ codes "install"
    ∷ codes "make"
    ∷ codes "cargo"
    ∷ codes "npm"
    ∷ codes "pnpm"
    ∷ codes "yarn"
    ∷ codes "cmake"
    ∷ codes "ninja"
    ∷ codes "rustc"
    ∷ codes "go"
    ∷ []

unfoldable pub is_project_write_program : Text → Bool
is_project_write_program stem = one_of stem project_write_programs
