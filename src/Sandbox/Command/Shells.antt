-- ===== src/Sandbox/Command/Shells.antt =====
-- `classify_powershell` and `classify_cmd` of crates/localpilot-sandbox/src/command.rs.
use unshackled.Prelude.{◌&&◌, ◌||◌, List, if◌then◌else◌}
use unshackled.Text.{Text, codes, contains, join}
use unshackled.Sandbox.Command.Class.{
  CommandClass, read_only, project_write, network, destructive, privileged, unknown,
}

unfoldable pub classify_powershell : List Text → CommandClass
classify_powershell args =
    let joined = join args in
    if contains (codes "remove-item") joined
      && (contains (codes "-recurse") joined || contains (codes "-force") joined)
    then destructive
    else if contains (codes "remove-item") joined
        || contains (codes "clear-content") joined
        || contains (codes "format-volume") joined
    then destructive
    else if contains (codes "hklm:") joined
        || contains (codes "set-itemproperty") joined
        || contains (codes "new-itemproperty") joined
    then privileged
    else if contains (codes "invoke-webrequest") joined
        || contains (codes "invoke-restmethod") joined
        || contains (codes "start-bitstransfer") joined
    then network
    else if contains (codes "set-content") joined
        || contains (codes "add-content") joined
        || contains (codes "out-file") joined
        || contains (codes "new-item") joined
    then project_write
    else if contains (codes "get-") joined
        || contains (codes "select-") joined
        || contains (codes "write-output") joined
        || contains (codes "write-host") joined
    then read_only
    else unknown

unfoldable pub classify_cmd : List Text → CommandClass
classify_cmd args =
    let joined = join args in
    if contains (codes "del ") joined
      || contains (codes "erase ") joined
      || contains (codes "rd ") joined
      || contains (codes "rmdir") joined
      || contains (codes "format ") joined
    then destructive
    else if contains (codes "reg add") joined || contains (codes "reg delete") joined
    then privileged
    else if contains (codes "copy ") joined
        || contains (codes "move ") joined
        || contains (codes "md ") joined
        || contains (codes "mkdir") joined
    then project_write
    else if contains (codes "type ") joined
        || contains (codes "dir") joined
        || contains (codes "echo") joined
    then read_only
    else unknown
