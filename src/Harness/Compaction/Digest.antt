-- ===== src/Harness/Compaction/Digest.antt =====
-- crates/localpilot-harness/src/compaction.rs: the digest of dropped exchanges, `semantic_digest`. What
-- serde_json reads in the text of a tool's input is a parameter.
use unshackled.Prelude.{
  ℕ, zero, suc, Bool, ◌||◌, Option, none, some, List, [], ◌∷◌, any, ◌==◌, if◌then◌else◌,
}
use unshackled.Text.{Text, codes, one_of, lower, contains}
use unshackled.Text.Trim.{ends_with, trim_matches}
use unshackled.Text.Split.{split_whitespace}
use unshackled.Text.Ordered.{set_insert}
use unshackled.Harness.Compaction.Sizes.{truncate}

-- The values that serde_json makes; a number is its text.
mutual
  pub data Json : Type 0 where
    null : Json
    boolean : Bool → Json
    number string : Text → Json
    array : Items → Json
    object : Fields → Json

  pub data Items : Type 0 where
    no_items : Items
    item : Json → Items → Items

  pub data Fields : Type 0 where
    no_fields : Fields
    field : Text → Json → Fields → Fields

abbrev pub contains_any : Text → List Text → Bool
contains_any t needles = any (λ needle. contains needle t) needles

unfoldable pub classify_file_op : Text → Option Text
classify_file_op tool_name =
    let name = lower tool_name in
    if contains_any name
      (codes "delete" ∷ codes "remove" ∷ codes "unlink" ∷ codes "rmdir" ∷ codes "rm_" ∷ [])
    then some (codes "deleted")
    else if contains_any name
        (codes "create" ∷ codes "new_file" ∷ codes "touch" ∷ codes "mkdir" ∷ [])
    then some (codes "created")
    else if contains_any name (
        codes "write"
        ∷ codes "edit"
        ∷ codes "modify"
        ∷ codes "replace"
        ∷ codes "patch"
        ∷ codes "append"
        ∷ codes "insert"
        ∷ codes "apply"
        ∷ [])
    then some (codes "modified")
    else if contains_any name (
        codes "read" ∷ codes "cat" ∷ codes "open" ∷ codes "view" ∷ codes "show" ∷ codes "load" ∷ [])
    then some (codes "read")
    else none

-- The loop of `bounded_unique`: what is seen, and how many more are taken.
unfoldable pub unique_from : List Text → ℕ → List Text → List Text
unfolding one_of
unique_from seen zero items = []
unique_from seen (suc max) [] = []
unique_from seen (suc max) (i ∷ items) =
    let skipped = unique_from seen (suc max) items in
    let taken = i ∷ unique_from (lower i ∷ seen) max items in
    if one_of (lower i) seen then skipped else taken

unfoldable pub bounded_unique : List Text → ℕ → List Text
unfolding unique_from
bounded_unique items max = unique_from [] max items

abbrev pub path_marks : List ℕ
path_marks = b',' ∷ b';' ∷ b':' ∷ b'"' ∷ b'\'' ∷ b'(' ∷ b')' ∷ b'[' ∷ b']' ∷ []

abbrev pub is_path_mark : ℕ → Bool
is_path_mark c = any (λ m. c == m) path_marks

abbrev pub is_path_token : Text → Bool
is_path_token t =
    contains (codes "/") t
    || contains (codes "\\") t
    || ends_with (codes ".rs") t
    || ends_with (codes ".toml") t
    || ends_with (codes ".md") t
    || ends_with (codes ".json") t

unfoldable pub collect_tokens : List Text → List Text → List Text
unfolding trim_matches ends_with contains truncate set_insert
collect_tokens [] paths = paths
collect_tokens (token ∷ ts) paths =
    let t = trim_matches is_path_mark token in
    collect_tokens ts (if is_path_token t then set_insert (truncate t 160) paths else paths)

unfoldable pub collect_text_paths : Text → List Text → List Text
unfolding collect_tokens
collect_text_paths t paths = collect_tokens (split_whitespace t) paths

abbrev pub path_keys : List Text
path_keys = codes "path" ∷ codes "file" ∷ codes "filename" ∷ codes "target" ∷ []

abbrev pub string_paths : Json → List Text → List Text
string_paths (string t) paths = collect_text_paths t paths
string_paths _ paths = paths

unfoldable mutual
  unfolding one_of collect_text_paths

  pub collect_json_paths : Json → List Text → List Text
  collect_json_paths (string t) paths = collect_text_paths t paths
  collect_json_paths (array items) paths = collect_items items paths
  collect_json_paths (object fields) paths = collect_fields fields paths
  collect_json_paths null paths = paths
  collect_json_paths (boolean b) paths = paths
  collect_json_paths (number n) paths = paths

  pub collect_items : Items → List Text → List Text
  collect_items no_items paths = paths
  collect_items (item v items) paths = collect_items items (collect_json_paths v paths)

  pub collect_fields : Fields → List Text → List Text
  collect_fields no_fields paths = paths
  collect_fields (field key v fields) paths =
      collect_fields fields
        (collect_json_paths v (if one_of key path_keys then string_paths v paths else paths))
