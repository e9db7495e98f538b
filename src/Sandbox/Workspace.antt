-- ===== src/Sandbox/Workspace.antt =====
-- crates/localpilot-sandbox/src/path.rs: containment of paths in the workspace. A path is the list
-- of its components, as `Path::components` gives them on POSIX; the file system is a parameter.
use mathlib.Core.List.{reverse}
use unshackled.Prelude.{
  Bool, true, false, ◌&&◌, Option, none, some, List, [], ◌∷◌, ◌++◌, if◌then◌else◌,
}
use unshackled.Text.{Text, text_eq}
pub mod Lexical
pub mod Containment

pub data Component : Type 0 where
  root_dir cur_dir parent_dir : Component
  normal : Text → Component

abbrev pub Components : Type 0
Components = List Component

-- What the program asks the operating system about paths; `none` is an input or output error.
pub record FileSystem : Type 0 where
  pub exists : Components → Bool
  pub canonicalize : Components → Option Components

pub data SandboxError : Type 0 where
  io outside_workspace : Components → SandboxError

pub data Result {ℓ} (A : Type ℓ) : Type ℓ where
  ok : A → Result A
  err : SandboxError → Result A

abbrev pub or_io {ℓ} : {A : Type ℓ} → Option A → Components → Result A
or_io none path = err (io path)
or_io (some a) path = ok a

pub record Workspace : Type 0 where
  pub root : Components

abbrev pub is_absolute : Components → Bool
is_absolute (root_dir ∷ path) = true
is_absolute _ = false

unfoldable pub component_eq : Component → Component → Bool
unfolding text_eq
component_eq root_dir root_dir = true
component_eq cur_dir cur_dir = true
component_eq parent_dir parent_dir = true
component_eq (normal a) (normal b) = text_eq a b
component_eq _ _ = false

-- `path.starts_with(base)`, by whole components.
unfoldable pub is_below : Components → Components → Bool
unfolding component_eq
is_below [] path = true
is_below (b ∷ base) [] = false
is_below (b ∷ base) (c ∷ path) = component_eq b c && is_below base path

-- The vector `out` is kept with its last element first.
unfoldable pub parent_onto : Components → Components
parent_onto (normal name ∷ out) = out
parent_onto out = parent_dir ∷ out

unfoldable pub normalize_onto : Components → Components → Components
unfolding parent_onto
normalize_onto out [] = out
normalize_onto out (cur_dir ∷ path) = normalize_onto out path
normalize_onto out (parent_dir ∷ path) = normalize_onto (parent_onto out) path
normalize_onto out (root_dir ∷ path) = normalize_onto (root_dir ∷ out) path
normalize_onto out (normal name ∷ path) = normalize_onto (normal name ∷ out) path

unfoldable pub lexically_normalize : Components → Components
unfolding normalize_onto
lexically_normalize path = reverse (normalize_onto [] path)

abbrev pub restored : Option Components → Components → Option Components
restored none tail = none
restored (some resolved) tail = some (resolved ++ tail)

-- The loop of `canonicalize_existing_prefix`: the ancestor with its last component first, and the
-- components dropped from it, in the order in which they are pushed back.
unfoldable pub climb : FileSystem → Components → Components → Components → Option Components
climb fs path [] tail = if fs.exists [] then restored (fs.canonicalize []) tail else some path
climb fs path (normal name ∷ up) tail =
    let next = climb fs path up (normal name ∷ tail) in
    if fs.exists (reverse (normal name ∷ up))
    then restored (fs.canonicalize (reverse (normal name ∷ up))) tail
    else next
climb fs path (last ∷ up) tail =
    if fs.exists (reverse (last ∷ up))
    then restored (fs.canonicalize (reverse (last ∷ up))) tail
    else some path

unfoldable pub canonicalize_existing_prefix : FileSystem → Components → Option Components
unfolding climb
canonicalize_existing_prefix fs path = climb fs path (reverse path) []

unfoldable pub new : FileSystem → Components → Result Workspace
new fs root = elim (fs.canonicalize root) [
  | none ↦ err (io root)
  | some real ↦ ok (record { root = real })
]

abbrev pub joined : Workspace → Components → Components
joined w candidate = if is_absolute candidate then candidate else w.root ++ candidate

unfoldable pub normalize : FileSystem → Workspace → Components → Result Components
unfolding lexically_normalize canonicalize_existing_prefix
normalize fs w candidate =
    let lexical = lexically_normalize (joined w candidate) in
    or_io (canonicalize_existing_prefix fs lexical) lexical

abbrev pub checked : Workspace → Components → Result Components → Result Components
checked w candidate (ok real) =
    if is_below w.root real then ok real else err (outside_workspace candidate)
checked w candidate (err e) = err e

unfoldable pub resolve : FileSystem → Workspace → Components → Result Components
unfolding normalize is_below
resolve fs w candidate = checked w candidate (normalize fs w candidate)

abbrev pub is_inside : Workspace → Result Components → Bool
is_inside w (ok real) = is_below w.root real
is_inside w (err e) = false

unfoldable pub contains_path : FileSystem → Workspace → Components → Bool
unfolding normalize is_below
contains_path fs w candidate = is_inside w (normalize fs w candidate)
