-- ===== src/Sandbox/Workspace/Containment.antt =====
-- The ancestor that is made canonical, and `resolve` and `contains`.
use mathlib.Core.List.{reverse, reverse-cons, reverse-reverse}
use unshackled.Prelude.{
  ◌≡◌, refl, ap, ◌∙◌, ◌↔◌, inl, inr, true, false, Option, none, some, [], ◌∷◌, ◌++◌, append-nil,
  append_assoc, arith, if◌then◌else◌, Bool-cases,
}
use unshackled.Sandbox.Workspace.{
  Component, Components, root_dir, cur_dir, parent_dir, normal, FileSystem, Workspace, Result, ok,
  err, outside_workspace, is_below, is_inside, checked, or_io, joined, lexically_normalize,
  restored, climb, canonicalize_existing_prefix, normalize, resolve, contains_path,
}

-- None of the paths exists that lengthen `base` by one or more components of `tail`.
abbrev pub Missing : FileSystem → Components → Components → Type 0
Missing fs base [] = Unit {0}
Missing fs base (c ∷ tail) = (fs.exists (base ++ c ∷ []) ≡ false) × Missing fs (base ++ c ∷ []) tail

-- No name ends the path whose components, last one first, are these.
abbrev pub EndsInNoName : Components → Type 0
EndsInNoName (normal name ∷ up) = ⊥
EndsInNoName up = Unit {0}

-- How the real path comes about: from the deepest ancestor that exists, with what follows it put
-- back; or as the path itself, where the ascent finds no such ancestor down to one that ends in no
-- name, from which it cannot go on.
pub data Resolves (fs : FileSystem) (path : Components) : Option Components → Type 0 where
  found :
      (base tail : Components)
      → path ≡ base ++ tail
      → fs.exists base ≡ true
      → Missing fs base tail
      → Resolves fs path (restored (fs.canonicalize base) tail)
  absent :
      (up tail : Components)
      → EndsInNoName up
      → path ≡ reverse up ++ tail
      → fs.exists (reverse up) ≡ false
      → Missing fs (reverse up) tail
      → Resolves fs path (some path)

climb-here :
    (fs : FileSystem) (path up tail : Components)
    → EndsInNoName up
    → path ≡ reverse up ++ tail
    → Missing fs (reverse up) tail
    → Resolves fs path
        (if fs.exists (reverse up) then restored (fs.canonicalize (reverse up)) tail else some path)
climb-here fs path up tail t e m = elim (Bool-cases (fs.exists (reverse up))) [
  | inl y ↦ rw y (found (reverse up) tail e y m)
  | inr n ↦ rw n (absent up tail t e n m)
]

Missing-cons :
    (fs : FileSystem) (base longer : Components) (c : Component) (tail : Components)
    → longer ≡ base ++ c ∷ []
    → fs.exists longer ≡ false
    → Missing fs longer tail
    → Missing fs base (c ∷ tail)
Missing-cons fs base longer c tail e gone m = (rw (← e) gone, rw (← e) m)

climb-Resolves :
    (fs : FileSystem) (path ancestor tail : Components)
    → path ≡ reverse ancestor ++ tail
    → Missing fs (reverse ancestor) tail
    → Resolves fs path (climb fs path ancestor tail)
unfolding climb
climb-Resolves fs path [] tail e m = climb-here fs path [] tail tt e m
climb-Resolves fs path (root_dir ∷ up) tail e m = climb-here fs path (root_dir ∷ up) tail tt e m
climb-Resolves fs path (cur_dir ∷ up) tail e m = climb-here fs path (cur_dir ∷ up) tail tt e m
climb-Resolves fs path (parent_dir ∷ up) tail e m = climb-here fs path (parent_dir ∷ up) tail tt e m
climb-Resolves fs path (normal n ∷ up) tail e m =
    elim (Bool-cases (fs.exists (reverse (normal n ∷ up)))) [
      | inl y ↦ rw y (found (reverse (normal n ∷ up)) tail e y m)
      | inr gone ↦ rw gone (
          climb-Resolves fs path up (normal n ∷ tail)
            (e
              ∙ ap (λ b. b ++ tail) (reverse-cons (normal n) up)
              ∙ append_assoc (reverse up) (normal n ∷ []) tail)
            (Missing-cons fs (reverse up) (reverse (normal n ∷ up)) (normal n) tail
              (reverse-cons (normal n) up) gone m))
    ]

-- `canonicalize_existing_prefix` makes the deepest existing ancestor canonical and puts back what
-- follows it; it gives the path unchanged only if none of the ancestors that the ascent over names
-- reaches exists, and the last of them ends in no name.
pub canonicalize_existing_prefix-Resolves :
    (fs : FileSystem) (path : Components) → Resolves fs path (canonicalize_existing_prefix fs path)
unfolding canonicalize_existing_prefix
canonicalize_existing_prefix-Resolves fs path =
    climb-Resolves fs path (reverse path) [] (rw (reverse-reverse, append-nil)) tt

-- What `resolve` gives for a candidate: a path below the root, which is the canonical form of the
-- deepest existing ancestor of the candidate, normalized and taken from the root, with what follows it.
pub record IsInside (fs : FileSystem) (w : Workspace) (candidate real : Components) : Type 0 where
  pub below : is_below w.root real ≡ true
  pub real_path : Resolves fs (lexically_normalize (joined w candidate)) (some real)

or_io-some :
    (o : Option Components) (path real : Components) → or_io o path ≡ ok real → o ≡ some real
or_io-some none path real h = cc
or_io-some (some a) path real h = ground (arith, h)

normalize-Resolves :
    (fs : FileSystem) (w : Workspace) (candidate real : Components)
    → normalize fs w candidate ≡ ok real
    → Resolves fs (lexically_normalize (joined w candidate)) (some real)
unfolding normalize
normalize-Resolves fs w candidate real h =
    let path = lexically_normalize (joined w candidate) in
    let same = or_io-some (canonicalize_existing_prefix fs path) path real h in
    rw (← same) (canonicalize_existing_prefix-Resolves fs path)

checked_iff :
    (fs : FileSystem) (w : Workspace) (candidate : Components) (r : Result Components)
    → ((real : Components)
        → r ≡ ok real
        → Resolves fs (lexically_normalize (joined w candidate)) (some real))
    → (is_inside w r ≡ true)
      ↔ ((real : Components) × (checked w candidate r ≡ ok real) × IsInside fs w candidate real)
checked_iff fs w candidate (ok real) f = (
  λ h. (real, ground (arith, h), record { below = h; real_path = f real refl }),
  λ q. inside q.0 q.1 q.2,
)
  where
    inside :
        (other : Components)
        → (if is_below w.root real then ok real else err (outside_workspace candidate)) ≡ ok other
        → IsInside fs w candidate other
        → is_below w.root real ≡ true
    inside other e i = elim (Bool-cases (is_below w.root real)) [
      | inl y ↦ y
      | inr n ↦ ground (arith, e, n)
    ]
checked_iff fs w candidate (err e) f =
    (λ h. absurd (ground (arith, h)), λ q. absurd (ground (arith, q.1)))

-- `contains` holds of exactly the candidates that `resolve` accepts; and what `resolve` then gives
-- lies below the root, and comes of the candidate, taken from the root if it is relative and
-- normalized: it is the canonical form of that path's deepest existing ancestor with what follows it
-- or, where the ascent over names reaches none that exists, that path itself.
pub contains_path-resolve_iff :
    (fs : FileSystem) (w : Workspace) (candidate : Components)
    → (contains_path fs w candidate ≡ true)
      ↔ ((real : Components) × (resolve fs w candidate ≡ ok real) × IsInside fs w candidate real)
unfolding contains_path resolve
contains_path-resolve_iff fs w candidate =
    checked_iff fs w candidate (normalize fs w candidate) (normalize-Resolves fs w candidate)
