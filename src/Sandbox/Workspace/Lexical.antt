-- ===== src/Sandbox/Workspace/Lexical.antt =====
-- The lexical normalization of a path.
use mathlib.Core.List.{reverse, reverse-cons, reverse-reverse}
use unshackled.Prelude.{◌≡◌, refl, sym, ap, ◌∙◌, List, [], ◌∷◌, ◌++◌}
use unshackled.Text.{Text}
use unshackled.Sandbox.Workspace.{
  Component, Components, root_dir, cur_dir, parent_dir, normal, parent_onto, normalize_onto,
  lexically_normalize,
}

-- The directory that a path leads to from another, where there are no symbolic links: the names
-- from the root down, the last one first. The root is its own parent.
abbrev up : List Text → List Text
up [] = []
up (n ∷ dir) = dir

abbrev pub walk : List Text → Components → List Text
walk dir [] = dir
walk dir (root_dir ∷ path) = walk [] path
walk dir (cur_dir ∷ path) = walk dir path
walk dir (parent_dir ∷ path) = walk (up dir) path
walk dir (normal name ∷ path) = walk (name ∷ dir) path

walk-append : (dir : List Text) (p q : Components) → walk dir (p ++ q) ≡ walk (walk dir p) q
walk-append dir [] q = refl
walk-append dir (root_dir ∷ p) q = walk-append [] p q
walk-append dir (cur_dir ∷ p) q = walk-append dir p q
walk-append dir (parent_dir ∷ p) q = walk-append (up dir) p q
walk-append dir (normal n ∷ p) q = walk-append (n ∷ dir) p q

walk_onto :
    (dir : List Text) (c : Component) (out : Components)
    → walk dir (reverse (c ∷ out)) ≡ walk (walk dir (reverse out)) (c ∷ [])
walk_onto dir c out = rw reverse-cons (walk-append dir (reverse out) (c ∷ []))

walk-parent_onto :
    (dir : List Text) (out : Components)
    → walk dir (reverse (parent_onto out)) ≡ up (walk dir (reverse out))
unfolding parent_onto
walk-parent_onto dir [] = walk_onto dir parent_dir []
walk-parent_onto dir (normal n ∷ out) = ap up (sym (walk_onto dir (normal n) out))
walk-parent_onto dir (c ∷ out) = walk_onto dir parent_dir (c ∷ out)

walk-normalize_onto :
    (dir : List Text) (p out : Components)
    → walk dir (reverse (normalize_onto out p)) ≡ walk (walk dir (reverse out)) p
unfolding normalize_onto
walk-normalize_onto dir [] out = refl
walk-normalize_onto dir (cur_dir ∷ p) out = walk-normalize_onto dir p out
walk-normalize_onto dir (parent_dir ∷ p) out =
    walk-normalize_onto dir p (parent_onto out) ∙ ap (λ d. walk d p) (walk-parent_onto dir out)
walk-normalize_onto dir (root_dir ∷ p) out =
    walk-normalize_onto dir p (root_dir ∷ out) ∙ ap (λ d. walk d p) (walk_onto dir root_dir out)
walk-normalize_onto dir (normal n ∷ p) out =
    walk-normalize_onto dir p (normal n ∷ out) ∙ ap (λ d. walk d p) (walk_onto dir (normal n) out)

-- Where there are no symbolic links, the normal form of a path leads where the path leads, from
-- every directory.
pub walk-lexically_normalize :
    (dir : List Text) (path : Components) → walk dir (lexically_normalize path) ≡ walk dir path
unfolding lexically_normalize
walk-lexically_normalize dir path = walk-normalize_onto dir path []

-- What may stand behind a path, given with its last component first: no `.`, and no `..` behind a
-- name.
abbrev pub May : Component → Components → Type 0
May cur_dir out = ⊥
May parent_dir (normal n ∷ out) = ⊥
May c out = Unit {0}

abbrev pub IsLexical : Components → Type 0
IsLexical [] = Unit {0}
IsLexical (c ∷ out) = May c out × IsLexical out

parent_onto-IsLexical : (out : Components) → IsLexical out → IsLexical (parent_onto out)
unfolding parent_onto
parent_onto-IsLexical [] h = (tt, tt)
parent_onto-IsLexical (normal n ∷ out) h = h.1
parent_onto-IsLexical (root_dir ∷ out) h = (tt, h)
parent_onto-IsLexical (cur_dir ∷ out) h = absurd h.0
parent_onto-IsLexical (parent_dir ∷ out) h = (tt, h)

normalize_onto-IsLexical : (p out : Components) → IsLexical out → IsLexical (normalize_onto out p)
unfolding normalize_onto
normalize_onto-IsLexical [] out h = h
normalize_onto-IsLexical (cur_dir ∷ p) out h = normalize_onto-IsLexical p out h
normalize_onto-IsLexical (parent_dir ∷ p) out h =
    normalize_onto-IsLexical p (parent_onto out) (parent_onto-IsLexical out h)
normalize_onto-IsLexical (root_dir ∷ p) out h = normalize_onto-IsLexical p (root_dir ∷ out) (tt, h)
normalize_onto-IsLexical (normal n ∷ p) out h = normalize_onto-IsLexical p (normal n ∷ out) (tt, h)

normalize_onto-append :
    (p q out : Components) → normalize_onto out (p ++ q) ≡ normalize_onto (normalize_onto out p) q
unfolding normalize_onto
normalize_onto-append [] q out = refl
normalize_onto-append (cur_dir ∷ p) q out = normalize_onto-append p q out
normalize_onto-append (parent_dir ∷ p) q out = normalize_onto-append p q (parent_onto out)
normalize_onto-append (root_dir ∷ p) q out = normalize_onto-append p q (root_dir ∷ out)
normalize_onto-append (normal n ∷ p) q out = normalize_onto-append p q (normal n ∷ out)

normalize_onto-May :
    (c : Component) (out : Components) → May c out → normalize_onto out (c ∷ []) ≡ c ∷ out
unfolding normalize_onto parent_onto
normalize_onto-May root_dir out h = refl
normalize_onto-May (normal n) out h = refl
normalize_onto-May cur_dir out h = absurd h
normalize_onto-May parent_dir [] h = refl
normalize_onto-May parent_dir (root_dir ∷ out) h = refl
normalize_onto-May parent_dir (cur_dir ∷ out) h = refl
normalize_onto-May parent_dir (parent_dir ∷ out) h = refl
normalize_onto-May parent_dir (normal n ∷ out) h = absurd h

normalize_onto-fixed : (out : Components) → IsLexical out → normalize_onto [] (reverse out) ≡ out
normalize_onto-fixed [] h = unfold normalize_onto in refl
normalize_onto-fixed (c ∷ out) h =
    ap (normalize_onto []) (reverse-cons c out)
    ∙ normalize_onto-append (reverse out) (c ∷ []) []
    ∙ ap (λ o. normalize_onto o (c ∷ [])) (normalize_onto-fixed out h.1)
    ∙ normalize_onto-May c out h.0

-- A normal form, read from its end, holds no `.` and no `..` behind a name, and is its own normal
-- form.
pub lexically_normalize-IsLexical :
    (path : Components)
    → IsLexical (reverse (lexically_normalize path))
      × (lexically_normalize (lexically_normalize path) ≡ lexically_normalize path)
unfolding lexically_normalize
lexically_normalize-IsLexical path =
    let lexical = normalize_onto-IsLexical path [] tt in
    (rw reverse-reverse lexical, ap reverse (normalize_onto-fixed (normalize_onto [] path) lexical))
