-- ===== src/Harness/Compaction/Every.antt =====
-- A test that every message passes, through compaction.
use unshackled.Prelude.{
  ℕ, ◌≡◌, refl, sym, ap, ◌∙◌, Bool, true, ◌&&◌, Option, none, some, List, [], ◌∷◌, ◌++◌, all,
  append-nil, arith, Bool-cases, inl, inr, all-append,
}
use unshackled.Text.{Text}
use unshackled.Core.Messages.{system, Message, text_message}
use unshackled.Core.Summary.{StructuredSummary}
use unshackled.Harness.Compaction.Parts.{
  flatten, split_system, retain, summary_messages, group_onto, build_messages, fits,
}
use unshackled.Harness.Compaction.Trim.{truncate_message, trim, compact}
use unshackled.Harness.Compaction.Pairs.{both_true}
use unshackled.Harness.Compaction.Loops.{split_system-append, flatten-append}
use unshackled.Harness.Compaction.History.{Keeps, whole, part}
use unshackled.Harness.Compaction.Budget.{Shortened, trim-Keeps}

module _ (p : Message → Bool) where
  pub all-parts : (a b : List Message) → all p (a ++ b) ≡ true → (all p a ≡ true) × (all p b ≡ true)
  all-parts a b h = both_true (all p a) (all p b) (sym (all-append p a b) ∙ h)

  pub all-join : (a b : List Message) → all p a ≡ true → all p b ≡ true → all p (a ++ b) ≡ true
  all-join a b h k = all-append p a b ∙ ap (λ x. x && all p b) h ∙ k

  retain-all : (ms : List Message) → all p ms ≡ true → all p (retain ms).0 ≡ true
  unfolding retain
  retain-all [] h = refl
  retain-all (m ∷ ms) h = ground (arith, h, retain-all ms)

  Keeps-all :
      (es dropped kept : List (List Message))
      → all p (flatten es) ≡ true
      → Keeps es dropped kept
      → all p (flatten kept) ≡ true
  Keeps-all es dropped kept h (whole e) =
      (all-parts (flatten dropped) (flatten kept) (rw (e, flatten-append dropped kept) at h)).1
  Keeps-all es dropped kept h (part before first rest prefix suffix u cut e d k) =
      let last =
        (all-parts (flatten before) ((first ∷ rest) ++ [])
          (rw (e, flatten-append before ((first ∷ rest) ∷ [])) at h)).1 in
      let from_first : all p (first ∷ (prefix ++ cut.turn ∷ cut.later)) ≡ true =
        rw (append-nil, cut.whole) at last in
      let (pf, behind) = both_true (p first) (all p (prefix ++ cut.turn ∷ cut.later)) from_first in
      rw (k, cut.kept, append-nil)
        (ap (λ x. x && all p (cut.turn ∷ cut.later)) pf
          ∙ (all-parts prefix (cut.turn ∷ cut.later) behind).1)

  module _ (cut_same : (m : Message) → p (truncate_message m).0 ≡ p m)
      (of_summary : (t : Text) → p (text_message system t) ≡ true) where
    Shortened-all : (ms ns : List Message) → Shortened ms ns → all p ns ≡ all p ms
    Shortened-all [] [] h = refl
    Shortened-all [] (n ∷ ns) h = absurd h
    Shortened-all (m ∷ ms) [] h = absurd h
    Shortened-all (m ∷ ms) (n ∷ ns) (inl e, h) = rw (e, Shortened-all ms ns h) refl
    Shortened-all (m ∷ ms) (n ∷ ns) (inr e, h) = rw (e, cut_same m, Shortened-all ms ns h) refl

    summary_all : (summary : Option StructuredSummary) → all p (summary_messages summary) ≡ true
    summary_all none = refl
    summary_all (some s) = ap (λ x. x && true) (of_summary _)

    trim-all :
        (ms : List Message) (token_limit : ℕ)
        → all p ms ≡ true
        → all p (trim ms token_limit).out ≡ true
    trim-all ms token_limit h =
        let leading = (split_system ms).0 in
        let body = (split_system ms).1 in
        let sys = (retain leading).0 in
        let summary = (trim ms token_limit).summary in
        let kept = (trim ms token_limit).exchanges in
        let (grouped, _, _, keeps, some_kept, short) = trim-Keeps ms token_limit in
        let (hl, hb) = all-parts leading body (ap (all p) (split_system-append ms) ∙ h) in
        let of_kept =
          Keeps-all (group_onto [] body) (trim ms token_limit).dropped kept
            (ap (all p) grouped ∙ hb) keeps in
        Shortened-all (build_messages sys summary kept) (trim ms token_limit).out short
        ∙ unfold build_messages in
          all-join sys (summary_messages summary ++ flatten kept) (retain-all leading hl)
            (all-join (summary_messages summary) (flatten kept) (summary_all summary) of_kept)

    -- A test that a summary passes, and that a message passes with its outputs cut if it did before,
    -- is passed by every message that compaction leaves, if by all before.
    pub compact-all :
        (ms : List Message) (token_limit : ℕ)
        → all p ms ≡ true
        → all p (compact ms token_limit) ≡ true
    unfolding compact
    compact-all ms token_limit h = elim (Bool-cases (fits ms token_limit)) [
      | inl y ↦ rw y h
      | inr n ↦ rw n (trim-all ms token_limit h)
    ]
