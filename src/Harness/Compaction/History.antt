-- ===== src/Harness/Compaction/History.antt =====
-- The exchanges that compaction keeps, and what it drops of the others.
use unshackled.Prelude.{
  ℕ, ◌≡◌, refl, ap, ◌∙◌, true, false, Option, none, some, List, [], ◌∷◌, ◌++◌, arith, Bool-cases,
  Option-cases, inl, inr,
}
use unshackled.Text.{Text}
use unshackled.Core.Messages.{user, Message}
use unshackled.Core.Summary.{StructuredSummary, has_none}
use unshackled.Harness.Compaction.Parts.{is_role, build_messages, fits}
use unshackled.Harness.Compaction.Trim.{
  drop_oldest, summary_of, drop_with_summary, split_oversized_exchange, split_last, split_into,
  trim_exchanges,
}
use unshackled.Harness.Compaction.Loops.{
  CutAt, find_cut-CutAt, drop_oldest-append, drop_with_summary-append,
}

-- What is kept of exchanges: the last ones whole, or of the very last its user message and what
-- follows from an assistant's message on.
pub data Keeps (es dropped kept : List (List Message)) : Type 0 where
  whole : es ≡ dropped ++ kept → Keeps es dropped kept
  part :
      (before : List (List Message)) (first : Message) (rest prefix suffix : List Message)
      → is_role user first ≡ true
      → CutAt first rest prefix suffix
      → es ≡ before ++ (first ∷ rest) ∷ []
      → dropped ≡ before ++ prefix ∷ []
      → kept ≡ suffix ∷ []
      → Keeps es dropped kept

module _ (sys : List Message) (token_limit : ℕ) where
  split_oversized_exchange-CutAt :
      (summary : Option StructuredSummary) (e p s : List Message)
      → split_oversized_exchange sys token_limit summary e ≡ some (p, s)
      → (first : Message) × (rest : List Message) × (is_role user first ≡ true)
        × CutAt first rest p s
        × (e ≡ first ∷ rest)
  unfolding split_oversized_exchange
  split_oversized_exchange-CutAt summary [] p s h = ground (arith, h)
  split_oversized_exchange-CutAt summary (first ∷ []) p s h = ground (arith, h)
  split_oversized_exchange-CutAt summary (first ∷ second ∷ rest) p s h =
      elim (Bool-cases (is_role user first)) [
        | inl y ↦ (
          first,
          second ∷ rest,
          y,
          find_cut-CutAt sys token_limit summary first (second ∷ []) second rest p s (rw y at h),
          refl,
        )
        | inr n ↦ ground (arith, n, h)
      ]

  module _ (carried : List Text) where
    split_last-Keeps :
        (dropped es : List (List Message))
        → Keeps
            (dropped ++ es)
            (split_last sys carried token_limit dropped es).0
            (split_last sys carried token_limit dropped es).1
    unfolding split_last
    split_last-Keeps dropped [] = whole refl
    split_last-Keeps dropped (e ∷ f ∷ es) = whole refl
    split_last-Keeps dropped (e ∷ []) =
        elim (Bool-cases (fits (build_messages sys summary (e ∷ [])) token_limit)) [
          | inl y ↦ rw y (whole refl)
          | inr n ↦ elim (Option-cases (split_oversized_exchange sys token_limit summary e)) [
            | inl z ↦ rw (n, z) (whole refl)
            | inr ((p, s), z) ↦
                let (first, rest, u, cut, same) = split_oversized_exchange-CutAt summary e p s z in
                rw (n, z)
                  (part dropped first rest p s u cut (ap (λ x. dropped ++ x ∷ []) same) refl refl)
          ]
        ]
      where
        summary : Option StructuredSummary
        summary = summary_of sys token_limit carried dropped

    drop_oldest-has_none :
        (es : List (List Message)) → has_none (drop_oldest sys token_limit es).1 ≡ has_none es
    unfolding drop_oldest
    drop_oldest-has_none [] = refl
    drop_oldest-has_none (e ∷ []) = refl
    drop_oldest-has_none (e ∷ f ∷ es) = ground (arith, drop_oldest-has_none (f ∷ es))

    drop_with_summary-has_none :
        (dropped es : List (List Message))
        → has_none (drop_with_summary sys token_limit carried dropped es).1 ≡ has_none es
    unfolding drop_with_summary
    drop_with_summary-has_none dropped [] = refl
    drop_with_summary-has_none dropped (e ∷ []) = refl
    drop_with_summary-has_none dropped (e ∷ f ∷ es) =
        ground (arith, drop_with_summary-has_none (dropped ++ e ∷ []) (f ∷ es))

    split_into-has_none :
        (dropped : List (List Message)) (e : List Message)
        (o : Option (List Message × List Message))
        → has_none (split_into dropped e o).1 ≡ false
    split_into-has_none dropped e none = refl
    split_into-has_none dropped e (some (p, s)) = refl

    split_last-has_none :
        (dropped es : List (List Message))
        → has_none (split_last sys carried token_limit dropped es).1 ≡ has_none es
    unfolding split_last
    split_last-has_none dropped [] = refl
    split_last-has_none dropped (e ∷ f ∷ es) = refl
    split_last-has_none dropped (e ∷ []) =
        elim (Bool-cases (fits (build_messages sys summary (e ∷ [])) token_limit)) [
          | inl y ↦ rw y refl
          | inr n ↦
              rw n
                (split_into-has_none dropped e (split_oversized_exchange sys token_limit summary e))
        ]
      where
        summary : Option StructuredSummary
        summary = summary_of sys token_limit carried dropped

    -- Whatever the limit, the exchanges that are kept are the last ones, or a part of the very last,
    -- and some are kept if there are any.
    pub trim_exchanges-Keeps :
        (es : List (List Message))
        → Keeps es
            (trim_exchanges sys carried token_limit es).0
            (trim_exchanges sys carried token_limit es).1
          × (has_none (trim_exchanges sys carried token_limit es).1 ≡ has_none es)
    unfolding trim_exchanges
    trim_exchanges-Keeps es =
        let (d, k) = drop_oldest sys token_limit es in
        let (d', k') = drop_with_summary sys token_limit carried d k in
        let same : d' ++ k' ≡ es =
          drop_with_summary-append sys token_limit carried d k
          ∙ drop_oldest-append sys token_limit es in
        (
          rw same at (split_last-Keeps d' k'),
          split_last-has_none d' k' ∙ drop_with_summary-has_none d k ∙ drop_oldest-has_none es,
        )
