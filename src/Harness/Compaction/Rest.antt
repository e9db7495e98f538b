-- ===== src/Harness/Compaction/Rest.antt =====
-- What the loops of `compact_plan` leave where the messages stay over the limit.
use unshackled.Prelude.{
  ℕ, ◌≡◌, ◌⊎◌, refl, sym, ap, ◌∙◌, inl, inr, Bool, true, false, not, ◌&&◌, Option, none, some, List,
  [], ◌∷◌, ◌++◌, if◌then◌else◌, Bool-cases,
}
use unshackled.Text.{Text}
use unshackled.Core.Messages.{Message}
use unshackled.Core.Summary.{StructuredSummary, has_none}
use unshackled.Harness.Compaction.Parts.{build_messages, fits}
use unshackled.Harness.Compaction.Trim.{
  summary_of, drop_oldest, drop_with_summary, shrink, split_into, split_last, smaller_budgets,
  final_summary, trim_exchanges,
}

-- There is no exchange to drop: at most one is left.
abbrev pub AtMostOne : List (List Message) → Type 0
AtMostOne (e ∷ f ∷ es) = ⊥
AtMostOne es = Unit {0}

-- There is no summary to leave out: it is left out, or nothing was dropped.
abbrev pub IsBare : List (List Message) → Option StructuredSummary → Type 0
IsBare dropped summary = (summary ≡ none) ⊎ (has_none dropped ≡ true)

clash : {b : Bool} → b ≡ true → b ≡ false → ⊥
clash y n = cc

-- What is picked of two summaries by a test, where there may be nothing that they tell of.
abbrev picked :
    (Option StructuredSummary → Bool)
    → Option StructuredSummary
    → Option StructuredSummary
    → Bool
    → Option StructuredSummary
picked test summary smaller nothing =
    if not (test summary) && not nothing then (if test smaller then smaller else none) else summary

picked-none :
    (test : Option StructuredSummary → Bool) (summary smaller : Option StructuredSummary)
    (nothing : Bool)
    → test (picked test summary smaller nothing) ≡ false
    → (picked test summary smaller nothing ≡ none) ⊎ (nothing ≡ true)
picked-none test summary smaller true h = inr refl
picked-none test summary smaller false h = elim (Bool-cases (test summary)) [
  | inl y ↦
      let same : picked test summary smaller false ≡ summary = rw y refl in
      absurd (clash y (sym (ap test same) ∙ h))
  | inr n ↦ elim (Bool-cases (test smaller)) [
    | inl y ↦
        let same : picked test summary smaller false ≡ smaller = rw (n, y) refl in
        absurd (clash y (sym (ap test same) ∙ h))
    | inr k ↦ inl (rw (n, k) refl)
  ]
]

module _ (sys : List Message) (carried : List Text) (token_limit : ℕ) where
  -- What is left is one exchange, or fits with the whole summary.
  abbrev pub Enough : List (List Message) × List (List Message) → Type 0
  Enough (dropped, kept) =
      AtMostOne kept
      ⊎ (fits (build_messages sys (summary_of sys token_limit carried dropped) kept) token_limit
          ≡ true)

  drop_with_summary-Enough :
      (dropped es : List (List Message))
      → Enough (drop_with_summary sys token_limit carried dropped es)
  unfolding drop_with_summary
  drop_with_summary-Enough dropped [] = inl tt
  drop_with_summary-Enough dropped (e ∷ []) = inl tt
  drop_with_summary-Enough dropped (e ∷ f ∷ es) =
      elim (Bool-cases (
        fits (build_messages sys (summary_of sys token_limit carried dropped) (e ∷ f ∷ es))
          token_limit)) [
            | inl y ↦ rw y (inr y)
            | inr n ↦ rw n (drop_with_summary-Enough (dropped ++ e ∷ []) (f ∷ es))
          ]

  split_into-AtMostOne :
      (dropped : List (List Message)) (e : List Message) (o : Option (List Message × List Message))
      → AtMostOne (split_into dropped e o).1
  split_into-AtMostOne dropped e none = tt
  split_into-AtMostOne dropped e (some (before, suffix)) = tt

  split_last-Enough :
      (dropped kept : List (List Message))
      → Enough (dropped, kept)
      → Enough (split_last sys carried token_limit dropped kept)
  unfolding split_last
  split_last-Enough dropped [] h = inl tt
  split_last-Enough dropped (e ∷ f ∷ es) h = h
  split_last-Enough dropped (e ∷ []) h =
      elim (Bool-cases (
        fits (build_messages sys (summary_of sys token_limit carried dropped) (e ∷ []))
          token_limit)) [
            | inl y ↦ rw y (inl tt)
            | inr n ↦ rw n (inl (split_into-AtMostOne dropped e _))
          ]

  pub trim_exchanges-Enough :
      (es : List (List Message)) → Enough (trim_exchanges sys carried token_limit es)
  unfolding trim_exchanges
  trim_exchanges-Enough es =
      let (d, k) = drop_oldest sys token_limit es in
      let (d', k') = drop_with_summary sys token_limit carried d k in
      split_last-Enough d' k' (drop_with_summary-Enough d k)

  abbrev built_of : List (List Message) × List (List Message) → List Message
  built_of (dropped, kept) =
      build_messages sys (final_summary sys carried token_limit dropped kept) kept

  final_summary-fits :
      (dropped kept : List (List Message))
      → fits (build_messages sys (summary_of sys token_limit carried dropped) kept) token_limit
        ≡ true
      → fits (built_of (dropped, kept)) token_limit ≡ true
  unfolding final_summary
  final_summary-fits dropped kept h = rw h h

  final_summary-IsBare :
      (dropped kept : List (List Message))
      → fits (built_of (dropped, kept)) token_limit ≡ false
      → IsBare dropped (final_summary sys carried token_limit dropped kept)
  unfolding final_summary
  final_summary-IsBare dropped kept h =
      let summary = summary_of sys token_limit carried dropped in
      picked-none (λ z. fits (build_messages sys z kept) token_limit) summary
        (shrink sys token_limit carried dropped kept (smaller_budgets sys carried token_limit)
          summary)
        (has_none dropped) h

  -- Where the messages are over the limit before any output is cut, there is nothing more to drop.
  pub trim_exchanges-rest :
      (es : List (List Message))
      → fits (built_of (trim_exchanges sys carried token_limit es)) token_limit ≡ false
      → AtMostOne (trim_exchanges sys carried token_limit es).1
        × IsBare (trim_exchanges sys carried token_limit es).0 (
            final_summary sys carried token_limit
              (trim_exchanges sys carried token_limit es).0
              (trim_exchanges sys carried token_limit es).1)
  trim_exchanges-rest es h =
      let (d, k) = trim_exchanges sys carried token_limit es in
      (one d k (trim_exchanges-Enough es) h, final_summary-IsBare d k h)
    where
      one :
          (d k : List (List Message))
          → Enough (d, k)
          → fits (built_of (d, k)) token_limit ≡ false
          → AtMostOne k
      one d k (inl a) n = a
      one d k (inr f) n = absurd (clash (final_summary-fits d k f) n)
