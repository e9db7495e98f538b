-- ===== src/Harness/Compaction/Budget.antt =====
-- The size of what compaction leaves, and its shape.
use unshackled.Prelude.{
  ℕ, ◌≤◌, ◌≡◌, refl, sym, ◌∙◌, ◌⊎◌, inl, inr, List, [], ◌∷◌, ◌++◌, length, append-nil, append_assoc,
  All, Bool-cases,
}
use unshackled.Text.{Text}
use unshackled.Core.Messages.{ContentBlock, tool_result, Message}
use unshackled.Core.Summary.{has_none}
use unshackled.Harness.Compaction.Parts.{
  flatten, split_system, retain, group_onto, build_messages, fits,
}
use unshackled.Harness.Compaction.Trim.{
  truncate_message, truncate_from, cut_to_fit, Trimmed, trim_body, trim,
}
use unshackled.Harness.Compaction.Pairs.{IsGrouped}
use unshackled.Harness.Compaction.Loops.{
  flatten-group_onto, group_onto-IsGrouped, IsExchange, group_onto-AreExchanges,
}
use unshackled.Harness.Compaction.Rest.{AtMostOne, IsBare}
use unshackled.Harness.Compaction.History.{Keeps, trim_exchanges-Keeps}

-- The length of a cut output: what is kept of it, the dots and the mark.
abbrev pub longest_cut : ℕ
longest_cut = 288

abbrev pub IsShort : ContentBlock → Type 0
IsShort (tool_result r) = length r.output ≤ longest_cut
IsShort b = Unit {0}

abbrev pub ShortResults : List Message → Type 0
ShortResults = All (λ m. All IsShort m.content)

-- Each message as it was, or with its long outputs cut.
abbrev pub Shortened : List Message → List Message → Type 0
Shortened [] [] = Unit {0}
Shortened (m ∷ ms) (n ∷ ns) = ((n ≡ m) ⊎ (n ≡ (truncate_message m).0)) × Shortened ms ns
Shortened _ _ = ⊥

Shortened-refl : (ms : List Message) → Shortened ms ms
Shortened-refl [] = tt
Shortened-refl (m ∷ ms) = (inl refl, Shortened-refl ms)

-- One more message behind the ones before.
Shortened-prefix :
    (before ms ns : List Message) → Shortened ms ns → Shortened (before ++ ms) (before ++ ns)
Shortened-prefix [] ms ns h = h
Shortened-prefix (m ∷ before) ms ns h = (inl refl, Shortened-prefix before ms ns h)

-- What the loop makes of the messages from the index on.
truncate_from-Shortened :
    (token_limit : ℕ) (before ms : List Message)
    → (ns : List Message) × ((truncate_from token_limit before ms).0 ≡ before ++ ns)
      × Shortened ms ns
unfolding truncate_from
truncate_from-Shortened token_limit before [] = ([], sym (append-nil before), tt)
truncate_from-Shortened token_limit before (m ∷ ms) =
    elim (Bool-cases (fits (before ++ m ∷ ms) token_limit)) [
      | inl y ↦ (m ∷ ms, rw y refl, Shortened-refl (m ∷ ms))
      | inr n ↦
          let cut = (truncate_message m).0 in
          let (ns, e, s) = truncate_from-Shortened token_limit (before ++ cut ∷ []) ms in
          (cut ∷ ns, rw n (e ∙ append_assoc before (cut ∷ []) ns), (inr refl, s))
    ]

cut_to_fit-Shortened :
    (built : List Message) (token_limit : ℕ) → Shortened built (cut_to_fit built token_limit).0
unfolding cut_to_fit
cut_to_fit-Shortened built token_limit = elim (Bool-cases (fits built token_limit)) [
  | inl y ↦ rw y (Shortened-refl built)
  | inr n ↦ let (ns, e, s) = truncate_from-Shortened token_limit [] built in rw (n, e) s
]

-- Over the limit, nothing is left to drop or to cut.
abbrev pub IsSpent : Trimmed → Type 0
IsSpent t = AtMostOne t.exchanges × IsBare t.dropped t.summary × ShortResults t.out

pub trim-Keeps :
    (ms : List Message) (token_limit : ℕ)
    → (flatten (group_onto [] (split_system ms).1) ≡ (split_system ms).1)
      × All IsExchange (group_onto [] (split_system ms).1)
      × IsGrouped (group_onto [] (split_system ms).1)
      × Keeps
          (group_onto [] (split_system ms).1)
          (trim ms token_limit).dropped
          (trim ms token_limit).exchanges
      × (has_none (trim ms token_limit).exchanges ≡ has_none (group_onto [] (split_system ms).1))
      × Shortened
          (build_messages
            (retain (split_system ms).0).0
            (trim ms token_limit).summary
            (trim ms token_limit).exchanges)
          (trim ms token_limit).out
unfolding trim trim_body
trim-Keeps ms token_limit =
    let sys = (retain (split_system ms).0).0 in
    let carried = (retain (split_system ms).0).1 in
    let es = group_onto [] (split_system ms).1 in
    let (keeps, some_kept) = trim_exchanges-Keeps sys token_limit carried es in
    (
      flatten-group_onto [] (split_system ms).1,
      group_onto-AreExchanges [] (split_system ms).1 tt,
      group_onto-IsGrouped [] (split_system ms).1 tt,
      keeps,
      some_kept,
      cut_to_fit-Shortened _ token_limit,
    )
