-- ===== src/Harness/Compaction/Smart.antt =====
-- The plan and its smart digest.
use unshackled.Prelude.{
  ℕ, ◌≤◌, ◌<◌, ◌≡◌, ◌≢◌, refl, ap, ◌⊎◌, inl, inr, true, false, none, some, List, [], ◌∷◌, ◌++◌, any,
  ltb, arith, Bool-cases, Option-cases,
}
use unshackled.Text.{Text}
use unshackled.Core.Messages.{system, Message, text_message}
use unshackled.Core.Summary.{StructuredSummary, render}
use unshackled.Harness.Compaction.Sizes.{estimate_tokens}
use unshackled.Harness.Compaction.Parts.{is_summary_message, fits}
use unshackled.Harness.Compaction.Trim.{compact}
use unshackled.Harness.Compaction.Digest.{Json}
use unshackled.Harness.Compaction.Plan.{
  deterministic, smart_with_fallback, CompactionResult, compact_plan, plan_of,
}
use unshackled.Harness.Compaction.Swap.{swap_summary, apply_smart_digest}

-- `compact` gives the messages of the plan.
pub compact_plan-compact :
    (parse_json : Text → Json) (ms : List Message) (token_limit : ℕ)
    → (compact_plan parse_json ms token_limit).result.messages ≡ compact ms token_limit
unfolding compact_plan compact plan_of
compact_plan-compact parse_json ms token_limit = elim (Bool-cases (fits ms token_limit)) [
  | inl y ↦ rw y refl
  | inr n ↦ rw n refl
]

-- The messages with the first summary among them replaced.
pub data Swapped (ms : List Message) (smart : StructuredSummary) (swapped : List Message)
    : Type 0 where
  at_first :
      (before : List Message) (old : Message) (behind : List Message)
      → any is_summary_message before ≡ false
      → is_summary_message old ≡ true
      → ms ≡ before ++ old ∷ behind
      → swapped ≡ before ++ text_message system (render smart) ∷ behind
      → Swapped ms smart swapped

-- What becomes of a result: the smart digest is in place and fits, or nothing but the record of why
-- not has changed.
pub data SmartOutcome (r : CompactionResult) (smart : StructuredSummary) (limit : ℕ)
    (s : CompactionResult) : Type 0 where
  in_place :
      s.metadata.used_mode ≡ smart_with_fallback
      → Swapped r.messages smart s.messages
      → estimate_tokens s.messages ≤ limit
      → SmartOutcome r smart limit s
  kept :
      s.metadata.used_mode ≡ deterministic
      → s.metadata.fallback_reason ≢ none
      → s.messages ≡ r.messages
      → s.summary ≡ r.summary
      → (any is_summary_message r.messages ≡ false)
        ⊎ ((swapped : List Message) × Swapped r.messages smart swapped
            × (limit < estimate_tokens swapped))
      → SmartOutcome r smart limit s

swap_summary-none :
    (ms : List Message) (smart : StructuredSummary)
    → swap_summary ms smart ≡ none
    → any is_summary_message ms ≡ false
unfolding swap_summary
swap_summary-none [] smart h = refl
swap_summary-none (m ∷ ms) smart h = elim (Option-cases (swap_summary ms smart)) [
  | inl e ↦ ground (arith, h, swap_summary-none ms smart e)
  | inr (t, e) ↦ ground (arith, h, e)
]

Swapped-cons :
    (m : Message) (ms : List Message) (smart : StructuredSummary) (swapped : List Message)
    → is_summary_message m ≡ false
    → Swapped ms smart swapped
    → Swapped (m ∷ ms) smart (m ∷ swapped)
Swapped-cons m ms smart swapped n (at_first before old behind no_old is_old e f) =
    at_first (m ∷ before) old behind (ground (arith, n, no_old)) is_old (ap (◌∷◌ m) e)
      (ap (◌∷◌ m) f)

swap_summary-Swapped :
    (ms : List Message) (smart : StructuredSummary) (swapped : List Message)
    → swap_summary ms smart ≡ some swapped
    → Swapped ms smart swapped
unfolding swap_summary
swap_summary-Swapped [] smart swapped h = ground (arith, h)
swap_summary-Swapped (m ∷ ms) smart swapped h = elim (Bool-cases (is_summary_message m)) [
  | inl y ↦ at_first [] m ms refl y refl (ground (arith, y, h))
  | inr n ↦ elim (Option-cases (swap_summary ms smart)) [
    | inl e ↦ ground (arith, n, e, h)
    | inr (t, e) ↦
        let same : m ∷ t ≡ swapped = ground (arith, n, e, h) in
        rw same at (Swapped-cons m ms smart t n (swap_summary-Swapped ms smart t e))
  ]
]

-- A smart digest takes the place of the first summary message if there is one and the messages then
-- fit the limit; otherwise messages and summary stay, and the reason is recorded.
pub apply_smart_digest-SmartOutcome :
    (r : CompactionResult) (dropped : List (List Message)) (smart : StructuredSummary) (limit : ℕ)
    → SmartOutcome r smart limit (apply_smart_digest r dropped smart limit)
unfolding apply_smart_digest
apply_smart_digest-SmartOutcome r dropped smart limit =
    elim (Option-cases (swap_summary r.messages smart)) [
      | inl e ↦
          rw e (kept refl (ground arith) refl refl (inl (swap_summary-none r.messages smart e)))
      | inr (t, e) ↦
          let swapped = swap_summary-Swapped r.messages smart t e in
          elim (Bool-cases (ltb limit (estimate_tokens t))) [
            | inl y ↦
                let over : limit < estimate_tokens t = ground (arith, y) in
                rw (e, y) (kept refl (ground arith) refl refl (inr (t, swapped, over)))
            | inr n ↦
                let under : estimate_tokens t ≤ limit = ground (arith, n) in
                rw (e, n) (in_place refl swapped under)
          ]
    ]
