-- ===== src/Harness/Session/Cache.antt =====
-- crates/localpilot-harness/src/session.rs: the compacted history that is kept.
use unshackled.Prelude.{
  ℕ, ◌≡◌, refl, sym, ap, ◌∙◌, Bool, true, false, Option, none, some, ◌==◌, if◌then◌else◌,
  Bool-cases, inl, inr, ==_iff,
}
use unshackled.Text.{Text, codes}
use unshackled.Core.Summary.{StructuredSummary}
use unshackled.Harness.Compaction.Plan.{CompactionResult}
use unshackled.Harness.Session.{SessionConfig, Session, Outside}
use unshackled.Harness.Session.History.{
  record_summary, log_compaction, cached, compact_candidate, compacted_history,
}

record_summary-generation :
    (o : Option StructuredSummary) (s : Session)
    → (record_summary o s).history_generation ≡ s.history_generation
record_summary-generation none s = refl
record_summary-generation (some d) s = refl

logged-generation :
    (b : Bool) (state : Text) (r : CompactionResult) (s : Session)
    → (if b then log_compaction state r s else s).history_generation ≡ s.history_generation
unfolding log_compaction
logged-generation true state r s = record_summary-generation r.summary s
logged-generation false state r s = refl

module _ (outside : Outside) (config : SessionConfig) where
  hit :
      (generation : ℕ) (r fresh : CompactionResult) (s : Session)
      → generation ≡ s.history_generation
      → cached outside config (some (generation, r)) s fresh ≡ (s, r)
  hit generation r fresh s e = rw ((==_iff generation s.history_generation).1 e) refl

  cached_twice :
      (o : Option (ℕ × CompactionResult)) (s : Session) (fresh other : CompactionResult)
      → s.compaction_cache ≡ o
      → let (later, r) = cached outside config o s fresh in
        cached outside config later.compaction_cache later other ≡ (later, r)
  cached_twice none s fresh other e =
      hit s.history_generation fresh other _
        (sym (logged-generation fresh.compacted (codes "completed") fresh s))
  cached_twice (some (generation, r)) s fresh other e =
      elim (Bool-cases (generation == s.history_generation)) [
        | inl y ↦ rw y (
            ap (λ c. cached outside config c s other) e
            ∙ hit generation r other s ((==_iff generation s.history_generation).0 y))
        | inr n ↦ rw n (
            hit s.history_generation fresh other _
              (sym (logged-generation fresh.compacted (codes "completed") fresh s)))
      ]

-- While the history is unchanged the compacted history is made once: asked for again, it is the same,
-- and the session is left as it is.
pub compacted_history-again :
    (outside : Outside) (config : SessionConfig) (s : Session)
    → compacted_history outside config (compacted_history outside config s).0
      ≡ compacted_history outside config s
unfolding compacted_history
compacted_history-again outside config s =
    cached_twice outside config s.compaction_cache s
      (compact_candidate outside config config.context_token_limit s) _ refl
