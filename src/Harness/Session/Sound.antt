-- ===== src/Harness/Session/Sound.antt =====
-- The invariant of a session, through the changes of its history.
use unshackled.Prelude.{
  ℕ, ◌≡◌, refl, ◌∙◌, max, ◌/◌, Bool, true, false, Option, none, some, List, [], ◌∷◌, ◌++◌, All,
  ◌==◌, if◌then◌else◌, Bool-cases, inl, inr,
}
use unshackled.Text.{Text, codes}
use unshackled.Core.Messages.{
  assistant, tool, tool_result, ContentBlock, new, Message, MessageMetadata, ToolResult,
}
use unshackled.Core.Summary.{StructuredSummary}
use unshackled.Harness.Compaction.Pairs.{is_paired, call_ids, result_ids}
use unshackled.Harness.Compaction.Answers.{is_answered}
use unshackled.Harness.Compaction.Trim.{compact}
use unshackled.Harness.Compaction.Sizes.{estimate_tokens}
use unshackled.Harness.Compaction.Plan.{
  CompactionMode, deterministic, CompactionResult, compact_plan,
}
use unshackled.Harness.Compaction.Smart.{compact_plan-compact}
use unshackled.Harness.Session.{Act, requested, SessionConfig, Session, Outside, ModelRequest}
use unshackled.Harness.Session.History.{
  append, is_retrieval, set_retrieval_context, retrieval_block, log_compaction, with_summarizer,
  requested_in, compact_candidate, fill_cache, cached, compacted_history, shrink_for_overflow,
  try_overflow_retry, force_compact_floor, without_retrieval, record_summary,
}
use unshackled.Harness.Session.Fair.{
  Pending, IsFair, user_message, Pending-result, Pending-user, Pending-assistant,
  without_retrieval-IsFair, retrieval_block-IsFair, compact-IsFair,
}

-- A request whose messages keep the contract on tools.
abbrev pub IsFairRequest : ModelRequest → Type 0
IsFairRequest r = (is_paired [] r.messages ≡ true) × (is_answered [] r.messages ≡ true)

abbrev pub IsFairAct : Act → Type 0
IsFairAct (requested r) = IsFairRequest r
IsFairAct a = Unit {0}

abbrev pub IsFairCache : Option (ℕ × CompactionResult) → Type 0
IsFairCache none = Unit {0}
IsFairCache (some (generation, r)) = IsFair r.messages

-- The invariant, of the parts of a session that it reads.
pub record Sounds (pending : List Text) (ms : List Message) (log : List Act)
    (cache : Option (ℕ × CompactionResult)) : Type 0 where
  pub fair : Pending pending ms
  pub requests : All IsFairAct log
  pub kept : IsFairCache cache

-- The results of the calls `pending` are still to come, every request that was made is fair, and so
-- is the compacted history that is kept.
abbrev pub Sound : List Text → Session → Type 0
Sound pending s = Sounds pending s.messages s.log s.compaction_cache

-- An act that is no request.
pub Sounds-logged :
    (a : Act) {pending : List Text} {ms : List Message} {log : List Act}
    {cache : Option (ℕ × CompactionResult)}
    → IsFairAct a
    → Sounds pending ms log cache
    → Sounds pending ms (a ∷ log) cache
Sounds-logged a f h = record { fair = h.fair; requests = (f, h.requests); kept = h.kept }

pub either-Sound :
    (b : Bool) (pending : List Text) (x y : Session)
    → Sound pending x
    → Sound pending y
    → Sound pending (if b then x else y)
either-Sound true pending x y hx hy = hx
either-Sound false pending x y hx hy = hy

appended :
    (before pending : List Text) (m : Message) (s : Session)
    → (Pending before s.messages → Pending pending (s.messages ++ m ∷ []))
    → Sound before s
    → Sound pending (append m s)
unfolding append
appended before pending m s f h = record {
  fair = f h.fair;
  requests = (tt, (tt, h.requests));
  kept = h.kept;
}

pub append-user :
    (metadata : MessageMetadata) (t : Text) (s : Session)
    → is_retrieval (user_message metadata t) ≡ false
    → Sound [] s
    → Sound [] (append (user_message metadata t) s)
append-user metadata t s g h =
    appended [] [] (user_message metadata t) s (Pending-user s.messages metadata t g) h

pub append-result :
    (pending : List Text) (r : ToolResult) (s : Session)
    → Sound (r.id ∷ pending) s
    → Sound pending (append (new tool (tool_result r ∷ [])) s)
append-result pending r s h =
    appended (r.id ∷ pending) pending (new tool (tool_result r ∷ [])) s
      (Pending-result pending s.messages r) h

pub append-assistant :
    (bs : List ContentBlock) (s : Session)
    → result_ids bs ≡ []
    → Sound [] s
    → Sound (call_ids bs) (append (new assistant bs) s)
append-assistant bs s e h =
    appended [] (call_ids bs) (new assistant bs) s (Pending-assistant s.messages bs e) h

pub set_retrieval_context-Sound :
    (t : Text) (s : Session) → Sound [] s → Sound [] (set_retrieval_context t s)
unfolding set_retrieval_context
set_retrieval_context-Sound t s h = either-Sound _ [] _ _ changed changed
  where
    changed : Sounds [] (without_retrieval s.messages ++ retrieval_block t) s.log s.compaction_cache
    changed = record {
      fair =
          retrieval_block-IsFair (without_retrieval s.messages) t
            (without_retrieval-IsFair s.messages h.fair);
      requests = h.requests;
      kept = h.kept;
    }

record_summary-Sound :
    (o : Option StructuredSummary) (pending : List Text) (s : Session)
    → Sound pending s
    → Sound pending (record_summary o s)
record_summary-Sound none pending s h = h
record_summary-Sound (some d) pending s h = Sounds-logged _ tt h

log_compaction-Sound :
    (state : Text) (r : CompactionResult) (s : Session)
    → Sound [] s
    → Sound [] (log_compaction state r s)
unfolding log_compaction
log_compaction-Sound state r s h =
    Sounds-logged _ tt (Sounds-logged _ tt (record_summary-Sound r.summary [] s h))

module _ (outside : Outside) (config : SessionConfig)
    (simple : config.compaction_mode ≡ deterministic) where
  by_mode :
      (mode : CompactionMode) (limit : ℕ) (s : Session)
      → mode ≡ deterministic
      → (let plan = compact_plan outside.parse_json s.messages limit in
          let r = requested_in outside config mode plan.result in
          if plan.result.compacted
          then with_summarizer outside config mode r plan limit s.log
          else r).messages
        ≡ (compact_plan outside.parse_json s.messages limit).result.messages
  by_mode mode limit s e =
      rw e (elim (Bool-cases (compact_plan outside.parse_json s.messages limit).result.compacted) [
        | inl y ↦ rw y refl
        | inr n ↦ rw n refl
      ])

  pub compact_candidate-messages :
      (limit : ℕ) (s : Session)
      → (compact_candidate outside config limit s).messages ≡ compact s.messages limit
  unfolding compact_candidate
  compact_candidate-messages limit s =
      by_mode config.compaction_mode limit s simple
      ∙ compact_plan-compact outside.parse_json s.messages limit

  compact_candidate-IsFair :
      (limit : ℕ) (s : Session)
      → IsFair s.messages
      → IsFair (compact_candidate outside config limit s).messages
  compact_candidate-IsFair limit s h =
      rw (compact_candidate-messages limit s) (compact-IsFair s.messages limit h)

  fill_cache-Sound :
      (r : CompactionResult) (s : Session)
      → IsFair r.messages
      → Sound [] s
      → Sound [] (fill_cache outside config r s).0
  fill_cache-Sound r s f h =
      let logged = either-Sound r.compacted [] _ _ (log_compaction-Sound _ r s h) h in
      record { fair = logged.fair; requests = logged.requests; kept = f }

  cached-Sound :
      (o : Option (ℕ × CompactionResult)) (s : Session) (fresh : CompactionResult)
      → IsFairCache o
      → IsFair fresh.messages
      → Sound [] s
      → Sound [] (cached outside config o s fresh).0
        × IsFair (cached outside config o s fresh).1.messages
  cached-Sound none s fresh c f h = (fill_cache-Sound fresh s f h, f)
  cached-Sound (some (generation, r)) s fresh c f h =
      elim (Bool-cases (generation == s.history_generation)) [
        | inl y ↦ rw y (h, c)
        | inr n ↦ rw n (fill_cache-Sound fresh s f h, f)
      ]

  pub compacted_history-Sound :
      (s : Session)
      → Sound [] s
      → Sound [] (compacted_history outside config s).0
        × IsFair (compacted_history outside config s).1.messages
  unfolding compacted_history
  compacted_history-Sound s h =
      cached-Sound s.compaction_cache s _ h.kept
        (compact_candidate-IsFair config.context_token_limit s h.fair) h

  pub shrink_for_overflow-Sound :
      (s : Session) → Sound [] s → Sound [] (shrink_for_overflow outside config s)
  unfolding shrink_for_overflow
  shrink_for_overflow-Sound s h =
      let target = max (estimate_tokens s.messages / 2) force_compact_floor in
      let r = compact_candidate outside config target s in
      either-Sound r.compacted [] _ _
        (record {
          fair = compact_candidate-IsFair target s h.fair;
          requests = (log_compaction-Sound (codes "overflow_retry") r s h).requests;
          kept = tt;
        })
        h

  pub try_overflow_retry-Sound :
      (retried : Bool) (s : Session)
      → Sound [] s
      → Sound [] (try_overflow_retry outside config retried s).0
  unfolding try_overflow_retry
  try_overflow_retry-Sound true s h = Sounds-logged _ tt h
  try_overflow_retry-Sound false s h = shrink_for_overflow-Sound _ (Sounds-logged _ tt h)
