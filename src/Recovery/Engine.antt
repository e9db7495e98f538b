-- ===== src/Recovery/Engine.antt =====
-- crates/localpilot-recovery/src/engine.rs: the recovery ladder and the health of the model.
use unshackled.Prelude.{
  ℕ, ◌+◌, ◌%◌, ◌^◌, Bool, true, false, not, ◌&&◌, List, [], ◌∷◌, ◌++◌, leb, ltb, if◌then◌else◌,
}
use unshackled.Recovery.Detect.{BadOutputKind}
pub mod Ladder

pub data ModelHealth : Type 0 where
  healthy recovering degraded : ModelHealth

pub data RecoveryAction : Type 0 where
  abort_stream save_diagnostic retry_with_repair_prompt reduce_context : RecoveryAction
  summarize_oversized_tool_results lower_image_count mark_degraded : RecoveryAction
  stop_harness_progress : RecoveryAction

pub record RecoveryDiagnostic : Type 0 where
  pub kind : BadOutputKind
  pub attempt : ℕ
  pub health : ModelHealth
  pub actions : List RecoveryAction

pub record RecoveryBudget : Type 0 where
  pub max_repair_attempts : ℕ

abbrev pub default_budget : RecoveryBudget
default_budget = record { max_repair_attempts = 2 }

pub record RecoveryEngine : Type 0 where
  pub budget : RecoveryBudget
  pub attempts : ℕ
  pub health : ModelHealth
  pub last_turn_clean : Bool

unfoldable pub new : RecoveryBudget → RecoveryEngine
new budget = record { budget = budget; attempts = 0; health = healthy; last_turn_clean = true }

abbrev pub u32_mod : ℕ
u32_mod = 2 ^ 32

abbrev pub cleared : ModelHealth → ModelHealth
cleared recovering = healthy
cleared h = h

unfoldable pub record_clean_turn : RecoveryEngine → RecoveryEngine
record_clean_turn e = record e { attempts = 0; last_turn_clean = true; health = cleared e.health }

-- `attempts` is a `u32`.
unfoldable pub record_bad_turn :
    RecoveryEngine → BadOutputKind → RecoveryEngine × RecoveryDiagnostic
record_bad_turn e kind =
    let attempts = (e.attempts + 1) % u32_mod in
    let within = leb attempts e.budget.max_repair_attempts in
    let health = if within then recovering else degraded in
    let extra =
      if ltb 1 attempts then reduce_context ∷ summarize_oversized_tool_results ∷ [] else [] in
    let rung =
      if within
      then retry_with_repair_prompt ∷ extra
      else mark_degraded ∷ stop_harness_progress ∷ [] in
    (
      record e { attempts = attempts; health = health; last_turn_clean = false },
      record {
        kind = kind;
        attempt = attempts;
        health = health;
        actions = abort_stream ∷ save_diagnostic ∷ rung;
      },
    )

abbrev pub is_degraded : ModelHealth → Bool
is_degraded degraded = true
is_degraded _ = false

unfoldable pub step_completable : RecoveryEngine → Bool
step_completable e = e.last_turn_clean && not (is_degraded e.health)

-- The turns of a session.
pub data Turn : Type 0 where
  clean : Turn
  bad : BadOutputKind → Turn

unfoldable pub turn : RecoveryEngine → Turn → RecoveryEngine
unfolding record_clean_turn record_bad_turn
turn e clean = record_clean_turn e
turn e (bad kind) = (record_bad_turn e kind).0

unfoldable pub turns : RecoveryEngine → List Turn → RecoveryEngine
turns e [] = e
turns e (t ∷ ts) = turns (turn e t) ts
