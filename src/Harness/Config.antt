-- ===== src/Harness/Config.antt =====
-- The settings that the harness reads: crates/localpilot-config/src/schema.rs, and the outcome of a
-- quality check: crates/localpilot-harness/src/quality/runner.rs.
use unshackled.Prelude.{Bool, Option, List}
use unshackled.Text.{Text}

pub data RuleSeverity : Type 0 where
  off warn block : RuleSeverity

pub data Cadence : Type 0 where
  step phase : Cadence

pub data CheckStatus : Type 0 where
  passed failed denied errored : CheckStatus

pub record CheckOutcome : Type 0 where
  pub name : Text
  pub status : CheckStatus
  pub detail : Text
  pub fixed : Bool
  pub severity : Option RuleSeverity

pub data AutoFix : Type 0 where
  never safe full : AutoFix

pub record CheckConfig : Type 0 where
  pub name : Text
  pub program : Text
  pub args : List Text
  pub fix_program : Option Text
  pub fix_args : List Text
  pub cadence : Cadence
  pub auto_fix : AutoFix
  pub severity : Option RuleSeverity
