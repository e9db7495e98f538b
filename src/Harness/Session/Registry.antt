-- ===== src/Harness/Session/Registry.antt =====
-- crates/localpilot-harness/src/session.rs: a session whose calls go to the registry of tools, with
-- what the tools did before as a function of the session's log.
use unshackled.Prelude.{
  ℕ, ◌≡◌, Bool, Option, none, some, List, [], Bool-cases, inl, inr, arith, if◌then◌else◌,
}
use unshackled.Text.{Text}
use unshackled.Core.Messages.{ToolCall, ToolResult}
use unshackled.Sandbox.Permission.{PermissionEngine}
use unshackled.Tools.{Tool, ToolGate, ToolContext, Approver, Done}
use unshackled.Tools.Registry.{dispatch_gated}
use unshackled.Tools.Dispatch.{dispatch_gated-IsLawful}
use unshackled.Harness.Compaction.Plan.{deterministic}
use unshackled.Harness.Session.{Act, SessionConfig, Session, Outside}
use unshackled.Harness.Session.Turn.{run_turn}
use unshackled.Harness.Session.Sound.{Sound}
use unshackled.Harness.Session.Batch.{Answering}
use unshackled.Harness.Session.Ends.{IsKept}
use unshackled.Harness.Session.Kept.{run_turn-IsKept}

module _ (redact : Text → Text) (ctx : ToolContext) (engine : PermissionEngine)
    (approver : Approver) (gates : List ToolGate) (tools : List Tool) (past : List Act → List Done)
    (interrupts : List Act → ToolCall → Bool) where
  -- The race of the call with a cancellation.
  unfoldable pub run_tool : List Act → ToolCall → Option ToolResult
  unfolding dispatch_gated
  run_tool log call =
      if interrupts log call
      then none
      else some (dispatch_gated redact ctx engine approver gates tools call (past log)).1

  abbrev pub with_registry : Outside → Outside
  with_registry outside = record outside { dispatch = run_tool }

  with_registry-Answering : (outside : Outside) → Answering (with_registry outside)
  unfolding run_tool
  with_registry-Answering outside log call r e =
      let (answers, _) =
        dispatch_gated-IsLawful redact ctx engine approver gates tools call (past log) in
      elim (Bool-cases (interrupts log call)) [
        | inl y ↦ ground (arith, e, y)
        | inr n ↦ ground (arith, e, n, answers)
      ]

  -- With the tools of a registry no result has to be assumed to answer its call.
  pub run_turn-with_registry :
      (outside : Outside) (config : SessionConfig) (n : ℕ) (user_input : Text) (s : Session)
      → config.compaction_mode ≡ deterministic
      → Sound [] s
      → IsKept (run_turn (with_registry outside) config n user_input s)
  run_turn-with_registry outside config n user_input s simple h =
      run_turn-IsKept (with_registry outside) config n user_input s simple
        (with_registry-Answering outside) h
