-- ===== src/Tools.antt =====
-- crates/localpilot-tools/src/tool.rs and error.rs: what a tool, a gate, the approver and the
-- retention of outputs are to the dispatch. What they answer may depend on all that was done before.
use unshackled.Prelude.{Bool, Option, none, some, List, ◌++◌}
use unshackled.Text.{Text, codes}
use unshackled.Core.Messages.{ToolCall}
use unshackled.Sandbox.Permission.{Interactivity, Effect, PermissionRequest}
pub mod Output
pub mod Registry
pub mod Authorized
pub mod Dispatch
pub mod Shown

pub data ToolError : Type 0 where
  unknown_tool invalid_input permission_denied outside_workspace failed : Text → ToolError

-- `err.to_string()`.
unfoldable pub display : ToolError → Text
display (unknown_tool t) = codes "unknown tool: " ++ t
display (invalid_input t) = codes "invalid input: " ++ t
display (permission_denied t) = codes "permission denied: " ++ t
display (outside_workspace t) = codes "path is outside the workspace: " ++ t
display (failed t) = t

pub data Tried (A : Type 0) : Type 0 where
  ok : A → Tried A
  err : ToolError → Tried A

pub record ToolOutput : Type 0 where
  pub text : Text
  pub is_error : Bool
  pub truncated : Bool

pub data GateVerdict : Type 0 where
  pass : GateVerdict
  block : Text → GateVerdict

-- What a dispatch does, in order: the prompts with their answers, the gates with their verdicts, the
-- calls of tools, and the outputs that are retained.
pub data Done : Type 0 where
  asked : PermissionRequest → Bool → Done
  gate_checked : Text → GateVerdict → Done
  invoked : Text → Text → Done
  retained : Text → Text → Done

pub record Tool : Type 0 where
  pub name : Text
  pub effects : Text → Tried (List Effect)
  pub approval_detail : Text → Text
  pub invoke : List Done → Text → Tried ToolOutput

pub record ToolGate : Type 0 where
  pub name : Text
  pub check : List Done → ToolCall → List Effect → GateVerdict

-- `none` is success, and a text the reason of the failure.
abbrev pub Retain : Type 0
Retain = List Done → Text → Text → Option Text

-- The context of a session: the workspace is in the tools' own functions.
pub record ToolContext : Type 0 where
  pub interactivity : Interactivity
  pub trusted : Bool
  pub retention : Option Retain

abbrev pub Approver : Type 0
Approver = List Done → PermissionRequest → Bool
