-- ===== src/Tools/Registry.antt =====
-- crates/localpilot-tools/src/registry.rs: the look-up of a tool and its gated dispatch.
use unshackled.Prelude.{Bool, true, false, Option, none, some, List, [], ◌∷◌, ◌++◌, if◌then◌else◌}
use unshackled.Text.{Text, codes, text_eq}
use unshackled.Core.Messages.{ToolCall, ToolResult}
use unshackled.Sandbox.Permission.{
  Effect, PermissionRequest, Decision, allow, ask, deny, PermissionEngine, decide,
}
use unshackled.Tools.{
  display, Tried, ok, err, ToolOutput, GateVerdict, pass, block, Done, asked, gate_checked, invoked,
  Tool, ToolGate, ToolContext, Approver,
}
use unshackled.Tools.Output.{bound_output, format_tool_output}

unfoldable pub get : List Tool → Text → Option Tool
unfolding text_eq
get [] name = none
get (t ∷ ts) name = let rest = get ts name in if text_eq t.name name then some t else rest

-- `ToolResult::error`.
abbrev pub error_result : Text → Text → ToolResult
error_result id output = record { id = id; output = output; is_error = true }

module _ (redact : Text → Text) (ctx : ToolContext) (engine : PermissionEngine)
    (approver : Approver) where
  abbrev pub request_for : Tool → ToolCall → Effect → PermissionRequest
  request_for tool call effect = record {
    tool = tool.name;
    effect = effect;
    interactivity = ctx.interactivity;
    trusted = ctx.trusted;
    detail = tool.approval_detail call.input;
  }

  abbrev pub prompt : PermissionRequest → Decision → List Done → List Done × Bool
  prompt request allow log = (log, true)
  prompt request deny log = (log, false)
  prompt request ask log = (asked request (approver log request) ∷ log, approver log request)

  abbrev pub continue_if : (List Done → List Done × Bool) → List Done × Bool → List Done × Bool
  continue_if next (log, true) = next log
  continue_if next (log, false) = (log, false)

  -- The loop over the effects: whether all are allowed.
  unfoldable pub authorize : Tool → ToolCall → List Effect → List Done → List Done × Bool
  unfolding decide
  authorize tool call [] log = (log, true)
  authorize tool call (e ∷ es) log =
      let request = request_for tool call e in
      continue_if (authorize tool call es) (prompt request (decide engine request) log)

  abbrev pub passed_or :
      Text
      → List Done
      → GateVerdict
      → (List Done → List Done × Option Text)
      → List Done × Option Text
  passed_or name log pass next = next (gate_checked name pass ∷ log)
  passed_or name log (block reason) next = (
    gate_checked name (block reason) ∷ log,
    some (codes "blocked by " ++ (name ++ (codes ": " ++ reason))),
  )

  -- The loop over the gates: the message of the first that blocks.
  unfoldable pub check_gates :
      ToolCall → List Effect → List ToolGate → List Done → List Done × Option Text
  check_gates call effects [] log = (log, none)
  check_gates call effects (g ∷ gates) log =
      passed_or g.name log (g.check log call effects) (check_gates call effects gates)

  abbrev pub output_of : Tool → ToolCall → List Done → Tried ToolOutput → List Done × ToolResult
  output_of tool call log (err e) =
      (log, error_result call.id (format_tool_output tool.name (display e) true))
  output_of tool call log (ok output) =
      let (later, bounded) = bound_output tool.name call.id (redact output.text) ctx log in
      (
        later,
        record {
          id = call.id;
          output = format_tool_output tool.name bounded output.is_error;
          is_error = output.is_error;
        },
      )

  unfoldable pub invoke_tool : Tool → ToolCall → List Done → List Done × ToolResult
  unfolding bound_output format_tool_output display
  invoke_tool tool call log =
      output_of tool call (invoked tool.name call.input ∷ log) (tool.invoke log call.input)

  abbrev pub unless_blocked : Tool → ToolCall → List Done × Option Text → List Done × ToolResult
  unless_blocked tool call (log, some message) =
      (log, error_result call.id (format_tool_output tool.name message true))
  unless_blocked tool call (log, none) = invoke_tool tool call log

  module _ (gates : List ToolGate) where
    abbrev pub if_allowed :
        Tool → ToolCall → List Effect → List Done × Bool → List Done × ToolResult
    if_allowed tool call effects (log, false) = (
      log,
      error_result call.id
          (format_tool_output tool.name (codes "permission denied for " ++ tool.name) true),
    )
    if_allowed tool call effects (log, true) =
        unless_blocked tool call (check_gates call effects gates log)

    abbrev pub with_effects :
        Tool → ToolCall → List Done → Tried (List Effect) → List Done × ToolResult
    with_effects tool call log (err e) =
        (log, error_result call.id (format_tool_output tool.name (display e) true))
    with_effects tool call log (ok effects) =
        if_allowed tool call effects (authorize tool call effects log)

    abbrev pub with_tool : ToolCall → List Done → Option Tool → List Done × ToolResult
    with_tool call log none = (
      log,
      error_result call.id
          (format_tool_output call.name (codes "unknown tool: " ++ call.name) true),
    )
    with_tool call log (some tool) = with_effects tool call log (tool.effects call.input)

    unfoldable pub dispatch_gated : List Tool → ToolCall → List Done → List Done × ToolResult
    unfolding get authorize check_gates invoke_tool format_tool_output display
    dispatch_gated tools call log = with_tool call log (get tools call.name)

  -- `dispatch`: with no gates.
  unfoldable pub dispatch : List Tool → ToolCall → List Done → List Done × ToolResult
  unfolding dispatch_gated
  dispatch tools call log = dispatch_gated [] tools call log
