-- ===== src/Harness/Session/Calls.antt =====
-- crates/localpilot-harness/src/session.rs: the check of a batch of calls, the assistant's message,
-- and the plan in a call's input.
use unshackled.Prelude.{
  Bool, true, false, ◌||◌, Option, none, some, List, [], ◌∷◌, ◌++◌, map, ◌==◌, if◌then◌else◌,
}
use unshackled.Text.{Text, codes, text_eq}
use unshackled.Text.Trim.{trim, trim_end, trim_matches}
use unshackled.Core.Messages.{
  tool, ContentBlock, text, reasoning, tool_use, tool_result, Message, new, ToolCall,
}
use unshackled.Core.Summary.{has_none}
use unshackled.Tools.Registry.{error_result}
use unshackled.Harness.Compaction.Digest.{
  Json, string, array, object, Items, no_items, item, Fields, no_fields, field,
}
use unshackled.Harness.Session.{PlanStep}

abbrev pub is_object : Json → Bool
is_object (object _) = true
is_object _ = false

-- `trim().is_empty()`.
abbrev pub is_blank : Text → Bool
is_blank t = has_none (trim t)

module _ (parse_json : Text → Json) where
  unfoldable pub invalid_tool_calls : List ToolCall → Option Text
  unfolding trim_end
  invalid_tool_calls [] = none
  invalid_tool_calls (call ∷ calls) =
      let rest = invalid_tool_calls calls in
      if is_blank call.id
      then some (codes "Tool call error: missing tool-call id. Retry with a valid id.")
      else if is_blank call.name
      then some (codes "Tool call error: missing tool name. Retry with a registered tool name.")
      else if is_object (parse_json call.input)
      then rest
      else some (
          codes "Tool call error for "
          ++ (call.name ++ codes ": input must be a JSON object matching the tool schema."))

-- `filter`, of the calls with an id.
unfoldable pub with_id : List ToolCall → List ToolCall
unfolding trim_end
with_id [] = []
with_id (call ∷ calls) = let rest = with_id calls in if is_blank call.id then rest else call ∷ rest

abbrev pub kept_calls : Option Text → List ToolCall → List ToolCall
kept_calls none calls = calls
kept_calls (some reason) calls = with_id calls

unfoldable pub trim_blank_boundary_lines : Text → Text
unfolding trim_matches
trim_blank_boundary_lines t = trim_matches (λ c. (c == 0xd) || (c == 0xa)) t

abbrev pub reasoning_block : Text → List ContentBlock
reasoning_block t = if is_blank t then [] else reasoning t none none ∷ []

abbrev pub text_block : Text → List ContentBlock
text_block t = if is_blank t then [] else text t ∷ []

-- The content of the assistant's message.
unfoldable pub assemble : Text → Text → List ToolCall → List ContentBlock
unfolding trim_blank_boundary_lines trim_end
assemble thought t calls =
    reasoning_block (trim_blank_boundary_lines thought)
    ++ (text_block (trim_blank_boundary_lines t) ++ map tool_use calls)

unfoldable pub tool_error_message : Text → Text → Message
tool_error_message id output = new tool (tool_result (error_result id output) ∷ [])

abbrev pub field_of : Text → Fields → Option Json
field_of name no_fields = none
field_of name (field key v fields) = if text_eq key name then some v else field_of name fields

-- `get(name)` on a value.
abbrev pub json_get : Text → Json → Option Json
json_get name (object fields) = field_of name fields
json_get name _ = none

abbrev pub as_text : Option Json → Option Text
as_text (some (string t)) = some t
as_text _ = none

abbrev pub text_or : Text → Option Text → Text
text_or default none = default
text_or default (some t) = t

abbrev pub step_of : Option Text → Option Text → Option PlanStep
step_of none status = none
step_of (some title) status =
    some (record { title = title; status = text_or (codes "pending") status })

abbrev pub cons_plan_step : Option PlanStep → List PlanStep → List PlanStep
cons_plan_step none steps = steps
cons_plan_step (some s) steps = s ∷ steps

unfoldable pub plan_steps : Items → List PlanStep
unfolding text_eq
plan_steps no_items = []
plan_steps (item v items) =
    cons_plan_step
      (step_of (as_text (json_get (codes "title") v)) (as_text (json_get (codes "status") v)))
      (plan_steps items)

abbrev pub steps_of : Option Json → Option (List PlanStep)
steps_of (some (array items)) = some (plan_steps items)
steps_of _ = none

unfoldable pub parse_plan : Json → Option (List PlanStep)
unfolding plan_steps text_eq
parse_plan v = steps_of (json_get (codes "steps") v)
