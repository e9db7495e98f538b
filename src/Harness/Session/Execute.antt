-- ===== src/Harness/Session/Execute.antt =====
-- crates/localpilot-harness/src/session.rs: the guard on failing tools, and the run of a batch of
-- calls.
use unshackled.Prelude.{
  ℕ, ◌+◌, ◌%◌, ◌^◌, Bool, true, false, Option, none, some, List, [], ◌∷◌, ◌++◌, ltb, leb, ◌==◌,
  if◌then◌else◌,
}
use unshackled.Text.{Text, codes, text_eq}
use unshackled.Text.Decimal.{decimal}
use unshackled.Core.Messages.{tool, tool_result, new, ToolCall, ToolResult}
use unshackled.Tools.Registry.{error_result}
use unshackled.Harness.Session.{
  dispatched, Session, SessionEventKind, RuntimeEvent, HookEvent, PlanStep, Outside, note,
  record_event, send, warn, notify,
}
use unshackled.Harness.Session.Calls.{parse_plan}
use unshackled.Harness.Session.History.{append}

abbrev pub default_tool_failure_threshold : ℕ
default_tool_failure_threshold = 6

abbrev pub u32_mod : ℕ
u32_mod = 2 ^ 32

-- The count of a tool in the map, 0 if it has none.
unfoldable pub failures_of : Text → List (Text × ℕ) → ℕ
unfolding text_eq
failures_of name [] = 0
failures_of name ((k, n) ∷ map) =
    let rest = failures_of name map in if text_eq k name then n else rest

unfoldable pub without_key : Text → List (Text × ℕ) → List (Text × ℕ)
unfolding text_eq
without_key name [] = []
without_key name ((k, n) ∷ map) =
    let rest = without_key name map in if text_eq k name then rest else (k, n) ∷ rest

-- The map after a failure; the count is its new count.
unfoldable pub record_failure : Text → List (Text × ℕ) → List (Text × ℕ)
unfolding failures_of without_key
record_failure name map = (name, (failures_of name map + 1) % u32_mod) ∷ without_key name map

unfoldable pub record_success : Text → List (Text × ℕ) → List (Text × ℕ)
unfolding without_key
record_success name map = without_key name map

unfoldable pub is_stuck : Text → ℕ → List (Text × ℕ) → Bool
unfolding failures_of
is_stuck name threshold map = leb threshold (failures_of name map)

-- The notices of a failure, by its count.
unfoldable pub warn_failure : Text → ℕ → Session → Session
unfolding decimal
warn_failure name count s =
    if ltb count default_tool_failure_threshold
    then warn
        (codes "tool `"
          ++ (name
              ++ (codes "` failed ("
                  ++ (decimal count
                      ++ (codes "/" ++ (decimal default_tool_failure_threshold ++ codes ")"))))))
        s
    else if count == default_tool_failure_threshold
    then send (RuntimeEvent.tool_stuck name count) (
        warn
          (codes "tool `"
            ++ (name
                ++ (codes "` has failed "
                    ++ (decimal count
                        ++ codes
                            " times this turn; stopping further calls and trying another approach"))))
          s)
    else warn
        (codes "tool `"
          ++ (name ++ (codes "` failed again (#" ++ (decimal count ++ codes "); still stuck"))))
        s

unfoldable pub track : ToolResult → Text → Session → Session
unfolding record_failure record_success warn_failure
track r name s =
    if r.is_error
    then warn_failure name (failures_of name (record_failure name s.failures))
        (record s { failures = record_failure name s.failures })
    else record s { failures = record_success name s.failures }

abbrev pub send_plan : Option (List PlanStep) → Session → Session
send_plan none s = s
send_plan (some steps) s = send (RuntimeEvent.plan steps) s

abbrev pub result_message : ToolResult → Session → Session
result_message r = append (new tool (tool_result r ∷ []))

module _ (outside : Outside) where
  -- What is done before a tool runs.
  unfoldable pub start_tool : ToolCall → Session → Session
  unfolding parse_plan text_eq
  start_tool call s =
      let planned =
        if text_eq call.name (codes "update_plan")
        then send_plan (parse_plan (outside.parse_json call.input)) s
        else s in
      notify (HookEvent.tool_started call.id call.name) (
        record_event (SessionEventKind.tool_started call.id call.name)
          (send (RuntimeEvent.tool_started call.id call.name) planned))

  abbrev pub finish_tool : ToolCall → ToolResult → Session → Session
  finish_tool call r s = result_message r (
      notify (HookEvent.tool_finished r.id call.name r.is_error) (
        record_event (SessionEventKind.tool_finished r.id call.name r.is_error) (
          send (RuntimeEvent.tool_finished r.id call.name r.is_error r.output)
            (track r call.name s))))

  abbrev pub abort_tool : ToolCall → Session → Session
  abort_tool call s =
      result_message (error_result call.id (codes "cancelled by the user; execution aborted")) (
        notify (HookEvent.tool_finished call.id call.name true)
          (record_event (SessionEventKind.tool_finished call.id call.name true) s))

  -- After one call: the rest of the batch, or the end of the turn.
  abbrev pub after_call :
      ToolCall → Option ToolResult → Session → (Session → Session × Bool) → Session × Bool
  after_call call none s next = (abort_tool call s, false)
  after_call call (some r) s next = next (finish_tool call r s)

  -- The loop over the calls: whether it came to its end.
  unfoldable pub run_calls : List ToolCall → Session → Session × Bool
  unfolding start_tool track append
  run_calls [] s = (s, true)
  run_calls (call ∷ calls) s =
      let started = note (dispatched call) (start_tool call s) in
      after_call call (outside.dispatch started.log call) started (run_calls calls)
