-- ===== src/Harness/Session/Cancelled.antt =====
-- crates/localpilot-harness/src/session.rs: a batch of calls that the user cancels.
use unshackled.Prelude.{
  ◌≡◌, refl, ap, ◌∙◌, Bool, true, false, Option, none, some, List, [], ◌∷◌, ◌++◌, map, append_assoc,
  arith, if◌then◌else◌,
}
use unshackled.Text.{Text, codes, text_eq, one_of}
use unshackled.Core.Messages.{assistant, tool, tool_result, ContentBlock, Message, new, ToolCall}
use unshackled.Tools.Registry.{error_result}
use unshackled.Harness.Compaction.Pairs.{call_ids}
use unshackled.Harness.Compaction.Answers.{is_answered, is_answered-append}
use unshackled.Harness.Session.{Act, dispatched, Session, Outside, PlanStep, note}
use unshackled.Harness.Session.Calls.{parse_plan}
use unshackled.Harness.Session.History.{append}
use unshackled.Harness.Session.Execute.{send_plan, start_tool, abort_tool, run_calls}
use unshackled.Harness.Session.Batch.{id_of}

send_plan-messages :
    (o : Option (List PlanStep)) (s : Session) → (send_plan o s).messages ≡ s.messages
send_plan-messages none s = refl
send_plan-messages (some steps) s = refl

either-messages :
    (b : Bool) (x y : Session) (ms : List Message)
    → x.messages ≡ ms
    → y.messages ≡ ms
    → (if b then x else y).messages ≡ ms
either-messages true x y ms hx hy = hx
either-messages false x y ms hx hy = hy

abbrev aborted : ToolCall → Message
aborted call =
    new tool
      (tool_result (error_result call.id (codes "cancelled by the user; execution aborted")) ∷ [])

module _ (outside : Outside) where
  start_tool-messages :
      (call : ToolCall) (s : Session) → (start_tool outside call s).messages ≡ s.messages
  unfolding start_tool
  start_tool-messages call s =
      either-messages (text_eq call.name (codes "update_plan"))
        (send_plan (parse_plan (outside.parse_json call.input)) s) s s.messages
        (send_plan-messages (parse_plan (outside.parse_json call.input)) s) refl

  abort_tool-messages :
      (call : ToolCall) (s : Session)
      → (abort_tool outside call s).messages ≡ s.messages ++ aborted call ∷ []
  unfolding append
  abort_tool-messages call s = refl

  -- The one result does not answer the second call.
  left_open :
      (c d : ToolCall) (more : List ToolCall) (ms : List Message) (bs : List ContentBlock)
      (output : Text)
      → call_ids bs ≡ map id_of (c ∷ d ∷ more)
      → text_eq d.id c.id ≡ false
      → is_answered [] (
          (ms ++ new assistant bs ∷ [])
          ++ new tool (tool_result (error_result c.id output) ∷ []) ∷ [])
        ≡ false
  unfolding is_answered one_of
  left_open c d more ms bs output e f =
      rw
        (
          append_assoc ms (new assistant bs ∷ [])
              (new tool (tool_result (error_result c.id output) ∷ []) ∷ []),
          is_answered-append,
          e,
          f,
        )
        (ground arith)

-- If the user cancels while the first of two or more calls with different ids runs, the batch ends
-- with the turn, and the history keeps a call that no result answers.
pub run_calls_unanswered :
    (outside : Outside) (c d : ToolCall) (more : List ToolCall) (ms : List Message)
    (bs : List ContentBlock) (s : Session)
    → s.messages ≡ ms ++ new assistant bs ∷ []
    → call_ids bs ≡ map id_of (c ∷ d ∷ more)
    → text_eq d.id c.id ≡ false
    → ((log : List Act) → outside.dispatch log c ≡ none)
    → ((run_calls outside (c ∷ d ∷ more) s).1 ≡ false)
      × (is_answered [] (run_calls outside (c ∷ d ∷ more) s).0.messages ≡ false)
unfolding run_calls
run_calls_unanswered outside c d more ms bs s at ids differ cancels =
    let started = note (dispatched c) (start_tool outside c s) in
    let same : started.messages ≡ ms ++ new assistant bs ∷ [] =
      start_tool-messages outside c s ∙ at in
    rw (cancels started.log) (
      refl,
      ap (is_answered []) (abort_tool-messages outside c started)
          ∙ ap (λ z. is_answered [] (z ++ aborted c ∷ [])) same
          ∙ left_open outside c d more ms bs (codes "cancelled by the user; execution aborted") ids
              differ,
    )
