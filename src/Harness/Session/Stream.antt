-- ===== src/Harness/Session/Stream.antt =====
-- crates/localpilot-harness/src/session.rs: the loop over the events of a stream.
use unshackled.Prelude.{Bool, true, false, List, [], ◌∷◌, ◌++◌, if◌then◌else◌}
use unshackled.Text.{Text, codes}
use unshackled.Core.Messages.{ToolCall}
use unshackled.Llm.Errors.{ProviderError, stream_decode, display}
use unshackled.Recovery.Monitor.{StreamMonitor, fresh, push, detected}
use unshackled.Llm.Events.{
  text_delta, reasoning_delta, tool_call, usage, provider_warning, output_limit, finished,
}
use unshackled.Harness.Session.{
  StreamItem, event, broken, cut, Session, SessionEventKind, RuntimeEvent, record_event, send, warn,
}
use unshackled.Harness.Session.Open.{is_invalid_request, note_quota}

-- The locals of the loop.
pub record Streamed : Type 0 where
  pub text : Text
  pub reasoning : Text
  pub calls : List ToolCall
  pub output_limited : Bool
  pub monitor : StreamMonitor

abbrev pub nothing_streamed : Streamed
nothing_streamed = record {
  text = [];
  reasoning = [];
  calls = [];
  output_limited = false;
  monitor = fresh;
}

-- How the loop is left: at its end, on a failure of the stream, on a request that was too large, or
-- with the turn.
pub data StreamEnd : Type 0 where
  complete stream_failed : Streamed → StreamEnd
  overflowed cancelled stopped : StreamEnd

unfoldable pub stream_error_stops_turn : ProviderError → Bool
stream_error_stops_turn (stream_decode m) = false
stream_error_stops_turn _ = true

abbrev pub after_error : ProviderError → Streamed → StreamEnd
after_error err l =
    if is_invalid_request err
    then overflowed
    else if stream_error_stops_turn err
    then stopped
    else stream_failed l

abbrev pub on_error : ProviderError → Streamed → Session → Session × StreamEnd
on_error err l s =
    (warn (codes "stream error: " ++ display err) (note_quota err s), after_error err l)

abbrev pub add_text : Text → Streamed → Streamed
add_text delta l = record l { text = l.text ++ delta; monitor = push l.monitor delta }

unfoldable pub read_stream : List StreamItem → Streamed → Session → Session × StreamEnd
unfolding note_quota stream_error_stops_turn push detected display
read_stream [] l s = (warn (codes "stream ended before a completion marker") s, stream_failed l)
read_stream (cut ∷ items) l s = (s, cancelled)
read_stream (broken err ∷ items) l s = on_error err l s
read_stream (event finished ∷ items) l s = (s, complete l)
read_stream (event (text_delta delta) ∷ items) l s =
    let l' = add_text delta l in
    let shown = send (RuntimeEvent.text delta) s in
    let rest = read_stream items l' shown in
    if detected l'.monitor
    then (warn (codes "degenerate output detected; stopping generation") shown, complete l')
    else rest
read_stream (event (reasoning_delta delta) ∷ items) l s =
    read_stream items (record l { reasoning = l.reasoning ++ delta })
      (send (RuntimeEvent.reasoning delta) s)
read_stream (event (tool_call call) ∷ items) l s =
    read_stream items (record l { calls = l.calls ++ call ∷ [] }) s
read_stream (event (usage u) ∷ items) l s = read_stream items l (
    record_event (SessionEventKind.usage_reported u.input_tokens u.output_tokens)
      (send (RuntimeEvent.usage u) s))
read_stream (event (provider_warning message) ∷ items) l s = read_stream items l (warn message s)
read_stream (event (output_limit message) ∷ items) l s =
    read_stream items (record l { output_limited = true }) (warn message s)
