-- ===== src/Harness/Session/Accept.antt =====
-- crates/localpilot-harness/src/session.rs: the contract on tools from the end of a stream to the end
-- of the round.
use unshackled.Prelude.{
  ◌≡◌, refl, Bool, true, false, ◌&&◌, Option, none, some, List, [], ◌∷◌, ◌++◌, map, Bool-cases, inl,
  inr,
}
use unshackled.Text.{Text, codes, text_eq}
use unshackled.Core.Messages.{user, ContentBlock, ToolCall, text_message}
use unshackled.Recovery.Detect.{BadOutputKind}
use unshackled.Recovery.Engine.{is_degraded, record_bad_turn, record_clean_turn}
use unshackled.Harness.Compaction.Pairs.{call_ids, result_ids}
use unshackled.Harness.Resume.Driver.{done, degraded, provider_error}
use unshackled.Tools.Registry.{error_result}
use unshackled.Harness.Session.{SessionConfig, Session, Outside, sent, warn}
use unshackled.Harness.Session.History.{is_retrieval, into_synthetic}
use unshackled.Harness.Session.Stream.{Streamed}
use unshackled.Harness.Session.Calls.{invalid_tool_calls, kept_calls, assemble, tool_error_message}
use unshackled.Harness.Session.Execute.{run_calls}
use unshackled.Harness.Session.Turn.{
  Locals, stop, note_bad, recover, answer_rejected, append_content, reject_empty, after_calls,
  with_calls, accept, judge, unless_limited, is_degenerate, repair_prompt, limit_message,
}
use unshackled.Harness.Session.Sound.{
  Sound, Sounds-logged, append-user, append-result, append-assistant,
}
use unshackled.Harness.Session.Batch.{
  id_of, Answering, AfterBatch, whole_batch, interrupted, run_calls-AfterBatch,
}
use unshackled.Harness.Session.Ends.{
  IsKept, stop-IsKept, stop_interrupted, either-IsKept, note_bad-Sound, assemble-ids,
}

module _ (outside : Outside) (config : SessionConfig) (faithful : Answering outside) where
  append_content-Sound :
      (bs : List ContentBlock) (s : Session)
      → result_ids bs ≡ []
      → Sound [] s
      → Sound (call_ids bs) (append_content outside config bs s)
  append_content-Sound [] s e h = h
  append_content-Sound (b ∷ bs) s e h = append-assistant (b ∷ bs) s e h

  answer_rejected-Sound :
      (reason : Text) (calls : List ToolCall) (s : Session)
      → Sound (map id_of calls) s
      → Sound [] (answer_rejected outside config reason calls s)
  unfolding answer_rejected tool_error_message
  answer_rejected-Sound reason [] s h = h
  answer_rejected-Sound reason (call ∷ calls) s h = answer_rejected-Sound reason calls _ (
      append-result (map id_of calls)
        (error_result call.id (codes "tool call rejected: " ++ reason)) s h)

  reject_empty-Sound :
      (reason : Text) (calls : List ToolCall) (s : Session)
      → Sound [] s
      → Sound [] (reject_empty outside config reason calls s)
  unfolding is_retrieval text_eq
  reject_empty-Sound reason [] s h =
      append-user (into_synthetic (codes "tool call rejected") (text_message user reason)).metadata
        reason s refl h
  reject_empty-Sound reason (call ∷ calls) s h = h

  after_calls-IsKept :
      (l : Locals) (r : Session × Bool) → AfterBatch r → IsKept (after_calls outside config l r)
  after_calls-IsKept l (s, true) (whole_batch h) = h
  after_calls-IsKept l (s, false) (interrupted pending h) = stop_interrupted pending s h

  with_calls-IsKept :
      (l : Locals) (calls : List ToolCall) (s : Session) (o : Option Text)
      → (o ≡ none → invalid_tool_calls outside.parse_json calls ≡ none)
      → Sound (map id_of calls) s
      → IsKept (with_calls outside config l calls s o)
  with_calls-IsKept l calls s (some reason) e h =
      reject_empty-Sound reason calls _
        (answer_rejected-Sound reason calls (warn reason s) (Sounds-logged (sent _) tt h))
  with_calls-IsKept l [] s none e h = stop-IsKept done s h
  with_calls-IsKept l (call ∷ calls) s none e h = rw (e refl) (
      after_calls-IsKept l (run_calls outside (call ∷ calls) s)
        (run_calls-AfterBatch outside (call ∷ calls) s faithful h))

  kept_calls-valid :
      (calls : List ToolCall) (o : Option Text)
      → invalid_tool_calls outside.parse_json calls ≡ o
      → o ≡ none
      → invalid_tool_calls outside.parse_json (kept_calls o calls) ≡ none
  kept_calls-valid calls none e n = e
  kept_calls-valid calls (some reason) e n = cc

  accept-IsKept :
      (l : Locals) (out : Streamed) (s : Session)
      → Sound [] s
      → IsKept (accept outside config l out s)
  unfolding accept
  accept-IsKept l out s h =
      let rejection = invalid_tool_calls outside.parse_json out.calls in
      let calls = kept_calls rejection out.calls in
      let bs = assemble out.reasoning out.text calls in
      let (c, r) = assemble-ids out.reasoning out.text calls in
      let clean = record s { recovery = record_clean_turn s.recovery } in
      let appended = append_content-Sound bs clean r h in
      with_calls-IsKept l calls (append_content outside config bs clean) rejection
        (kept_calls-valid out.calls rejection refl) (rw c at appended)

  recover-IsKept :
      (l : Locals) (kind : BadOutputKind) (s : Session)
      → Sound [] s
      → IsKept (recover outside config l kind s)
  unfolding recover is_retrieval text_eq
  recover-IsKept l kind s h =
      let (e, d) = record_bad_turn s.recovery kind in
      let noted = note_bad-Sound kind d e s h in
      elim (Bool-cases (is_degraded e.health)) [
        | inl y ↦ rw y (stop-IsKept degraded (note_bad kind d e s) noted)
        | inr n ↦ elim (Bool-cases (is_degenerate kind && l.tools_enabled)) [
          | inl y ↦
              rw (n, y)
                (append-user
                  (into_synthetic (codes "repair prompt")
                    (text_message user repair_prompt)).metadata
                  repair_prompt
                  (warn (codes "retrying the degenerate response without tool schemas")
                    (note_bad kind d e s))
                  refl (Sounds-logged (sent _) tt noted))
          | inr m ↦
              rw (n, m)
                (append-user
                  (into_synthetic (codes "repair prompt")
                    (text_message user repair_prompt)).metadata
                  repair_prompt (note_bad kind d e s) refl noted)
        ]
      ]

  judge-IsKept :
      (l : Locals) (out : Streamed) (s : Session) (o : Option BadOutputKind)
      → Sound [] s
      → IsKept (judge outside config l out s o)
  judge-IsKept l out s none h = accept-IsKept l out s h
  judge-IsKept l out s (some kind) h = recover-IsKept l kind s h

  pub unless_limited-IsKept :
      (l : Locals) (out : Streamed) (s : Session) (o : Option BadOutputKind)
      → Sound [] s
      → IsKept (unless_limited outside config l out s o)
  unless_limited-IsKept l out s o h =
      either-IsKept out.output_limited (stop provider_error (warn (limit_message outside config) s))
        (judge outside config l out s o)
        (stop-IsKept provider_error (warn (limit_message outside config) s)
          (Sounds-logged (sent _) tt h))
        (judge-IsKept l out s o h)
