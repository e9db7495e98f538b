-- ===== src/Harness/Session/Batch.antt =====
-- The invariant of a session, through the opening of a stream and its events, and through a batch of
-- calls.
use unshackled.Prelude.{
  ℕ, zero, suc, ◌+◌, ◌≡◌, refl, Bool, true, false, Option, none, some, List, [], ◌∷◌, map, ltb,
  ◌==◌, if◌then◌else◌, Bool-cases, inl, inr, ◌&&◌,
}
use unshackled.Text.{Text, codes, text_eq}
use unshackled.Core.Messages.{ToolCall, ToolResult}
use unshackled.Llm.Errors.{QuotaInfo, ProviderError, quota}
use unshackled.Recovery.Monitor.{detected}
use unshackled.Tools.Registry.{error_result}
use unshackled.Llm.Events.{
  text_delta, reasoning_delta, tool_call, usage, provider_warning, output_limit, finished,
}
use unshackled.Harness.Session.{
  Act, requested, sent, slept, ModelRequest, SessionConfig, Session, StreamItem, event, broken, cut,
  Opened, opened, refused, Outside, PlanStep, RuntimeEvent, send,
}
use unshackled.Harness.Session.Open.{
  StreamOpen, pause_at, note_quota, give_up, on_opened, open_from, open_stream, is_transient,
  cancelled, wait_before, after_wait,
}
use unshackled.Harness.Session.Stream.{Streamed, read_stream, add_text}
use unshackled.Harness.Session.Calls.{parse_plan}
use unshackled.Harness.Session.Execute.{
  default_tool_failure_threshold, warn_failure, failures_of, record_failure, track, send_plan,
  start_tool, finish_tool, abort_tool, after_call, run_calls,
}
use unshackled.Harness.Session.Sound.{
  IsFairRequest, Sound, Sounds-logged, either-Sound, append-result,
}

pause_at-Sound : (o : Option QuotaInfo) (s : Session) → Sound [] s → Sound [] (pause_at o s)
pause_at-Sound none s h = h
pause_at-Sound (some q) s h = Sounds-logged _ tt (Sounds-logged _ tt (Sounds-logged _ tt h))

note_quota-Sound : (err : ProviderError) (s : Session) → Sound [] s → Sound [] (note_quota err s)
unfolding note_quota
note_quota-Sound err s h = pause_at-Sound (quota err) _ h

give_up-Sound : (err : ProviderError) (s : Session) → Sound [] s → Sound [] (give_up err s).0
unfolding give_up
give_up-Sound err s h = Sounds-logged _ tt (note_quota-Sound err s h)

either_end :
    {A : Type 0} (b : Bool) (x y : Session × A)
    → Sound [] x.0
    → Sound [] y.0
    → Sound [] (if b then x else y).0
either_end true x y hx hy = hx
either_end false x y hx hy = hy

module _ (outside : Outside) (config : SessionConfig) (request : ModelRequest) where
  wait_before-Sound :
      (err : ProviderError) (attempt : ℕ) (s : Session)
      → Sound [] s
      → Sound [] (wait_before outside config request err attempt s)
  unfolding wait_before
  wait_before-Sound err attempt s h = Sounds-logged (slept _) tt (Sounds-logged (sent _) tt h)

  after_wait-Sound :
      (next : Session → Session × StreamOpen) (s : Session)
      → ((later : Session) → Sound [] later → Sound [] (next later).0)
      → Sound [] s
      → Sound [] (after_wait outside config request next s).0
  unfolding after_wait
  after_wait-Sound next s f h =
      either_end {A = StreamOpen} (outside.backoff_cancelled s.log) (s, cancelled) (next s) h
        (f s h)

  on_opened-Sound :
      (attempt : ℕ) (next : Session → Session × StreamOpen) (s : Session) (o : Opened)
      → ((later : Session) → Sound [] later → Sound [] (next later).0)
      → Sound [] s
      → Sound [] (on_opened outside config request attempt next s o).0
  on_opened-Sound attempt next s (opened items) f h = h
  on_opened-Sound attempt next s (refused err) f h =
      either_end {A = StreamOpen} (is_transient err && ltb attempt config.max_stream_retries)
        (after_wait outside config request next
          (wait_before outside config request err (attempt + 1) s))
        (give_up err s)
        (after_wait-Sound next (wait_before outside config request err (attempt + 1) s) f
          (wait_before-Sound err (attempt + 1) s h))
        (give_up-Sound err s h)

  open_from-Sound :
      (left attempt : ℕ) (s : Session)
      → IsFairRequest request
      → Sound [] s
      → Sound [] (open_from outside config request left attempt s).0
  unfolding open_from
  open_from-Sound zero attempt s q h = h
  open_from-Sound (suc left) attempt s q h =
      on_opened-Sound attempt (open_from outside config request left (attempt + 1)) _
        (outside.stream (requested request ∷ s.log))
        (λ later k. open_from-Sound left (attempt + 1) later q k)
        (Sounds-logged (requested request) q h)

  pub open_stream-Sound :
      (s : Session)
      → IsFairRequest request
      → Sound [] s
      → Sound [] (open_stream outside config request s).0
  unfolding open_stream
  open_stream-Sound s q h = open_from-Sound (suc config.max_stream_retries) 0 s q h

pub read_stream-Sound :
    (items : List StreamItem) (l : Streamed) (s : Session)
    → Sound [] s
    → Sound [] (read_stream items l s).0
unfolding read_stream
read_stream-Sound [] l s h = Sounds-logged _ tt h
read_stream-Sound (cut ∷ items) l s h = h
read_stream-Sound (broken err ∷ items) l s h = Sounds-logged _ tt (note_quota-Sound err s h)
read_stream-Sound (event finished ∷ items) l s h = h
read_stream-Sound (event (text_delta delta) ∷ items) l s h =
    let rest =
      read_stream-Sound items (add_text delta l) (send (RuntimeEvent.text delta) s)
        (Sounds-logged (sent _) tt h) in
    elim (Bool-cases (detected (add_text delta l).monitor)) [
      | inl y ↦ rw y (Sounds-logged (sent _) tt (Sounds-logged (sent _) tt h))
      | inr n ↦ rw n rest
    ]
read_stream-Sound (event (reasoning_delta delta) ∷ items) l s h =
    read_stream-Sound items _ _ (Sounds-logged _ tt h)
read_stream-Sound (event (tool_call call) ∷ items) l s h = read_stream-Sound items _ s h
read_stream-Sound (event (usage u) ∷ items) l s h =
    read_stream-Sound items l _ (Sounds-logged _ tt (Sounds-logged _ tt h))
read_stream-Sound (event (provider_warning message) ∷ items) l s h =
    read_stream-Sound items l _ (Sounds-logged _ tt h)
read_stream-Sound (event (output_limit message) ∷ items) l s h =
    read_stream-Sound items _ _ (Sounds-logged _ tt h)

warn_failure-Sound :
    (name : Text) (count : ℕ) (pending : List Text) (s : Session)
    → Sound pending s
    → Sound pending (warn_failure name count s)
unfolding warn_failure
warn_failure-Sound name count pending s h =
    elim (Bool-cases (ltb count default_tool_failure_threshold)) [
      | inl y ↦ rw y (Sounds-logged (sent _) tt h)
      | inr n ↦ elim (Bool-cases (count == default_tool_failure_threshold)) [
        | inl y ↦ rw (n, y) (Sounds-logged (sent _) tt (Sounds-logged (sent _) tt h))
        | inr m ↦ rw (n, m) (Sounds-logged (sent _) tt h)
      ]
    ]

track-Sound :
    (r : ToolResult) (name : Text) (pending : List Text) (s : Session)
    → Sound pending s
    → Sound pending (track r name s)
unfolding track
track-Sound r name pending s h = elim (Bool-cases r.is_error) [
  | inl y ↦ rw y (
      warn_failure-Sound name (failures_of name (record_failure name s.failures)) pending
        (record s { failures = record_failure name s.failures }) h)
  | inr n ↦ rw n h
]

send_plan-Sound :
    (o : Option (List PlanStep)) (pending : List Text) (s : Session)
    → Sound pending s
    → Sound pending (send_plan o s)
send_plan-Sound none pending s h = h
send_plan-Sound (some steps) pending s h = Sounds-logged _ tt h

abbrev pub id_of : ToolCall → Text
id_of call = call.id

-- Every result answers the call that it was asked for.
abbrev pub Answering : Outside → Type 0
Answering outside =
    (log : List Act) (call : ToolCall) (r : ToolResult)
    → outside.dispatch log call ≡ some r
    → r.id ≡ call.id

-- What a batch of calls leaves: nothing pending, or if the user cancelled, the calls that are left.
pub data AfterBatch : Session × Bool → Type 0 where
  whole_batch : {s : Session} → Sound [] s → AfterBatch (s, true)
  interrupted : {s : Session} (pending : List Text) → Sound pending s → AfterBatch (s, false)

module _ (outside : Outside) where
  start_tool-Sound :
      (call : ToolCall) (pending : List Text) (s : Session)
      → Sound pending s
      → Sound pending (start_tool outside call s)
  unfolding start_tool
  start_tool-Sound call pending s h = Sounds-logged _ tt (
      Sounds-logged _ tt (
        Sounds-logged _ tt (
          either-Sound (text_eq call.name (codes "update_plan")) pending
            (send_plan (parse_plan (outside.parse_json call.input)) s) s
            (send_plan-Sound (parse_plan (outside.parse_json call.input)) pending s h) h)))

  finish_tool-Sound :
      (call : ToolCall) (r : ToolResult) (pending : List Text) (s : Session)
      → Sound (r.id ∷ pending) s
      → Sound pending (finish_tool outside call r s)
  finish_tool-Sound call r pending s h = append-result pending r _ (
      Sounds-logged _ tt
        (Sounds-logged _ tt (Sounds-logged _ tt (track-Sound r call.name (r.id ∷ pending) s h))))

  abort_tool-Sound :
      (call : ToolCall) (pending : List Text) (s : Session)
      → Sound (call.id ∷ pending) s
      → Sound pending (abort_tool outside call s)
  abort_tool-Sound call pending s h =
      append-result pending (error_result call.id _) _ (Sounds-logged _ tt (Sounds-logged _ tt h))

  after_call-AfterBatch :
      (call : ToolCall) (pending : List Text) (o : Option ToolResult) (s : Session)
      (next : Session → Session × Bool)
      → ((r : ToolResult) → o ≡ some r → r.id ≡ call.id)
      → Sound (call.id ∷ pending) s
      → ((later : Session) → Sound pending later → AfterBatch (next later))
      → AfterBatch (after_call outside call o s next)
  after_call-AfterBatch call pending none s next a h f =
      interrupted pending (abort_tool-Sound call pending s h)
  after_call-AfterBatch call pending (some r) s next a h f =
      f _ (finish_tool-Sound call r pending s (rw (a r refl) h))

  -- After a batch nothing is pending, unless it was interrupted.
  pub run_calls-AfterBatch :
      (calls : List ToolCall) (s : Session)
      → Answering outside
      → Sound (map id_of calls) s
      → AfterBatch (run_calls outside calls s)
  unfolding run_calls
  run_calls-AfterBatch [] s a h = whole_batch h
  run_calls-AfterBatch (call ∷ calls) s a h =
      after_call-AfterBatch call (map id_of calls) (outside.dispatch _ call) _
        (run_calls outside calls) (λ r e. a _ call r e)
        (Sounds-logged _ tt (start_tool-Sound call (call.id ∷ map id_of calls) s h))
        (λ later k. run_calls-AfterBatch calls later a k)
