-- ===== src/Harness/Session/Open.antt =====
-- crates/localpilot-harness/src/session.rs: the opening of a stream, with its retries.
use unshackled.Prelude.{
  ℕ, zero, suc, ◌+◌, ◌-◌, ◌/◌, ◌^◌, min, Bool, true, false, ◌&&◌, ltb, Option, none, some, List,
  ◌∷◌, ◌++◌, if◌then◌else◌,
}
use unshackled.Text.{Text, codes}
use unshackled.Text.Decimal.{decimal}
use unshackled.Llm.Errors.{
  QuotaInfo, ProviderError, invalid_request, server, network, quota, display,
}
use unshackled.Harness.Session.{
  requested, slept, ModelRequest, Session, SessionConfig, SessionEventKind, RuntimeEvent, HookEvent,
  StreamItem, Opened, opened, refused, Outside, note, record_event, send, notify, warn,
}

-- The stream, or why there is none; `unfinished` stands for a loop that ran out of fuel.
pub data StreamOpen : Type 0 where
  streaming : List StreamItem → StreamOpen
  cancelled failed overflow unfinished : StreamOpen

abbrev pub limit_label : Option Text → Text
limit_label none = codes "rate limited"
limit_label (some kind) = kind ++ codes " limit reached"

abbrev pub reset_label : Option ℕ → Option Text → Text
reset_label none kind = limit_label kind
reset_label (some at) kind = codes "resets at " ++ decimal at

abbrev pub wait_label : Option ℕ → QuotaInfo → Text
wait_label none q = reset_label q.reset_at q.limit_kind
wait_label (some wait) q = codes "retry in ~" ++ (decimal (wait / 1_000_000_000) ++ codes "s")

unfoldable pub quota_reset_label : QuotaInfo → Text
unfolding decimal
quota_reset_label q = wait_label q.retry_after q

abbrev pub pause_at : Option QuotaInfo → Session → Session
pause_at none s = s
pause_at (some q) s =
    let reset = quota_reset_label q in
    record_event (SessionEventKind.quota_paused reset)
      (notify (HookEvent.quota_paused reset) (send (RuntimeEvent.quota_paused reset) s))

-- What an error of the provider leaves: its metadata, and the notices of a pause.
unfoldable pub note_quota : ProviderError → Session → Session
unfolding quota quota_reset_label
note_quota err s = pause_at (quota err) (record s { last_quota = quota err })

abbrev pub is_transient : ProviderError → Bool
is_transient (network m) = true
is_transient (server status id) = true
is_transient _ = false

abbrev pub is_invalid_request : ProviderError → Bool
is_invalid_request (invalid_request m) = true
is_invalid_request _ = false

unfoldable pub give_up : ProviderError → Session → Session × StreamOpen
unfolding note_quota display
give_up err s =
    (warn (display err) (note_quota err s), if is_invalid_request err then overflow else failed)

unfoldable pub retry_warning : ProviderError → ℕ → ℕ → ℕ → Text
unfolding display decimal
retry_warning err attempt max secs =
    codes "provider unreachable ("
    ++ (display err
        ++ (codes "); retry "
            ++ (decimal attempt
                ++ (codes "/" ++ (decimal max ++ (codes " in " ++ (decimal secs ++ codes "s")))))))

module _ (outside : Outside) (config : SessionConfig) (request : ModelRequest) where
  -- The warning of a retry, and the wait before it.
  unfoldable pub wait_before : ProviderError → ℕ → Session → Session
  unfolding retry_warning quota
  wait_before err attempt s =
      let secs = 2 ^ min (attempt - 1) 5 in
      note (slept secs) (
        warn (retry_warning err attempt config.max_stream_retries secs)
          (record s { last_quota = quota err }))

  unfoldable pub after_wait : (Session → Session × StreamOpen) → Session → Session × StreamOpen
  after_wait next s = if outside.backoff_cancelled s.log then (s, cancelled) else next s

  -- One round after `attempt` retries, with the rounds that follow a retry.
  abbrev pub on_opened :
      ℕ → (Session → Session × StreamOpen) → Session → Opened → Session × StreamOpen
  on_opened attempt again s (opened items) = (s, streaming items)
  on_opened attempt again s (refused err) =
      if is_transient err && ltb attempt config.max_stream_retries
      then after_wait again (wait_before err (attempt + 1) s)
      else give_up err s

  -- The loop, with fuel; `attempt` is the number of retries made.
  unfoldable pub open_from : ℕ → ℕ → Session → Session × StreamOpen
  unfolding give_up after_wait wait_before
  open_from zero attempt s = (s, unfinished)
  open_from (suc fuel) attempt s =
      on_opened attempt (open_from fuel (attempt + 1)) (note (requested request) s)
        (outside.stream (requested request ∷ s.log))

  unfoldable pub open_stream : Session → Session × StreamOpen
  unfolding open_from
  open_stream s = open_from (suc config.max_stream_retries) 0 s
