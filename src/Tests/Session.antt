-- ===== src/Tests/Session.antt =====
-- The theorems on a session's turn and on the dispatch of tools, at concrete inputs.
use unshackled.Prelude.{
  ℕ, ◌≡◌, ◌≤◌, ◌<◌, ◌+◌, ◌%◌, refl, Bool, true, false, none, some, List, [], ◌∷◌, arith, ltb,
  if◌then◌else◌,
}
use unshackled.Text.{Text, codes, text_eq, one_of}
use unshackled.Core.Messages.{
  system, user, assistant, tool, ContentBlock, tool_use, tool_result, Message, new, text_message,
  ToolCall, ToolResult,
}
use unshackled.Recovery.Engine.{default_budget}
use unshackled.Recovery.Engine
use unshackled.Sandbox.Permission.{default_profile, interactive, read_path, PermissionEngine}
use unshackled.Harness.Compaction.Digest.{object, no_fields}
use unshackled.Harness.Compaction.Plan.{deterministic}
use unshackled.Harness.Compaction.Trim.{compact}
use unshackled.Harness.Compaction.Pairs.{is_paired}
use unshackled.Harness.Compaction.Answers.{is_answered, compact-is_answered}
use unshackled.Harness.Session.{
  Act, SessionConfig, Session, Outside, StreamItem, event, text_delta, tool_call, finished, opened,
  refused, fallback, disabled, ModelRequest,
}
use unshackled.Harness.Session.History.{is_retrieval}
use unshackled.Harness.Session.Execute.{failures_of, run_calls, u32_mod}
use unshackled.Harness.Session.Turn.{run_turn}
use unshackled.Harness.Session.Open.{open_stream}
use unshackled.Harness.Session.Opening.{requests, IsOver, open_stream-requests}
use unshackled.Harness.Session.Sound.{Sound}
use unshackled.Harness.Session.Batch.{Answering}
use unshackled.Harness.Session.Ends.{IsKept}
use unshackled.Harness.Session.Kept.{run_turn-IsKept}
use unshackled.Harness.Session.Ending.{IsEnded, run_turn-IsEnded}
use unshackled.Harness.Session.Recoveries.{IsSilentOpened}
use unshackled.Harness.Session.Cancelled.{run_calls_unanswered}
use unshackled.Harness.Session.Failures.{track_all, failing_streak, track_all-failing_streak}
use unshackled.Tools.{Tool, ToolGate, ok, pass, ToolContext}
use unshackled.Llm.Errors.{network}
use unshackled.Llm.Thinking.Chunks.{whole}
use unshackled.Llm.Thinking.Routes.{Routes, parts, filter_stream, filter_stream-Routes}
use unshackled.Tools.Output.{bound_output}
use unshackled.Tools.Shown.{Shows, bound_output-Shows}

-- A call of a tool in the first stream, and an answer in the next.
abbrev call_of : Text → ToolCall
call_of id = record { id = id; name = codes "read_file"; input = codes "{}" }

abbrev stream_of : ℕ → List StreamItem
stream_of n =
    if ltb n 2
    then event (tool_call (call_of (codes "a"))) ∷ event finished ∷ []
    else event (text_delta (codes "It is done.")) ∷ event finished ∷ []

abbrev reading : Outside
reading = record {
  is_cancelled = λ log. false;
  drain = λ log. [];
  context_for = λ log t. [];
  stream = λ log. opened (stream_of (requests log));
  backoff_cancelled = λ log. false;
  summarize = λ log dropped carried. fallback disabled;
  dispatch = λ log call. some (record { id = call.id; output = codes "ok"; is_error = false });
  tool_specs = [];
  parse_json = λ t. object no_fields;
}

abbrev config : SessionConfig
config = record {
  model = codes "default";
  context_token_limit = 24000;
  reasoning_effort = none;
  max_stream_retries = 3;
  compaction_mode = deterministic;
}

abbrev fresh_session : Session
fresh_session = record {
  messages = text_message system (codes "You are an agent.") ∷ [];
  recovery = record {
    budget = default_budget;
    attempts = 0;
    health = Engine.healthy;
    last_turn_clean = true;
  };
  last_quota = none;
  history_generation = 0;
  compaction_cache = none;
  failures = [];
  log = [];
}

fresh_session-Sound : Sound [] fresh_session
unfolding is_paired is_answered is_retrieval
fresh_session-Sound = record {
  fair = record { paired = refl; answered = refl; opened = refl; plain = refl };
  requests = tt;
  kept = tt;
}

reading-Answering : Answering reading
reading-Answering log call r e = ground (arith, e)

run_turn-IsKept_example : IsKept (run_turn reading config 3 (codes "Read it.") fresh_session)
run_turn-IsKept_example =
    run_turn-IsKept reading config 3 (codes "Read it.") fresh_session refl reading-Answering
      fresh_session-Sound

abbrev talking : Outside
talking = record reading {
  stream = λ log. opened (event (text_delta (codes "It is done.")) ∷ event finished ∷ []);
}

talking-silent : (log : List Act) → IsSilentOpened (talking.stream log)
talking-silent log = refl

run_turn-IsEnded_example : IsEnded (run_turn talking config 5 (codes "Hello") fresh_session)
run_turn-IsEnded_example =
    run_turn-IsEnded talking config (codes "Hello") fresh_session talking-silent (omega arith)
      (omega arith)

abbrev cancelling : Outside
cancelling = record reading { dispatch = λ log call. none }

cancels : (log : List Act) → cancelling.dispatch log (call_of (codes "a")) ≡ none
cancels log = refl

abbrev two_calls : List ContentBlock
two_calls = tool_use (call_of (codes "a")) ∷ tool_use (call_of (codes "b")) ∷ []

abbrev asked_session : Session
asked_session = record fresh_session {
  messages = text_message user (codes "Read both.") ∷ new assistant two_calls ∷ [];
}

differ : text_eq (codes "b") (codes "a") ≡ false
unfolding text_eq
differ = refl

run_calls_unanswered_example :
    ((run_calls cancelling (call_of (codes "a") ∷ call_of (codes "b") ∷ []) asked_session).1
      ≡ false)
    × (is_answered []
          (run_calls cancelling
            (call_of (codes "a") ∷ call_of (codes "b") ∷ [])
            asked_session).0.messages
        ≡ false)
run_calls_unanswered_example =
    run_calls_unanswered cancelling (call_of (codes "a")) (call_of (codes "b")) []
      (text_message user (codes "Read both.") ∷ []) two_calls asked_session refl refl differ cancels

abbrev result_of : Bool → ToolResult
result_of is_error = record { id = codes "a"; output = codes "no"; is_error = is_error }

abbrev some_results : List (Text × ToolResult)
some_results =
    (codes "fetch", result_of true)
    ∷ (codes "read_file", result_of false)
    ∷ (codes "fetch", result_of true)
    ∷ (codes "fetch", result_of false)
    ∷ []

track_all-failing_streak_example :
    failures_of (codes "fetch") (track_all some_results fresh_session).failures
    ≡ failing_streak (codes "fetch") some_results % u32_mod
track_all-failing_streak_example =
    track_all-failing_streak (codes "fetch") some_results fresh_session refl

abbrev answered_history : List Message
answered_history =
    text_message user (codes "Read both.")
    ∷ new assistant two_calls
    ∷ new tool (tool_result (record (result_of false) { id = codes "b" }) ∷ [])
    ∷ new tool (tool_result (result_of false) ∷ [])
    ∷ []

answered_history-answered : is_answered [] answered_history ≡ true
unfolding is_answered text_eq one_of
answered_history-answered = refl

compact-is_answered_example : is_answered [] (compact answered_history 3) ≡ true
compact-is_answered_example = compact-is_answered answered_history 3 answered_history-answered

abbrev read_tool : Tool
read_tool = record {
  name = codes "read_file";
  effects = λ input. ok (read_path true false ∷ read_path true true ∷ []);
  approval_detail = λ input. input;
  invoke = λ log input. ok (record { text = codes "text"; is_error = false; truncated = false });
}

abbrev open_gate : ToolGate
open_gate = record { name = codes "audit"; check = λ log call effects. pass }

abbrev usual_context : ToolContext
usual_context = record { interactivity = interactive; trusted = true; retention = none }

abbrev usual_engine : PermissionEngine
usual_engine = record { profile = default_profile; allowlist = [] }

abbrev a_request : ModelRequest
a_request = record {
  model = codes "default";
  messages = answered_history;
  tools = [];
  reasoning_effort = none;
}

abbrev offline : Outside
offline = record reading { stream = λ log. refused (network (codes "no route")) }

open_stream-requests_example :
    IsOver (open_stream offline config a_request fresh_session).1
    × (requests fresh_session.log
        < requests (open_stream offline config a_request fresh_session).0.log)
    × (requests (open_stream offline config a_request fresh_session).0.log
        ≤ requests fresh_session.log + (config.max_stream_retries + 1))
open_stream-requests_example = open_stream-requests offline config a_request fresh_session

bound_output-Shows_example :
    Shows
      (codes "read_file")
      (codes "a")
      (codes "text")
      usual_context
      []
      (bound_output (codes "read_file") (codes "a") (codes "text") usual_context [])
bound_output-Shows_example =
    bound_output-Shows (codes "read_file") (codes "a") (codes "text") usual_context []

abbrev split_deltas : List Text
split_deltas = codes "before <thi" ∷ codes "nk>inside</th" ∷ codes "ink>after <t" ∷ []

filter_stream-Routes_example :
    Routes false (whole split_deltas) (parts (filter_stream split_deltas))
filter_stream-Routes_example = filter_stream-Routes split_deltas
