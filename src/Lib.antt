-- ===== src/Lib.antt =====
-- LocalPilot is a coding agent for the terminal. This library models the parts of it that decide:
-- what the sandbox lets through, which step of a plan is next and when it is committed or given
-- up, when a broken model output is recognised and what it does to the health of the model, how a
-- conversation is cut down to the context window of the model, when a request is repeated and when
-- a paused run goes on.
--
-- How the parts interact: before a turn the session compacts its messages and merges the system
-- messages of what it sends. It streams a model turn through the monitor of Recovery and, when it
-- is bad, through its ladder. The calls of the turn go to the registry of Tools: a tool states its
-- effects, for which the sandbox classifies commands and paths, the permission engine decides on
-- each effect, gates may block the call, and the bounded output goes back into the history of the
-- session. The worker of the harness asks the rules and the quality gate at the end of a step.
-- Requests to a provider are repeated by Llm, and a run that is out of quota is paused by Quota.
-- The framing of Rpc cuts the byte stream of a client.
--
-- Prelude and Text hold what the modules share; Text stands for the methods of Rust's str, Vec and
-- Path that the program calls, a string being its list of code points and a path on POSIX.
--
-- Core: crates/localpilot-core/src/message.rs, tool.rs and summary.rs, messages and structured
-- summaries.
--
-- Recovery/Detect: crates/localpilot-recovery/src/detect.rs, the detectors over a whole text
-- (detect, is_slash_flood, is_repeated_token_loop, longest_repeat_run). A `for` loop is a function
-- of one round (run_step, scan_line, token_step) and the recursion over the list; the locals of
-- the loop are a record.
-- Recovery/Monitor: StreamMonitor of the same file. push_char is one round of push, with the local
-- backticks_pending, and lead_step, track_run, track_token are its parts.
-- Recovery/Engine: crates/localpilot-recovery/src/engine.rs. turns runs a history of clean and bad
-- turns.
-- Sandbox/Permission: crates/localpilot-sandbox/src/permission.rs. decide_in, effect_decision and
-- may_relax_command are the matches on the profile, the effect and the class.
-- Sandbox/Command: crates/localpilot-sandbox/src/command.rs. Classify has classify_posix and
-- classify_windows, Programs the lists of programs, Git and Shells what they call.
-- Sandbox/SecretPath: crates/localpilot-sandbox/src/secret_path.rs.
-- Sandbox/Workspace: crates/localpilot-sandbox/src/path.rs; contains_path is Workspace::contains,
-- and climb the loop of canonicalize_existing_prefix.
-- Harness/Verdicts, Harness/Rules: crates/localpilot-harness/src/rules.rs, with its types from
-- crates/localpilot-config/src/schema.rs and crates/localpilot-harness/src/quality/runner.rs in
-- Harness/Config; Verdicts has the quality gate. A rule is a constructor of Rule, and check, name,
-- critical, default_severity and applies_to are its methods.
-- Harness/Worker: crates/localpilot-harness/src/worker.rs: StepLoop and decide_step.
-- Harness/Progress: crates/localpilot-harness/src/progress.rs, the steps of a plan, and
-- select_next_step of the worker; complete_first is the search of mark_complete. File has parse
-- and render, with title_after of crates/localpilot-harness/src/brief.rs; parse_line is one round
-- of the loop of parse, and an early return is an error of Parsed.
-- Harness/Compaction: crates/localpilot-harness/src/compaction.rs. Trim has the loops of
-- compact_plan and compact, its messages; the locals at the end of its loops are the record
-- Trimmed. Parts has what the loops call, Digest, Buckets and Plan the digest of what was dropped
-- and compact_plan itself, Swap has apply_smart_digest, and Merge merge_consecutive_system. A loop
-- whose variable shrinks is a recursion that returns what it drops and keeps; find_cut is the loop
-- of split_oversized_exchange, with the messages before the cut as an argument. BTreeMap and
-- BTreeSet are sorted lists.
-- Harness/Decisions: crates/localpilot-harness/src/decisions.rs; read_line is one round of the
-- loop of parse.
-- Harness/Resume: crates/localpilot-harness/src/resume.rs, with StopReason of
-- crates/localpilot-harness/src/session.rs. Driver has what the run of a step asks of the outside,
-- Status the paths in the status of git, Run the loop and the commit, Replan the entry in
-- DECISIONS.md and Start the guard of the run; attempts_loop is the loop of
-- resume_one_step_with_events, after_turn, on_action and on_decision its matches, and finish what
-- follows the loop. What was done is a list of actions, latest first, and each answer of the
-- outside is a function of it.
-- Harness/Session: crates/localpilot-harness/src/session.rs, the state of a session and its turn.
-- Events of crates/localpilot-store/src/events.rs, crates/localpilot-llm/src/event.rs and
-- request.rs, and crates/localpilot-harness/src/hooks.rs that a turn sends are its types. History
-- has append, set_retrieval_context, the compaction of the history with its cache and the retry
-- after an overflow; Open has open_stream, Stream the loop over the events of a stream, Calls the
-- checks and the message of a batch, Execute the guard on failing tools and the loop over the
-- calls of a batch, and Turn run_turn: round is one round of its loop, a `continue` is again, a
-- return is ended, and Locals are its locals. The session's log is the list of all it did, latest
-- first: requests, messages stored, events, dispatches and notices. The record Outside is what it
-- asks, each answer a function of the log. A stream is the finite list of its items, where `cut`
-- is a cancellation at that point; the map of failures is an association list. Registry is a
-- session whose calls go to the registry of tools.
-- Tools: crates/localpilot-tools/src/tool.rs, registry.rs and error.rs. Output bounds the output
-- of a tool (bound_output, floor_char_boundary, retention_key), Registry looks tools up and
-- dispatches a call (dispatch_gated), with the loops over effects and gates as recursions; what
-- was done is a list of Done, latest first.
-- Llm/Errors, Llm/Retry: crates/localpilot-llm/src/error.rs and retry.rs.
-- Llm/Events, Llm/Thinking: crates/localpilot-llm/src/event.rs. Thinking is InlineThinkingFilter:
-- filter_from is the loop of push, and longest_suffix the search of partial_tag_suffix.
-- Quota: crates/localpilot-quota/src/lib.rs.
-- Rpc/Framing: crates/localpilot-rpc/src/framing.rs.
-- Tests holds the theorems at concrete inputs.
--
-- Integers: counters of type u32 that the code increments are taken modulo 2 ^ 32. The generation
-- of the history is taken modulo 2 ^ 64. Those of type usize in the detectors are not bounded,
-- since they count characters or tokens in memory. A duration is its number of nanoseconds, with
-- the saturation of Duration's product at its maximum.
--
-- Fuel: retry has max_attempts + 1 units, one more than the rounds it can make; the filter of
-- inline reasoning has one unit more than its text has characters, of which every round but the
-- last takes a tag; the framer has one unit for each byte of its buffer, of which every round
-- takes at least one; the run of a step has as many units as attempts are allowed, and one if none
-- is, and each round but the last takes an attempt; the turn of a session takes the number of
-- rounds as an argument and is again where they are used up, since a model can call tools for as
-- long as it likes; the opening of a stream has one unit more than the retries that are allowed,
-- one for each request, and is unfinished where they do not suffice; the decimal text of a number
-- n has n + 1, more than it has digits. All other loops are recursions on a list or a text.
--
-- Parameters: the detector of secrets in a commit message, which matches regular expressions; the
-- product of a duration with a random fraction, of which it is assumed only that it does not
-- exceed the duration; the clock; what serde_json reads in the text of a tool's input
-- (parse_json), which only the digest uses; which paths exist and how the system canonicalizes
-- them; the operation that is retried; for the turn of a session the streams of the provider,
-- cancellation, what the user adds, the context that is retrieved, the summarizer and the dispatch
-- of a call; for a dispatch the effects and the run of a tool, the gates, the approver, the
-- retention of outputs and the redaction of secrets; and for the run of a step the turns of the
-- session, the outcomes of the gate, git, the files and the date.
--
-- Not modelled: the Windows separators of paths; the getters of private fields; tracing in the
-- worker; conversions from errors of the HTTP library; and the other crates and modules, which
-- read and write files, processes, terminals and the network: cli, tui, the built-in tools, mcp,
-- skills, store, localmind, the loading of the configuration, the provider adapters, the creation,
-- loading and forking of a session, and the servers of rpc.
pub mod Prelude
pub mod Text
pub mod Core
pub mod Recovery
pub mod Sandbox
pub mod Harness
pub mod Llm
pub mod Quota
pub mod Tools
pub mod Rpc
pub mod Tests
