-- ===== src/Tools/Dispatch.antt =====
-- crates/localpilot-tools/src/registry.rs: a tool runs only if it may.
use unshackled.Prelude.{
  ◌≡◌, refl, sym, ◌∙◌, inl, inr, Bool, true, false, Option, none, some, List, [], ◌∷◌, ◌++◌,
  append_assoc, All, arith, if◌then◌else◌, Bool-cases,
}
use unshackled.Text.{Text, text_eq}
use unshackled.Text.Laws.{text_eq_sound}
use unshackled.Core.Messages.{ToolCall, ToolResult}
use unshackled.Sandbox.Permission.{Effect, PermissionEngine}
use unshackled.Tools.{
  Tried, ok, err, ToolOutput, Done, invoked, retained, Tool, ToolGate, ToolContext, Approver,
  Retain, display,
}
use unshackled.Tools.Output.{retain_output, bound_output, format_tool_output}
use unshackled.Tools.Registry.{
  get, output_of, invoke_tool, unless_blocked, if_allowed, with_effects, with_tool, dispatch_gated,
}
use unshackled.Tools.Authorized.{
  invocations, invocations-append, In-append_right, Granted, Authorizes, authorize-Authorizes,
  HasPassed, HasPassed-append, Checks, check_gates-Checks,
}

-- The new entries of the log that the bound on an output makes hold no call of a tool.
pub record Retains (log later : List Done) : Type 0 where
  pub added : List Done
  pub extends : later ≡ added ++ log
  pub no_call : invocations added ≡ 0

retain_output-Retains :
    (r : Option Retain) (id t : Text) (log : List Done) → Retains log (retain_output r id t log).0
unfolding retain_output
retain_output-Retains none id t log = record { added = []; extends = refl; no_call = refl }
retain_output-Retains (some retain) id t log = record {
  added = retained _ t ∷ [];
  extends = refl;
  no_call = refl;
}

either-Retains :
    (b : Bool) (log : List Done) (x y : List Done × Text)
    → Retains log x.0
    → Retains log y.0
    → Retains log (if b then x else y).0
either-Retains true log x y hx hy = hx
either-Retains false log x y hx hy = hy

bound_output-Retains :
    (tool id t : Text) (ctx : ToolContext) (log : List Done)
    → Retains log (bound_output tool id t ctx log).0
unfolding bound_output
bound_output-Retains tool id t ctx log =
    either-Retains _ log _ _ (record { added = []; extends = refl; no_call = refl })
      (retain_output-Retains ctx.retention id t log)

get-name : (ts : List Tool) (name : Text) (t : Tool) → get ts name ≡ some t → t.name ≡ name
unfolding get
get-name [] name t h = cc
get-name (u ∷ ts) name t h = elim (Bool-cases (text_eq u.name name)) [
  | inl y ↦ let same : u ≡ t = ground (arith, h, y) in rw (← same) (text_eq_sound u.name name y)
  | inr n ↦ get-name ts name t (ground (arith, h, n))
]

module _ (redact : Text → Text) (ctx : ToolContext) (engine : PermissionEngine)
    (approver : Approver) (gates : List ToolGate) (tools : List Tool) (call : ToolCall) where
  -- Why a tool may run: it has the name of the call, its effects are in order, and the gates passed.
  pub record Authorized (tool : Tool) (before : List Done) : Type 0 where
    pub effects : List Effect
    pub found : get tools call.name ≡ some tool
    pub named : tool.name ≡ call.name
    pub resolved : tool.effects call.input ≡ ok effects
    pub granted : All (Granted redact ctx engine approver tool call before) effects
    pub passed : All (HasPassed redact ctx engine approver before) gates

  -- The result says what the tool answered, its output redacted and bounded.
  abbrev pub Answered : Tool → List Done → Tried ToolOutput → ToolResult → Type 0
  Answered tool log (err e) r =
      (r.is_error ≡ true) × (r.output ≡ format_tool_output tool.name (display e) true)
  Answered tool log (ok out) r =
      let shown = (bound_output tool.name call.id (redact out.text) ctx log).1 in
      (r.is_error ≡ out.is_error) × (r.output ≡ format_tool_output tool.name shown out.is_error)

  -- How a dispatch ends: with an error and no tool called; or with one tool called, once, on the
  -- input of the call, after all that authorizes it, and its answer as the result.
  pub data Ends (log : List Done) (r : List Done × ToolResult) : Type 0 where
    refused :
        (added : List Done)
        → r.0 ≡ added ++ log
        → invocations added ≡ 0
        → r.1.is_error ≡ true
        → Ends log r
    ran :
        (tool : Tool) (before after : List Done)
        → r.0 ≡ after ++ invoked tool.name call.input ∷ (before ++ log)
        → invocations before ≡ 0
        → invocations after ≡ 0
        → Authorized tool before
        → Answered tool
            (invoked tool.name call.input ∷ (before ++ log))
            (tool.invoke (before ++ log) call.input)
            r.1
        → Ends log r

  -- It answers the call, and ends in one of the two ways.
  abbrev pub IsLawful : List Done → List Done × ToolResult → Type 0
  IsLawful log r = (r.1.id ≡ call.id) × Ends log r

  -- What the tool's own run adds, behind the entry of its call, and its result.
  record Runs (tool : Tool) (log : List Done) (t : Tried ToolOutput) (r : List Done × ToolResult)
      : Type 0 where
    after : List Done
    extends : r.0 ≡ after ++ invoked tool.name call.input ∷ log
    no_more : invocations after ≡ 0
    answers : r.1.id ≡ call.id
    answered : Answered tool (invoked tool.name call.input ∷ log) t r.1

  output_of-Runs :
      (tool : Tool) (log : List Done) (t : Tried ToolOutput)
      → Runs tool log t
          (output_of redact ctx engine approver tool call (invoked tool.name call.input ∷ log) t)
  output_of-Runs tool log (err e) = record {
    after = [];
    extends = refl;
    no_more = refl;
    answers = refl;
    answered = (refl, refl);
  }
  output_of-Runs tool log (ok output) =
      let ran_it = invoked tool.name call.input in
      let kept = bound_output-Retains tool.name call.id (redact output.text) ctx (ran_it ∷ log) in
      record {
        after = kept.added;
        extends = kept.extends;
        no_more = kept.no_call;
        answers = refl;
        answered = (refl, refl);
      }

  invoke_tool-Runs :
      (tool : Tool) (log : List Done)
      → Runs tool log
          (tool.invoke log call.input)
          (invoke_tool redact ctx engine approver tool call log)
  unfolding invoke_tool
  invoke_tool-Runs tool log = output_of-Runs tool log (tool.invoke log call.input)

  Granted-behind :
      (tool : Tool) (a b : List Done) (es : List Effect)
      → All (Granted redact ctx engine approver tool call b) es
      → All (Granted redact ctx engine approver tool call (a ++ b)) es
  Granted-behind tool a b [] h = tt
  Granted-behind tool a b (e ∷ es) (inl p, h) = (inl p, Granted-behind tool a b es h)
  Granted-behind tool a b (e ∷ es) (inr (d, i), h) =
      (inr (d, In-append_right _ a b i), Granted-behind tool a b es h)

  module _ (tool : Tool) (effects : List Effect) (found : get tools call.name ≡ some tool)
      (resolved : tool.effects call.input ≡ ok effects) where
    with_gates :
        (log : List Done) (r : List Done × Option Text) (asks : List Done)
        → invocations asks ≡ 0
        → All (Granted redact ctx engine approver tool call asks) effects
        → Checks redact ctx engine approver gates (asks ++ log) r
        → IsLawful log (unless_blocked redact ctx engine approver tool call r)
    with_gates log (later, some message) asks n g c = (
      refl,
      refused (c.added ++ asks) (c.extends ∙ sym (append_assoc c.added asks log))
          (invocations-append c.added asks ∙ (omega (arith, c.no_call, n))) refl,
    )
    with_gates log (later, none) asks n g c =
        let before = c.added ++ asks in
        let same : later ≡ before ++ log = c.extends ∙ sym (append_assoc c.added asks log) in
        let run = invoke_tool-Runs tool (before ++ log) in
        rw same (
          run.answers,
          ran tool before run.after run.extends
              (invocations-append c.added asks ∙ (omega (arith, c.no_call, n))) run.no_more
              (record {
                effects = effects;
                found = found;
                named = get-name tools call.name tool found;
                resolved = resolved;
                granted = Granted-behind tool c.added asks effects g;
                passed =
                    HasPassed-append redact ctx engine approver c.added asks gates
                      (c.all_passed refl);
              })
              run.answered,
        )

    if_allowed-IsLawful :
        (log : List Done) (r : List Done × Bool)
        → Authorizes redact ctx engine approver tool call effects log r
        → IsLawful log (if_allowed redact ctx engine approver gates tool call effects r)
    if_allowed-IsLawful log (later, false) a = (refl, refused a.added a.extends a.no_call refl)
    if_allowed-IsLawful log (later, true) a = with_gates log _ a.added a.no_call (a.granted refl) (
        rw a.extends
          (check_gates-Checks redact ctx engine approver call effects gates (a.added ++ log)))

  with_effects-IsLawful :
      (log : List Done) (tool : Tool) (t : Tried (List Effect))
      → get tools call.name ≡ some tool
      → tool.effects call.input ≡ t
      → IsLawful log (with_effects redact ctx engine approver gates tool call log t)
  with_effects-IsLawful log tool (err e) found resolved = (refl, refused [] refl refl refl)
  with_effects-IsLawful log tool (ok effects) found resolved =
      if_allowed-IsLawful tool effects found resolved log _
        (authorize-Authorizes redact ctx engine approver tool call effects log)

  with_tool-IsLawful :
      (log : List Done) (o : Option Tool)
      → get tools call.name ≡ o
      → IsLawful log (with_tool redact ctx engine approver gates call log o)
  with_tool-IsLawful log none found = (refl, refused [] refl refl refl)
  with_tool-IsLawful log (some tool) found = with_effects-IsLawful log tool _ found refl

pub dispatch_gated-IsLawful :
    (redact : Text → Text) (ctx : ToolContext) (engine : PermissionEngine) (approver : Approver)
    (gates : List ToolGate) (tools : List Tool) (call : ToolCall) (log : List Done)
    → IsLawful redact ctx engine approver gates tools call log
        (dispatch_gated redact ctx engine approver gates tools call log)
unfolding dispatch_gated
dispatch_gated-IsLawful redact ctx engine approver gates tools call log =
    with_tool-IsLawful redact ctx engine approver gates tools call log (get tools call.name) refl
