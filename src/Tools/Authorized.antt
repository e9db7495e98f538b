-- ===== src/Tools/Authorized.antt =====
-- What stands in the log of a dispatch: the answers of the user and the verdicts of the gates.
use unshackled.Prelude.{
  ℕ, suc, ◌+◌, ◌≡◌, refl, sym, ◌∙◌, ◌⊎◌, inl, inr, Bool, true, false, Option, none, List, [], ◌∷◌,
  ◌++◌, append_assoc, All, In, arith,
}
use unshackled.Text.{Text}
use unshackled.Core.Messages.{ToolCall}
use unshackled.Sandbox.Permission.{
  Effect, PermissionRequest, Decision, allow, ask, deny, PermissionEngine, decide,
}
use unshackled.Sandbox.Permission.Decide.{Approved, decide-allow_iff}
use unshackled.Tools.{
  GateVerdict, pass, block, Done, asked, gate_checked, invoked, retained, Tool, ToolGate,
  ToolContext, Approver,
}
use unshackled.Tools.Registry.{request_for, prompt, continue_if, authorize, passed_or, check_gates}

-- The number of calls of tools.
abbrev pub invocations : List Done → ℕ
invocations [] = 0
invocations (invoked name input ∷ log) = suc (invocations log)
invocations (d ∷ log) = invocations log

pub invocations-append : (a b : List Done) → invocations (a ++ b) ≡ invocations a + invocations b
invocations-append [] b = omega arith
invocations-append (invoked n i ∷ a) b = omega (arith, invocations-append a b)
invocations-append (asked r x ∷ a) b = invocations-append a b
invocations-append (gate_checked n v ∷ a) b = invocations-append a b
invocations-append (retained k t ∷ a) b = invocations-append a b

pub In-append_left : {A : Type 0} (x : A) (xs ys : List A) → In x xs → In x (xs ++ ys)
In-append_left x [] ys h = absurd h
In-append_left x (y ∷ xs) ys (inl e) = inl e
In-append_left x (y ∷ xs) ys (inr h) = inr (In-append_left x xs ys h)

pub In-append_right : {A : Type 0} (x : A) (xs ys : List A) → In x ys → In x (xs ++ ys)
In-append_right x [] ys h = h
In-append_right x (y ∷ xs) ys h = inr (In-append_right x xs ys h)

pub In-last : {A : Type 0} (x : A) (xs : List A) → In x (xs ++ x ∷ [])
In-last x [] = inl refl
In-last x (y ∷ xs) = inr (In-last x xs)

module _ (redact : Text → Text) (ctx : ToolContext) (engine : PermissionEngine)
    (approver : Approver) where
  -- An effect is in order: the engine approves of it, or it asks and the user approves.
  abbrev pub Granted : Tool → ToolCall → List Done → Effect → Type 0
  Granted tool call log e =
      let request = request_for redact ctx engine approver tool call e in
      Approved engine request ⊎ ((decide engine request ≡ ask) × In (asked request true) log)

  Granted-append :
      (tool : Tool) (call : ToolCall) (a b : List Done) (es : List Effect)
      → All (Granted tool call a) es
      → All (Granted tool call (a ++ b)) es
  Granted-append tool call a b [] h = tt
  Granted-append tool call a b (e ∷ es) (inl p, h) = (inl p, Granted-append tool call a b es h)
  Granted-append tool call a b (e ∷ es) (inr (d, i), h) =
      (inr (d, In-append_left _ a b i), Granted-append tool call a b es h)

  -- What the loop over the effects adds to the log, with no call of a tool in it.
  pub record Authorizes (tool : Tool) (call : ToolCall) (es : List Effect) (log : List Done)
      (r : List Done × Bool) : Type 0 where
    pub added : List Done
    pub extends : r.0 ≡ added ++ log
    pub no_call : invocations added ≡ 0
    pub granted : r.1 ≡ true → All (Granted tool call added) es

  by_decision :
      (tool : Tool) (call : ToolCall) (e : Effect) (es : List Effect) (log : List Done)
      (d : Decision)
      → decide engine (request_for redact ctx engine approver tool call e) ≡ d
      → ((later : List Done)
          → Authorizes tool call es later (authorize redact ctx engine approver tool call es later))
      → Authorizes tool call (e ∷ es) log (
          continue_if redact ctx engine approver
            (authorize redact ctx engine approver tool call es)
            (prompt redact ctx engine approver
              (request_for redact ctx engine approver tool call e)
              d
              log))
  by_decision tool call e es log allow h next =
      let rest = next log in
      record {
        added = rest.added;
        extends = rest.extends;
        no_call = rest.no_call;
        granted = λ y. (inl ((decide-allow_iff engine _).0 h), rest.granted y);
      }
  by_decision tool call e es log deny h next = record {
    added = [];
    extends = refl;
    no_call = refl;
    granted = λ y. cc;
  }
  by_decision tool call e es log ask h next = by_answer (approver log request)
    where
      request : PermissionRequest
      request = request_for redact ctx engine approver tool call e

      by_answer :
          (b : Bool)
          → Authorizes tool call (e ∷ es) log (
              continue_if redact ctx engine approver
                (authorize redact ctx engine approver tool call es)
                (asked (request_for redact ctx engine approver tool call e) b ∷ log, b))
      by_answer false = record {
        added = asked request false ∷ [];
        extends = refl;
        no_call = refl;
        granted = λ y. cc;
      }
      by_answer true =
          let rest = next (asked request true ∷ log) in
          record {
            added = rest.added ++ asked request true ∷ [];
            extends = rest.extends ∙ sym (append_assoc rest.added (asked request true ∷ []) log);
            no_call =
                invocations-append rest.added (asked request true ∷ [])
                ∙ (omega (arith, rest.no_call));
            granted = λ y. (
              inr (h, In-last (asked request true) rest.added),
              Granted-append tool call rest.added (asked request true ∷ []) es (rest.granted y),
            );
          }

  -- If the loop over the effects allows a call, each effect is in order.
  pub authorize-Authorizes :
      (tool : Tool) (call : ToolCall) (es : List Effect) (log : List Done)
      → Authorizes tool call es log (authorize redact ctx engine approver tool call es log)
  unfolding authorize
  authorize-Authorizes tool call [] log = record {
    added = [];
    extends = refl;
    no_call = refl;
    granted = λ y. tt;
  }
  authorize-Authorizes tool call (e ∷ es) log =
      by_decision tool call e es log _ refl (authorize-Authorizes tool call es)

  abbrev pub HasPassed : List Done → ToolGate → Type 0
  HasPassed log g = In (gate_checked g.name pass) log

  pub HasPassed-append :
      (a b : List Done) (gates : List ToolGate)
      → All (HasPassed a) gates
      → All (HasPassed (a ++ b)) gates
  HasPassed-append a b [] h = tt
  HasPassed-append a b (g ∷ gates) (p, h) = (In-append_left _ a b p, HasPassed-append a b gates h)

  -- What the loop over the gates adds to the log.
  pub record Checks (gates : List ToolGate) (log : List Done) (r : List Done × Option Text)
      : Type 0 where
    pub added : List Done
    pub extends : r.0 ≡ added ++ log
    pub no_call : invocations added ≡ 0
    pub all_passed : r.1 ≡ none → All (HasPassed added) gates

  by_verdict :
      (call : ToolCall) (effects : List Effect) (g : ToolGate) (gates : List ToolGate)
      (log : List Done) (v : GateVerdict)
      → ((later : List Done)
          → Checks gates later (check_gates redact ctx engine approver call effects gates later))
      → Checks (g ∷ gates) log (
          passed_or redact ctx engine approver g.name log v
            (check_gates redact ctx engine approver call effects gates))
  by_verdict call effects g gates log (block reason) next = record {
    added = gate_checked g.name (block reason) ∷ [];
    extends = refl;
    no_call = refl;
    all_passed = λ n. cc;
  }
  by_verdict call effects g gates log pass next =
      let here = gate_checked g.name pass in
      let rest = next (here ∷ log) in
      record {
        added = rest.added ++ here ∷ [];
        extends = rest.extends ∙ sym (append_assoc rest.added (here ∷ []) log);
        no_call = invocations-append rest.added (here ∷ []) ∙ (omega (arith, rest.no_call));
        all_passed = λ n. (
          In-last here rest.added,
          HasPassed-append rest.added (here ∷ []) gates (rest.all_passed n),
        );
      }

  -- If the loop over the gates ends with no message, every gate has passed.
  pub check_gates-Checks :
      (call : ToolCall) (effects : List Effect) (gates : List ToolGate) (log : List Done)
      → Checks gates log (check_gates redact ctx engine approver call effects gates log)
  unfolding check_gates
  check_gates-Checks call effects [] log = record {
    added = [];
    extends = refl;
    no_call = refl;
    all_passed = λ n. tt;
  }
  check_gates-Checks call effects (g ∷ gates) log =
      by_verdict call effects g gates log _ (check_gates-Checks call effects gates)
