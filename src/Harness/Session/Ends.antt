-- ===== src/Harness/Session/Ends.antt =====
-- How a turn may end, and what the assistant's message holds.
use unshackled.Prelude.{
  ◌≡◌, refl, ap, ◌∙◌, Bool, true, false, List, [], ◌∷◌, ◌++◌, map, if◌then◌else◌, Bool-cases, inl,
  inr,
}
use unshackled.Text.{Text}
use unshackled.Core.Messages.{user, ContentBlock, tool_use, ToolCall, text_message, no_metadata}
use unshackled.Recovery.Detect.{BadOutputKind}
use unshackled.Recovery.Engine.{RecoveryDiagnostic, RecoveryEngine}
use unshackled.Harness.Compaction.Pairs.{call_ids, result_ids}
use unshackled.Harness.Resume.Driver.{StopReason, done, cancelled, degraded, provider_error}
use unshackled.Harness.Session.{Session, recorded, sent, notified}
use unshackled.Harness.Session.History.{append, is_retrieval}
use unshackled.Harness.Session.Calls.{
  is_blank, reasoning_block, text_block, trim_blank_boundary_lines, assemble,
}
use unshackled.Harness.Session.Turn.{Round, again, ended, stop, admit, note_bad}
use unshackled.Harness.Session.Sound.{Sound, Sounds-logged, append-user}
use unshackled.Harness.Session.Batch.{id_of}

-- What a turn leaves, by how it stopped: no call without its result, unless the user cancelled; then
-- the results of some calls of the last turn may be missing.
abbrev pub Kept : StopReason → Session → Type 0
Kept cancelled s = (pending : List Text) × Sound pending s
Kept _ s = Sound [] s

abbrev pub IsKept : Round → Type 0
IsKept (again l) = Sound [] l.session
IsKept (ended reason s) = Kept reason s

pub stop-IsKept : (reason : StopReason) (s : Session) → Sound [] s → IsKept (stop reason s)
unfolding stop
stop-IsKept done s h =
    Sounds-logged (sent _) tt (Sounds-logged (notified _) tt (Sounds-logged (recorded _) tt h))
stop-IsKept degraded s h =
    Sounds-logged (sent _) tt (Sounds-logged (notified _) tt (Sounds-logged (recorded _) tt h))
stop-IsKept provider_error s h =
    Sounds-logged (sent _) tt (Sounds-logged (notified _) tt (Sounds-logged (recorded _) tt h))
stop-IsKept cancelled s h = (
  [],
  Sounds-logged (sent _) tt (
      Sounds-logged (notified _) tt
        (Sounds-logged (recorded _) tt (Sounds-logged (recorded _) tt h))),
)

pub stop_interrupted :
    (pending : List Text) (s : Session) → Sound pending s → IsKept (stop cancelled s)
unfolding stop
stop_interrupted pending s h = (
  pending,
  Sounds-logged (sent _) tt (
      Sounds-logged (notified _) tt
        (Sounds-logged (recorded _) tt (Sounds-logged (recorded _) tt h))),
)

pub either-IsKept : (b : Bool) (x y : Round) → IsKept x → IsKept y → IsKept (if b then x else y)
either-IsKept true x y hx hy = hx
either-IsKept false x y hx hy = hy

pub admit-Sound : (texts : List Text) (s : Session) → Sound [] s → Sound [] (admit texts s)
unfolding admit
admit-Sound [] s h = h
admit-Sound (t ∷ texts) s h =
    admit-Sound texts (append (text_message user t) s)
      (append-user no_metadata t s (unfold is_retrieval in refl) h)

pub note_bad-Sound :
    (kind : BadOutputKind) (d : RecoveryDiagnostic) (e : RecoveryEngine) (s : Session)
    → Sound [] s
    → Sound [] (note_bad kind d e s)
unfolding note_bad
note_bad-Sound kind d e s h =
    Sounds-logged _ tt (Sounds-logged _ tt (Sounds-logged _ tt (Sounds-logged _ tt h)))

-- The ids of the assistant's message are those of the calls.
calls_ids :
    (calls : List ToolCall)
    → (call_ids (map tool_use calls) ≡ map id_of calls) × (result_ids (map tool_use calls) ≡ [])
calls_ids [] = (refl, refl)
calls_ids (call ∷ calls) = let (c, r) = calls_ids calls in (ap (◌∷◌ call.id) c, r)

text_block-ids :
    (t : Text) (bs : List ContentBlock)
    → (call_ids (text_block t ++ bs) ≡ call_ids bs)
      × (result_ids (text_block t ++ bs) ≡ result_ids bs)
text_block-ids t bs = elim (Bool-cases (is_blank t)) [
  | inl y ↦ rw y (refl, refl)
  | inr n ↦ rw n (refl, refl)
]

reasoning_block-ids :
    (t : Text) (bs : List ContentBlock)
    → (call_ids (reasoning_block t ++ bs) ≡ call_ids bs)
      × (result_ids (reasoning_block t ++ bs) ≡ result_ids bs)
reasoning_block-ids t bs = elim (Bool-cases (is_blank t)) [
  | inl y ↦ rw y (refl, refl)
  | inr n ↦ rw n (refl, refl)
]

pub assemble-ids :
    (thought t : Text) (calls : List ToolCall)
    → (call_ids (assemble thought t calls) ≡ map id_of calls)
      × (result_ids (assemble thought t calls) ≡ [])
unfolding assemble
assemble-ids thought t calls =
    let (c1, r1) = calls_ids calls in
    let (c2, r2) = text_block-ids (trim_blank_boundary_lines t) (map tool_use calls) in
    let (c3, r3) =
      reasoning_block-ids (trim_blank_boundary_lines thought)
        (text_block (trim_blank_boundary_lines t) ++ map tool_use calls) in
    (c3 ∙ c2 ∙ c1, r3 ∙ r2 ∙ r1)
