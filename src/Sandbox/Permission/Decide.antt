-- ===== src/Sandbox/Permission/Decide.antt =====
-- The requests that the permission engine allows without a prompt.
use unshackled.Prelude.{
  ◌≡◌, ◌≢◌, refl, sym, ap, ◌∙◌, ◌↔◌, inl, inr, Bool, true, false, ◌&&◌, arith, if◌then◌else◌,
  Bool-cases,
}
use unshackled.Text.{one_of}
use unshackled.Sandbox.Command.Class.{read_only}
use unshackled.Sandbox.Permission.{
  Decision, allow, Profile, default_profile, relaxed, bypass, Interactivity, interactive, Effect,
  read_path, write_path, run_command, network_access, PermissionRequest, PermissionEngine,
  is_outside_workspace, ask_or_deny, decide, decide_in, effect_decision, base_decision,
  untrusted_floor, allowlist_may_relax,
}
use unshackled.Sandbox.Permission.Floor.{
  Routine, reads, writes, inspects, BelowFloor, routine, builds, connects, fetches, floor_cases,
  Gated-decision,
}

-- The cases in which an effect runs with no prompt.
pub data Approved (e : PermissionEngine) (r : PermissionRequest) : Type 0 where
  bypassed : e.profile ≡ bypass → is_outside_workspace r.effect ≡ false → Approved e r
  usual : e.profile ≢ bypass → r.trusted ≡ true → Routine r.effect → Approved e r
  listed :
      e.profile ≡ relaxed
      → r.trusted ≡ true
      → BelowFloor r.effect
      → one_of r.tool e.allowlist ≡ true
      → Approved e r

Routine-decision : {e : Effect} (i : Interactivity) → Routine e → effect_decision e i true ≡ allow
unfolding effect_decision
Routine-decision i reads = refl
Routine-decision i writes = refl
Routine-decision i inspects = refl

BelowFloor-relaxes : {e : Effect} → BelowFloor e → allowlist_may_relax e ≡ true
unfolding allowlist_may_relax
BelowFloor-relaxes (routine reads) = refl
BelowFloor-relaxes (routine writes) = refl
BelowFloor-relaxes (routine inspects) = refl
BelowFloor-relaxes builds = refl
BelowFloor-relaxes connects = refl
BelowFloor-relaxes fetches = refl

Approved-decide : (e : PermissionEngine) (r : PermissionRequest) → Approved e r → decide e r ≡ allow
unfolding decide decide_in base_decision untrusted_floor
Approved-decide e r (bypassed p o) = ground (arith, p, o)
Approved-decide e r (usual p t q) = ground (arith, t, Routine-decision r.interactivity q)
Approved-decide e r (listed p t q l) = ground (arith, p, t, BelowFloor-relaxes q, l)

Routine-of_decision :
    (e : Effect) (i : Interactivity) → effect_decision e i true ≡ allow → Routine e
unfolding effect_decision ask_or_deny
Routine-of_decision (read_path true false) i h = reads
Routine-of_decision (write_path true o) i h = writes
Routine-of_decision (run_command read_only) i h = inspects
Routine-of_decision (read_path true true) i h = absurd (ground arith)
Routine-of_decision (read_path false s) i h = absurd (ground arith)
Routine-of_decision (write_path false o) i h = absurd (ground arith)
Routine-of_decision network_access i h = absurd (ground arith)
Routine-of_decision (run_command _) i h = absurd (ground arith)

below_of_relaxes : (e : Effect) → allowlist_may_relax e ≡ true → BelowFloor e
below_of_relaxes e h = elim (floor_cases e) [
  | inl b ↦ b
  | inr g ↦ absurd (ground (arith, Gated-decision interactive true g))
]

floored_allow : (d : Decision) (t : Bool) → untrusted_floor d t ≡ allow → (d ≡ allow) × (t ≡ true)
unfolding untrusted_floor
floored_allow d t h = ground arith

decide_bypass :
    (e : PermissionEngine) (r : PermissionRequest)
    → e.profile ≡ bypass
    → decide e r ≡ allow
    → is_outside_workspace r.effect ≡ false
unfolding decide decide_in
decide_bypass e r q h = ground arith

decide_default :
    (e : PermissionEngine) (r : PermissionRequest)
    → e.profile ≡ default_profile
    → decide e r ≡ untrusted_floor (base_decision r) r.trusted
unfolding decide decide_in
decide_default e r q = ground arith

decide_relaxed :
    (e : PermissionEngine) (r : PermissionRequest)
    → e.profile ≡ relaxed
    → decide e r
      ≡ untrusted_floor
          (if allowlist_may_relax r.effect && one_of r.tool e.allowlist
            then allow
            else base_decision r)
          r.trusted
unfolding decide decide_in
decide_relaxed e r q = ground arith

base_decision-Routine :
    (r : PermissionRequest) → base_decision r ≡ allow → r.trusted ≡ true → Routine r.effect
unfolding base_decision
base_decision-Routine r h t = Routine-of_decision r.effect r.interactivity (ground (arith, h, t))

floored_base :
    (e : PermissionEngine) (r : PermissionRequest)
    → e.profile ≢ bypass
    → untrusted_floor (base_decision r) r.trusted ≡ allow
    → Approved e r
floored_base e r n h =
    let (b, t) = floored_allow (base_decision r) r.trusted h in
    usual n t (base_decision-Routine r b t)

and_true : (a b : Bool) → (a && b) ≡ true → (a ≡ true) × (b ≡ true)
and_true a b h = ground arith

relaxed-Approved :
    (e : PermissionEngine) (r : PermissionRequest)
    → e.profile ≡ relaxed
    → decide e r ≡ allow
    → Approved e r
relaxed-Approved e r q h =
    elim (Bool-cases (allowlist_may_relax r.effect && one_of r.tool e.allowlist)) [
      | inl y ↦
          let (below, member) =
            and_true (allowlist_may_relax r.effect) (one_of r.tool e.allowlist) y in
          listed q (floored_allow _ r.trusted (sym (decide_relaxed e r q) ∙ h)).1
            (below_of_relaxes r.effect below) member
      | inr n ↦
          floored_base e r (λ b. cc)
            (ap (λ t. untrusted_floor (if t then allow else base_decision r) r.trusted) (sym n)
              ∙ sym (decide_relaxed e r q)
              ∙ h)
    ]

decide-Approved : (e : PermissionEngine) (r : PermissionRequest) → decide e r ≡ allow → Approved e r
decide-Approved e r h = by_profile e.profile refl
  where
    by_profile : (p : Profile) → e.profile ≡ p → Approved e r
    by_profile bypass q = bypassed q (decide_bypass e r q h)
    by_profile default_profile q = floored_base e r (λ b. cc) (sym (decide_default e r q) ∙ h)
    by_profile relaxed q = relaxed-Approved e r q h

-- An effect runs with no prompt exactly in these cases: under `bypass`, unless it is a path outside
-- the workspace; in a trusted workspace, if it is routine; and in a trusted workspace under
-- `relaxed`, if it is below the risk floor and its tool is on the allowlist.
pub decide-allow_iff :
    (e : PermissionEngine) (r : PermissionRequest) → (decide e r ≡ allow) ↔ Approved e r
decide-allow_iff e r = (decide-Approved e r, Approved-decide e r)
