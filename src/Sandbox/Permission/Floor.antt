-- ===== src/Sandbox/Permission/Floor.antt =====
-- The risk floor of the permission engine.
use unshackled.Prelude.{◌≡◌, ◌≢◌, refl, ◌⊎◌, inl, inr, Bool, true, false, arith}
use unshackled.Sandbox.Command.Class.{
  read_only, project_write, external_write, network, destructive, privileged, unknown,
}
use unshackled.Sandbox.Permission.{
  bypass, Interactivity, interactive, non_interactive, Effect, read_path, write_path, run_command,
  network_access, PermissionRequest, PermissionEngine, ask_or_deny, decide, decide_in,
  effect_decision, base_decision, untrusted_floor, allowlist_may_relax,
}

-- What a trusted session does without a prompt under every profile.
pub data Routine : Effect → Type 0 where
  reads : Routine (read_path true false)
  writes : {overwrite : Bool} → Routine (write_path true overwrite)
  inspects : Routine (run_command read_only)

-- What an allowlist may approve: nothing that lies outside the workspace, reads a secret, or runs
-- a command of a gated class.
pub data BelowFloor : Effect → Type 0 where
  routine : {e : Effect} → Routine e → BelowFloor e
  builds : BelowFloor (run_command project_write)
  connects : BelowFloor (run_command network)
  fetches : BelowFloor network_access

-- What the profiles but `bypass` never allow.
pub data Gated : Effect → Type 0 where
  secret_read : Gated (read_path true true)
  outside_read : {secret : Bool} → Gated (read_path false secret)
  outside_write : {overwrite : Bool} → Gated (write_path false overwrite)
  external : Gated (run_command external_write)
  destroys : Gated (run_command destructive)
  escalates : Gated (run_command privileged)
  opaque : Gated (run_command unknown)

-- Every effect is below the floor or gated.
pub floor_cases : (e : Effect) → BelowFloor e ⊎ Gated e
floor_cases (read_path true false) = inl (routine reads)
floor_cases (read_path true true) = inr secret_read
floor_cases (read_path false secret) = inr outside_read
floor_cases (write_path true overwrite) = inl (routine writes)
floor_cases (write_path false overwrite) = inr outside_write
floor_cases (run_command read_only) = inl (routine inspects)
floor_cases (run_command project_write) = inl builds
floor_cases (run_command external_write) = inr external
floor_cases (run_command network) = inl connects
floor_cases (run_command destructive) = inr destroys
floor_cases (run_command privileged) = inr escalates
floor_cases (run_command unknown) = inr opaque
floor_cases network_access = inl fetches

pub Gated-decision :
    {e : Effect} (i : Interactivity) (trusted : Bool)
    → Gated e
    → (allowlist_may_relax e ≡ false) × (effect_decision e i trusted ≡ ask_or_deny i)
unfolding allowlist_may_relax effect_decision
Gated-decision i trusted secret_read = (refl, refl)
Gated-decision i trusted (outside_read {secret = true}) = (refl, refl)
Gated-decision i trusted (outside_read {secret = false}) = (refl, refl)
Gated-decision i trusted outside_write = (refl, refl)
Gated-decision i trusted external = (refl, refl)
Gated-decision i trusted destroys = (refl, refl)
Gated-decision i trusted escalates = (refl, refl)
Gated-decision i trusted opaque = (refl, refl)

pub untrusted_floor-ask_or_deny :
    (i : Interactivity) (trusted : Bool) → untrusted_floor (ask_or_deny i) trusted ≡ ask_or_deny i
unfolding untrusted_floor ask_or_deny
untrusted_floor-ask_or_deny interactive true = refl
untrusted_floor-ask_or_deny interactive false = refl
untrusted_floor-ask_or_deny non_interactive true = refl
untrusted_floor-ask_or_deny non_interactive false = refl

-- Under every profile but `bypass`, a gated effect is put to the user, or denied where there is
-- none, whatever the allowlist holds and whether or not the workspace is trusted.
pub Gated-decide :
    (e : PermissionEngine) (r : PermissionRequest)
    → e.profile ≢ bypass
    → Gated r.effect
    → decide e r ≡ ask_or_deny r.interactivity
unfolding decide decide_in base_decision
Gated-decide e r n g = ground (
  arith,
  Gated-decision r.interactivity r.trusted g,
  untrusted_floor-ask_or_deny r.interactivity r.trusted,
)
