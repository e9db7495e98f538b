-- ===== src/Sandbox/Permission.antt =====
-- crates/localpilot-sandbox/src/permission.rs: the permission engine and the scripted approver.
use unshackled.Prelude.{
  Bool, true, false, not, ◌&&◌, ◌||◌, Option, none, some, List, [], ◌∷◌, if◌then◌else◌,
}
use unshackled.Text.{Text, one_of}
use unshackled.Sandbox.Command.Class.{
  CommandClass, read_only, project_write, external_write, network, destructive, privileged, unknown,
}
pub mod Floor
pub mod Decide
pub mod Order

pub data Decision : Type 0 where
  allow ask deny : Decision

pub data Profile : Type 0 where
  default_profile relaxed bypass : Profile

pub data Interactivity : Type 0 where
  interactive non_interactive : Interactivity

-- The Booleans of `read_path` are `inside_workspace` and `secret_like`, those of `write_path`
-- `inside_workspace` and `overwrite`.
pub data Effect : Type 0 where
  read_path : Bool → Bool → Effect
  write_path : Bool → Bool → Effect
  run_command : CommandClass → Effect
  network_access : Effect

unfoldable pub is_outside_workspace : Effect → Bool
is_outside_workspace (read_path inside secret) = not inside
is_outside_workspace (write_path inside overwrite) = not inside
is_outside_workspace (run_command class) = false
is_outside_workspace network_access = false

pub record PermissionRequest : Type 0 where
  pub tool : Text
  pub effect : Effect
  pub interactivity : Interactivity
  pub trusted : Bool
  pub detail : Text

pub record PermissionEngine : Type 0 where
  pub profile : Profile
  pub allowlist : List Text

unfoldable pub may_relax_command : CommandClass → Bool
may_relax_command read_only = true
may_relax_command project_write = true
may_relax_command network = true
may_relax_command _ = false

unfoldable pub allowlist_may_relax : Effect → Bool
unfolding may_relax_command
allowlist_may_relax (run_command class) = may_relax_command class
allowlist_may_relax (read_path inside secret) = inside && not secret
allowlist_may_relax (write_path inside overwrite) = inside
allowlist_may_relax network_access = true

unfoldable pub ask_or_deny : Interactivity → Decision
ask_or_deny interactive = ask
ask_or_deny non_interactive = deny

unfoldable pub command_decision : CommandClass → Interactivity → Decision
unfolding ask_or_deny
command_decision read_only i = allow
command_decision _ i = ask_or_deny i

unfoldable pub effect_decision : Effect → Interactivity → Bool → Decision
unfolding ask_or_deny command_decision
effect_decision (read_path true false) i trusted = allow
effect_decision (read_path _ _) i trusted = ask_or_deny i
effect_decision network_access i trusted = ask_or_deny i
effect_decision (write_path true overwrite) i trusted = if trusted then allow else ask_or_deny i
effect_decision (write_path false overwrite) i trusted = ask_or_deny i
effect_decision (run_command class) i trusted = command_decision class i

unfoldable pub base_decision : PermissionRequest → Decision
unfolding effect_decision
base_decision r = effect_decision r.effect r.interactivity r.trusted

unfoldable pub untrusted_floor : Decision → Bool → Decision
untrusted_floor d true = d
untrusted_floor allow false = ask
untrusted_floor ask false = ask
untrusted_floor deny false = deny

unfoldable pub decide_in : Profile → List Text → PermissionRequest → Decision
unfolding is_outside_workspace allowlist_may_relax base_decision untrusted_floor
decide_in bypass allowlist r = if is_outside_workspace r.effect then deny else allow
decide_in relaxed allowlist r =
    untrusted_floor
      (if allowlist_may_relax r.effect && one_of r.tool allowlist then allow else base_decision r)
      r.trusted
decide_in default_profile allowlist r = untrusted_floor (base_decision r) r.trusted

unfoldable pub decide : PermissionEngine → PermissionRequest → Decision
unfolding decide_in
decide e r = decide_in e.profile e.allowlist r

pub record ScriptedApprover : Type 0 where
  pub responses : List Bool
  pub exhausted_response : Bool

unfoldable pub scripted : List Bool → ScriptedApprover
scripted responses = record { responses = responses; exhausted_response = false }

abbrev pub always : ScriptedApprover
always = record { responses = []; exhausted_response = true }

abbrev next_response : Bool → List Bool → Bool × List Bool
next_response exhausted [] = (exhausted, [])
next_response exhausted (b ∷ bs) = (b, bs)

-- `pop_front`, with the answer for a queue that is used up.
unfoldable pub approve : ScriptedApprover → PermissionRequest → Bool × ScriptedApprover
approve a r =
    let (answer, rest) = next_response a.exhausted_response a.responses in
    (answer, record a { responses = rest })
