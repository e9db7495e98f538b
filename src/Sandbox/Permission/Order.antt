-- ===== src/Sandbox/Permission/Order.antt =====
-- Decisions by how lenient they are, and decisions without a user.
use unshackled.Prelude.{
  ℕ, ◌≤◌, ◌≡◌, ◌≢◌, ap, inl, inr, Bool, true, false, ◌&&◌, List, arith, Bool-cases,
}
use unshackled.Text.{Text, one_of}
use unshackled.Sandbox.Permission.{
  Decision, allow, ask, deny, Profile, default_profile, relaxed, bypass, Interactivity,
  non_interactive, Effect, read_path, write_path, run_command, network_access, PermissionRequest,
  PermissionEngine, ask_or_deny, decide, decide_in, effect_decision, base_decision, untrusted_floor,
  allowlist_may_relax,
}

abbrev pub leniency : Decision → ℕ
leniency deny = 0
leniency ask = 1
leniency allow = 2

leniency-le-two : (d : Decision) → leniency d ≤ 2
leniency-le-two d = ground arith

floor_trust :
    (c d : Decision)
    → leniency c ≤ leniency d
    → leniency (untrusted_floor c false) ≤ leniency (untrusted_floor d true)
unfolding untrusted_floor
floor_trust c d h = ground arith

floor_mono :
    (c d : Decision) (t : Bool)
    → leniency c ≤ leniency d
    → leniency (untrusted_floor c t) ≤ leniency (untrusted_floor d t)
unfolding untrusted_floor
floor_mono c d t h = ground arith

effect_decision_mono :
    (e : Effect) (i : Interactivity)
    → leniency (effect_decision e i false) ≤ leniency (effect_decision e i true)
unfolding effect_decision ask_or_deny
effect_decision_mono (write_path true o) i = ground arith
effect_decision_mono (write_path false o) i = ground arith
effect_decision_mono (read_path true true) i = ground arith
effect_decision_mono (read_path true false) i = ground arith
effect_decision_mono (read_path false s) i = ground arith
effect_decision_mono (run_command c) i = ground arith
effect_decision_mono network_access i = ground arith

decide_in_trust :
    (p : Profile) (l : List Text) (r : PermissionRequest)
    → leniency (decide_in p l (record r { trusted = false }))
      ≤ leniency (decide_in p l (record r { trusted = true }))
unfolding decide_in base_decision
decide_in_trust bypass l r = ground arith
decide_in_trust default_profile l r =
    floor_trust _ _ (effect_decision_mono r.effect r.interactivity)
decide_in_trust relaxed l r = elim (Bool-cases (allowlist_may_relax r.effect && one_of r.tool l)) [
  | inl y ↦ rw y (floor_trust allow allow (omega arith))
  | inr n ↦ rw n (floor_trust _ _ (effect_decision_mono r.effect r.interactivity))
]

decide_in_list :
    (l k : List Text) (r : PermissionRequest)
    → leniency (decide_in default_profile l r) ≤ leniency (decide_in relaxed k r)
unfolding decide_in
decide_in_list l k r = elim (Bool-cases (allowlist_may_relax r.effect && one_of r.tool k)) [
  | inl y ↦ rw y (floor_mono (base_decision r) allow r.trusted (leniency-le-two (base_decision r)))
  | inr n ↦ rw n (floor_mono (base_decision r) (base_decision r) r.trusted (omega arith))
]

-- Trusting a workspace never makes a decision stricter, under any profile; and `relaxed`, with
-- whatever allowlist, is never stricter than `default`.
pub decide_mono :
    (e : PermissionEngine) (r : PermissionRequest)
    → (leniency (decide e (record r { trusted = false }))
        ≤ leniency (decide e (record r { trusted = true })))
      × (leniency (decide (record e { profile = default_profile }) r)
          ≤ leniency (decide (record e { profile = relaxed }) r))
unfolding decide
decide_mono e r =
    (decide_in_trust e.profile e.allowlist r, decide_in_list e.allowlist e.allowlist r)

effect_decision-ne-ask :
    (e : Effect) (t : Bool) → leniency (effect_decision e non_interactive t) ≢ 1
unfolding effect_decision ask_or_deny
effect_decision-ne-ask (write_path true o) t h = ground arith
effect_decision-ne-ask (write_path false o) t h = ground arith
effect_decision-ne-ask (read_path true true) t h = ground arith
effect_decision-ne-ask (read_path true false) t h = ground arith
effect_decision-ne-ask (read_path false s) t h = ground arith
effect_decision-ne-ask (run_command c) t h = ground arith
effect_decision-ne-ask network_access t h = ground arith

decide_in-ne-ask :
    (p : Profile) (l : List Text) (r : PermissionRequest)
    → r.interactivity ≡ non_interactive
    → r.trusted ≡ true
    → leniency (decide_in p l r) ≢ 1
unfolding decide_in base_decision untrusted_floor
decide_in-ne-ask bypass l r i t h = ground arith
decide_in-ne-ask default_profile l r i t h =
    ground (arith, i, t, effect_decision-ne-ask r.effect true)
decide_in-ne-ask relaxed l r i t h = ground (arith, i, t, effect_decision-ne-ask r.effect true)

-- A trusted session with no user is never left with a question.
pub non_interactive-ne-ask :
    (e : PermissionEngine) (r : PermissionRequest)
    → r.interactivity ≡ non_interactive
    → r.trusted ≡ true
    → decide e r ≢ ask
unfolding decide
non_interactive-ne-ask e r i t h = decide_in-ne-ask e.profile e.allowlist r i t (ap leniency h)
