-- ===== src/Recovery/Engine/Ladder.antt =====
-- How the health of the model follows from the turns of a session.
use unshackled.Prelude.{
  ◌+◌, ◌≤◌, ◌<◌, ◌≡◌, refl, ap, ◌∙◌, Bool, true, false, not, ◌&&◌, List, [], ◌∷◌, ◌++◌, map, arith,
  leb, if◌then◌else◌, length,
}
use unshackled.Recovery.Detect.{BadOutputKind}
use unshackled.Recovery.Engine.{
  recovering, degraded, RecoveryEngine, u32_mod, is_degraded, step_completable, Turn, clean, bad,
  turn, turns,
}

turns-append : (e : RecoveryEngine) (ts us : List Turn) → turns e (ts ++ us) ≡ turns (turns e ts) us
unfolding turns
turns-append e [] us = refl
turns-append e (t ∷ ts) us = turns-append (turn e t) ts us

turn-budget : (e : RecoveryEngine) (t : Turn) → (turn e t).budget ≡ e.budget
unfolding turn
turn-budget e clean = refl
turn-budget e (bad k) = refl

turns-budget : (e : RecoveryEngine) (ts : List Turn) → (turns e ts).budget ≡ e.budget
unfolding turns
turns-budget e [] = refl
turns-budget e (t ∷ ts) = turns-budget (turn e t) ts ∙ turn-budget e t

turn-bad :
    (e : RecoveryEngine) (k : BadOutputKind)
    → e.attempts + 1 < u32_mod
    → ((turn e (bad k)).attempts ≡ e.attempts + 1)
      × ((turn e (bad k)).health
          ≡ (if leb (e.attempts + 1) e.budget.max_repair_attempts then recovering else degraded))
unfolding turn
turn-bad e k h = ground arith

turns-bad-health :
    (ks : List BadOutputKind) (e : RecoveryEngine) (k : BadOutputKind)
    → e.attempts + length (k ∷ ks) < u32_mod
    → (turns e (map bad (k ∷ ks))).health ≡ (
        if leb (e.attempts + length (k ∷ ks)) e.budget.max_repair_attempts
        then recovering
        else degraded)
unfolding turns
turns-bad-health [] e k h = ground (arith, turn-bad e k)
turns-bad-health (k' ∷ ks) e k h =
    let ih = turns-bad-health ks (turn e (bad k)) k' (ground (arith, turn-bad e k)) in
    ground (arith, turn-bad e k, turn-budget e (bad k), ih)

turns-clean : (e : RecoveryEngine) (ts : List Turn) → turns e (clean ∷ ts) ≡ turns (turn e clean) ts
unfolding turns
turns-clean e ts = refl

clean-attempts : (e : RecoveryEngine) → (turn e clean).attempts ≡ 0
unfolding turn
clean-attempts e = refl

-- A streak of bad turns behind a clean one, whatever came before: the model is recovering as long
-- as the streak fits the budget, and degraded as soon as it does not.
pub bad_streak-health :
    (e : RecoveryEngine) (ts : List Turn) (k : BadOutputKind) (ks : List BadOutputKind)
    → length (k ∷ ks) < u32_mod
    → (turns e (ts ++ clean ∷ map bad (k ∷ ks))).health
      ≡ (if leb (length (k ∷ ks)) e.budget.max_repair_attempts then recovering else degraded)
bad_streak-health e ts k ks h =
    ap (λ q. q.health)
      (turns-append e ts (clean ∷ map bad (k ∷ ks)) ∙ turns-clean (turns e ts) (map bad (k ∷ ks)))
    ∙ turns-bad-health ks (turn (turns e ts) clean) k (omega (arith, clean-attempts (turns e ts)))
    ∙ ground (arith, clean-attempts (turns e ts), turn-budget (turns e ts) clean, turns-budget e ts)

abbrev is_clean : Turn → Bool
is_clean clean = true
is_clean (bad k) = false

-- Whatever the history, a step is completable exactly behind a clean turn that did not find the
-- model degraded.
pub last_turn-step_completable :
    (e : RecoveryEngine) (ts : List Turn) (t : Turn)
    → step_completable (turns e (ts ++ t ∷ []))
      ≡ (is_clean t && not (is_degraded (turns e ts).health))
unfolding step_completable turns turn
last_turn-step_completable e ts clean = rw turns-append (ground arith)
last_turn-step_completable e ts (bad k) = rw turns-append refl

-- `degraded` is not final: a clean turn keeps it, but the next bad turn, if the budget allows one
-- at all, makes the model recovering, and a further clean turn healthy and steps completable.
pub degraded_revives :
    (e : RecoveryEngine) (k : BadOutputKind)
    → e.health ≡ degraded
    → 1 ≤ e.budget.max_repair_attempts
    → ((turns e (clean ∷ [])).health ≡ degraded)
      × ((turns e (clean ∷ bad k ∷ [])).health ≡ recovering)
      × (step_completable (turns e (clean ∷ bad k ∷ clean ∷ [])) ≡ true)
unfolding turns turn step_completable
degraded_revives e k h b = ground arith
