-- ===== src/Coordinator/Saga/Turns/Verdicts.antt =====
-- Proofs about the final status of an interleaved saga and the rows of the steps.
use order_saga.Prelude.{
  ℕ, ◌≡◌, ◌≢◌, refl, sym, subst, ◌∙◌, String, Bool, true, false, not, Option, none, some, List, [],
  ◌∷◌, map, any, select, arith, eq_refl, Bool-cases, inl, inr,
}
use order_saga.Shared.Types.{
  Step, ForwardStep, CompensationStep, forward, compensation, forward_steps, compensation_steps,
  step_eq, OrderStatus, placed, cancelled, StepStatus, succeeded, skipped, is_succeeded,
}
use order_saga.Shared.Types.Laws.{step_eq_iff}
use order_saga.Coordinator.Repository.{
  SagaDb, StepTable, mark_step_result, init_steps, get_step_statuses, get_succeeded_forward_steps,
}
use order_saga.Coordinator.Repository.Arming.{
  has_row, init_steps-rows, forward_selected, forward_apart, compensation_apart,
}
use order_saga.Coordinator.Saga.{StepOutcome, failures, pending_steps, is_needed}
use order_saga.Coordinator.Saga.Outcomes.{own_write, written_status, IsOwnChange}
use order_saga.Coordinator.Saga.Groups.{no_failures, failed_first, group_step}
use order_saga.Coordinator.Saga.Undoing.{
  to_run, not_needed, IsUndone, IsArmed, IsSkipped, AllSkipped, skip_one, IsArmed-kept,
  init_steps-IsArmed, not_needed-IsSkipped, succeeded-IsUndone,
}
use order_saga.Coordinator.Saga.Rollback.{cancelled-no_failures, rollback_status-not_placed}
use order_saga.Coordinator.Saga.Turns.{Phase, finished, Group}
use order_saga.Coordinator.Saga.Turns.Rows.{Inv, IsTold, Reach-Inv}
use order_saga.Coordinator.Saga.Turns.Orders.{
  IsSettled, skip_rows, Compensates, compensates, ForwardPhase, Runs, resumes, places, rolls_back,
}

told_ok :
    (o : String) (t : StepTable) (s : Step) (p : Phase) (out : StepOutcome)
    → p ≡ finished out
    → out.ok ≡ true
    → IsTold o t s p
    → get_step_statuses o t s ≡ some succeeded
told_ok o t s p out e good told = subst (IsTold o t s) e told good

-- If no outcome is a failure, every step of the group is SUCCEEDED.
settled_ok :
    (o : String) (t : StepTable) (phase : Step → Phase) (steps : List Step) (os : List StepOutcome)
    → ((s : Step) → IsTold o t s (phase s))
    → IsSettled steps phase os
    → failures os ≡ []
    → (s : Step) → any (λ x. step_eq s x) steps ≡ true
    → get_step_statuses o t s ≡ some succeeded
settled_ok o t phase [] os told h fine s among = absurd (cc)
settled_ok o t phase (x ∷ steps) os told (out, rest, e, cut, h) fine s among =
    let clean = subst (λ l. failures l ≡ []) cut fine in
    elim (Bool-cases out.ok) [
      | inl good ↦ elim (Bool-cases (any (λ y. step_eq s y) steps)) [
        | inl later ↦
            settled_ok o t phase steps rest told h (no_failures out rest good clean) s later
        | inr earlier ↦
            subst (λ y. get_step_statuses o t y ≡ some succeeded)
              (sym ((step_eq_iff s x).0 (ground (arith, among))))
              (told_ok o t x (phase x) out e good (told x))
      ]
      | inr bad ↦ absurd (failed_first out rest bad clean)
    ]

skip_rows-AllSkipped :
    (now : CompensationStep → ℕ) (o : String) (cs : List CompensationStep) (t : StepTable)
    → ((c : CompensationStep) → has_row (t o (compensation c)) ≡ true)
    → AllSkipped o cs t (skip_rows now o cs t)
unfolding skip_rows
skip_rows-AllSkipped now o [] t h = ((λ _ _ _. refl, λ s k. k), λ c k. absurd (cc))
skip_rows-AllSkipped now o (c ∷ cs) t h =
    let t1 = mark_step_result (now c) o (compensation c) skipped 0 none t in
    let own : IsOwnChange o (compensation c) t t1 =
      unfold mark_step_result in own_write o (compensation c) _ t t (λ _ _ _. refl, h c) in
    let kept = group_step o (compensation c) [] t t1 t1 own (λ _ _ _. refl, λ s k. k) in
    skip_one o c cs t t1 (skip_rows now o cs t1) own
      (written_status (now c) 0 o (compensation c) skipped none t (h c))
      (skip_rows-AllSkipped now o cs t1 (λ x. kept.1 (compensation x) (h x)))

-- The steps of a group of compensations have rows.
compensation_rows :
    (o : String) (t : StepTable) (cs : List CompensationStep)
    → ((c : CompensationStep) → has_row (t o (compensation c)) ≡ true)
    → (s : Step) → any (λ x. step_eq s x) (map compensation cs) ≡ true
    → has_row (t o s) ≡ true
compensation_rows o t cs h (forward f) among = absurd (clash (forward_apart f cs) among)
  where
    clash : {b : Bool} → b ≡ false → b ≡ true → ⊥
    clash p q = absurd (cc)
compensation_rows o t cs h (compensation c) among = h c

forward_rows :
    (o : String) (t : StepTable) (fs : List ForwardStep)
    → ((f : ForwardStep) → has_row (t o (forward f)) ≡ true)
    → (s : Step) → any (λ x. step_eq s x) (map forward fs) ≡ true
    → has_row (t o s) ≡ true
forward_rows o t fs h (forward f) among = h f
forward_rows o t fs h (compensation c) among = absurd (clash (compensation_apart c fs) among)
  where
    clash : {b : Bool} → b ≡ false → b ≡ true → ⊥
    clash p q = absurd (cc)

-- An interleaved compensation phase that ends as CANCELLED has undone exactly what was done.
Compensates-IsUndone :
    (o : String) {db db' : SagaDb} {status : OrderStatus}
    → Compensates o db status db'
    → status ≡ cancelled
    → IsUndone o db'.steps
Compensates-IsUndone o {db} {db'} (compensates now armed g os arming reach settled verdict end)
      is_cancelled =
    let done = get_succeeded_forward_steps o db.steps in
    let t1 = init_steps o (map compensation compensation_steps) db.steps in
    let t2 = skip_rows now o (not_needed done) t1 in
    let armed1 : IsArmed o done t1 = init_steps-IsArmed o db.steps in
    let skipped1 : AllSkipped o (not_needed done) t1 t2 =
      skip_rows-AllSkipped now o (not_needed done) t1 armed1.1 in
    let armed2 : IsArmed o done t2 =
      IsArmed-kept o done (not_needed done) t1 t2 skipped1.0 armed1 in
    let skips : IsSkipped o done t2 = not_needed-IsSkipped o done t1 t2 skipped1 in
    let armed3 : IsArmed o done armed.steps = subst (IsArmed o done) (sym arming) armed2 in
    let inv : Inv o (to_run done) armed.steps g =
      Reach-Inv o (to_run done) armed
        (compensation_rows o armed.steps (select (is_needed done) compensation_steps) armed3.1)
        reach in
    subst (IsUndone o) (sym end) (
      succeeded-IsUndone o done armed.steps g.db.steps armed3
        (subst (IsSkipped o done) (sym arming) skips) inv.rows
        (settled_ok o g.db.steps g.phase (to_run done) os inv.told settled
          (cancelled-no_failures (failures os) (sym verdict ∙ is_cancelled))))

Compensates-not_placed :
    (o : String) {db db' : SagaDb} {status : OrderStatus}
    → Compensates o db status db'
    → status ≢ placed
Compensates-not_placed o (compensates now armed g os arming reach settled verdict end) h =
    rollback_status-not_placed (failures os) (sym verdict ∙ h)

ForwardPhase-placed :
    (o : String) (db : SagaDb) (g : Group) (os : List StepOutcome)
    → ForwardPhase o db g os
    → failures os ≡ []
    → (f : ForwardStep) → get_step_statuses o g.db.steps (forward f) ≡ some succeeded
unfolding get_step_statuses
ForwardPhase-placed o db g os phase fine f =
    let t = phase.armed.steps in
    let rows : (x : ForwardStep) → has_row (t o (forward x)) ≡ true = λ x.
      subst (λ u. has_row (u o (forward x)) ≡ true) (sym phase.arming)
        ((init_steps-rows o (map forward forward_steps) db.steps).1 (forward x)
          (forward_selected (λ _. true) x)) in
    let inv : Inv o (pending_steps (get_step_statuses o t)) t g =
      Reach-Inv o (pending_steps (get_step_statuses o t)) phase.armed
        (forward_rows o t (select (waits t) forward_steps) rows) phase.reach in
    elim (Bool-cases (waits t f)) [
      | inl left ↦
          settled_ok o g.db.steps g.phase (pending_steps (get_step_statuses o t)) os inv.told
            phase.settled fine (forward f) (forward_selected (waits t) f ∙ left)
      | inr done ↦
          rw (inv.rows.0 o (forward f) (rw (eq_refl o, forward_selected (waits t) f, done) refl))
            (finished_before (get_step_statuses o t (forward f)) done)
    ]
  where
    waits : StepTable → ForwardStep → Bool
    waits t x = elim (get_step_statuses o t (forward x)) [
      | none ↦ true
      | some s ↦ not (is_succeeded s)
    ]

    finished_before :
        (s : Option StepStatus)
        → (elim s [ none ↦ true | some x ↦ not (is_succeeded x) ]) ≡ false
        → s ≡ some succeeded
    finished_before s h = ground arith

-- In whatever order the steps of each group take their turns: an order that ends as PLACED has all
-- four forward steps recorded as SUCCEEDED, and one that ends as CANCELLED has the compensation of
-- each forward step that is recorded as SUCCEEDED recorded so too, and every other one SKIPPED.
pub Runs-told :
    (o : String) {claimed status : OrderStatus} {db db' : SagaDb}
    → Runs o claimed db status db'
    → (status ≡ placed
        → (f : ForwardStep) → get_step_statuses o db'.steps (forward f) ≡ some succeeded)
      × (status ≡ cancelled → IsUndone o db'.steps)
Runs-told o (resumes r c) = (λ p. absurd (Compensates-not_placed o c p), Compensates-IsUndone o c)
Runs-told o {db = db} (places g os fresh phase fine verdict end) = (
  λ _ f.
      subst (λ t. get_step_statuses o t (forward f) ≡ some succeeded) (sym end)
        (ForwardPhase-placed o db g os phase fine f),
  λ c. absurd (placed_not_cancelled (sym verdict ∙ c)),
)
  where
    placed_not_cancelled : placed ≢ cancelled
    placed_not_cancelled e = absurd (cc)
Runs-told o (rolls_back g os marked fresh phase bad same c) =
    (λ p. absurd (Compensates-not_placed o c p), Compensates-IsUndone o c)
