-- ===== src/Coordinator/Saga/Rollback.antt =====
-- Lemmas about the compensation phase.
use order_saga.Prelude.{ℕ, ◌≡◌, ◌≢◌, refl, sym, subst, Bool, true, List, [], ◌∷◌, map, select}
use order_saga.Shared.Types.{
  ForwardStep, CompensationStep, compensation, compensation_steps, OrderStatus, placed, cancelled,
}
use order_saga.Shared.Exec.{Exec, Ends, Ends-then, pure, ◌>>=◌, ◌>>◌}
use order_saga.Coordinator.Repository.{
  StepTable, ClaimedOrder, get_succeeded_forward_steps, init_steps,
}
use order_saga.Coordinator.Repository.Arming.{has_row}
use order_saga.Coordinator.Saga.{
  World, SagaDeps, StepOutcome, query, update_steps, run_concurrently, run_steps, skip_steps,
  is_needed, failures, rollback_status, compensate,
}
use order_saga.Coordinator.Saga.Steps.{query-Ends, update_steps-Ends}
use order_saga.Coordinator.Saga.Groups.{HasRows, run_concurrently-rows}
use order_saga.Coordinator.Saga.Skips.{skip_steps-Ends}
use order_saga.Coordinator.Saga.Undoing.{
  to_run, not_needed, IsUndone, IsArmed, IsSkipped, AllSkipped, IsArmed-kept, init_steps-IsArmed,
  not_needed-IsSkipped, succeeded-IsUndone,
}

pub cancelled-no_failures : (os : List StepOutcome) → rollback_status os ≡ cancelled → os ≡ []
cancelled-no_failures [] h = refl
cancelled-no_failures (o ∷ os) h = absurd (cc)

pub rollback_status-not_placed : (os : List StepOutcome) → rollback_status os ≢ placed
rollback_status-not_placed [] h = absurd (cc)
rollback_status-not_placed (o ∷ os) h = absurd (cc)

module _ {R : Type 0} (deps : SagaDeps R) (order : ClaimedOrder) (force : Bool) where
  -- What a rollback that ends with a status tells.
  abbrev pub Verdict : OrderStatus → World R → Type 0
  Verdict status u = (status ≢ placed) × (status ≡ cancelled → IsUndone order.order_id u.db.steps)

  all_rows :
      (t : StepTable) (cs : List CompensationStep)
      → ((c : CompensationStep) → has_row (t order.order_id (compensation c)) ≡ true)
      → HasRows deps order force (map compensation cs) t
  all_rows t [] h = tt
  all_rows t (c ∷ cs) h = (h c, all_rows t cs h)

  undo_part : List ForwardStep → Exec (World R) OrderStatus
  undo_part done = run_steps deps order (to_run done) force >>= λ outcomes.
      pure (rollback_status (failures outcomes))

  undo_part-Ends :
      (done : List ForwardStep) (w : World R)
      → IsArmed order.order_id done w.db.steps
      → IsSkipped order.order_id done w.db.steps
      → Ends Verdict (λ _ _. Unit {0}) (undo_part done w)
  unfolding undo_part
  undo_part-Ends done w h skips =
      let ran = run_concurrently deps order (to_run done) force w in
      let rows =
        run_concurrently-rows deps order force (to_run done) w
          (all_rows w.db.steps (select (is_needed done) compensation_steps) h.1) in
      (
        rollback_status-not_placed (failures ran.0),
        λ is_cancelled.
            succeeded-IsUndone order.order_id done w.db.steps ran.1.db.steps h skips rows.0
              (rows.1 (cancelled-no_failures (failures ran.0) is_cancelled)),
      )

  skip_part-Ends :
      (done : List ForwardStep) (w : World R)
      → IsArmed order.order_id done w.db.steps
      → Ends Verdict
          (λ _ _. Unit {0})
          ((skip_steps deps order.order_id (not_needed done) >> undo_part done) w)
  skip_part-Ends done w h =
      Ends-then (λ _ u. AllSkipped order.order_id (not_needed done) w.db.steps u.db.steps) Verdict
        (λ _ _. Unit {0}) (skip_steps deps order.order_id (not_needed done)) (λ _. undo_part done) w
        (skip_steps-Ends deps order (not_needed done) w h.1)
        (λ _ u g.
          undo_part-Ends done u
            (IsArmed-kept order.order_id done (not_needed done) w.db.steps u.db.steps g.0 h)
            (not_needed-IsSkipped order.order_id done w.db.steps u.db.steps g))

  done_steps : StepTable → List ForwardStep
  done_steps t = get_succeeded_forward_steps order.order_id t

  arm : ℕ → StepTable → StepTable
  arm now = init_steps order.order_id (map compensation compensation_steps)

  init_part-Ends :
      (done : List ForwardStep) (w : World R)
      → done ≡ done_steps w.db.steps
      → Ends Verdict
          (λ _ _. Unit {0})
          ((update_steps deps arm
              >> (skip_steps deps order.order_id (not_needed done) >> undo_part done))
            w)
  unfolding arm done_steps
  init_part-Ends done w e =
      let o = order.order_id in
      Ends-then (λ _ u. IsArmed order.order_id done u.db.steps) Verdict (λ _ _. Unit {0})
        (update_steps deps arm) (λ _. skip_steps deps o (not_needed done) >> undo_part done) w
        (update_steps-Ends deps (λ _. Unit {0}) (IsArmed order.order_id done) arm w tt
          (λ now.
            subst (λ d. IsArmed o d (arm now w.db.steps)) (sym e)
              (init_steps-IsArmed o w.db.steps)))
        (λ _ u g. skip_part-Ends done u g)

  -- The compensation phase never ends as PLACED, and when it ends as CANCELLED, exactly what was
  -- done has been undone.
  pub compensate-Ends :
      (w : World R) → Ends Verdict (λ _ _. Unit {0}) (compensate deps order force w)
  unfolding compensate arm done_steps undo_part
  compensate-Ends w =
      Ends-then (λ done u. done ≡ done_steps u.db.steps) Verdict (λ _ _. Unit {0})
        (query deps (λ now db. (get_succeeded_forward_steps order.order_id db.steps, db)))
        (λ done.
          update_steps deps arm
          >> (skip_steps deps order.order_id (not_needed done) >> undo_part done))
        w
        (query-Ends deps (λ _. Unit {0}) (λ done t. done ≡ done_steps t)
          (λ now db. (get_succeeded_forward_steps order.order_id db.steps, db)) w tt
          (λ now db same. refl))
        (λ done u e. init_part-Ends done u e)
