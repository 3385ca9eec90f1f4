-- ===== src/Coordinator/Saga/Skips.antt =====
-- Lemmas about the loop that marks the compensations that are not needed.
use order_saga.Prelude.{◌≡◌, refl, true, none, some, List, [], ◌∷◌}
use order_saga.Shared.Types.{CompensationStep, compensation, skipped}
use order_saga.Shared.Exec.{Ends, Ends-then, Ends-mono}
use order_saga.Coordinator.Repository.{StepTable, ClaimedOrder, get_step_statuses, mark_step_result}
use order_saga.Coordinator.Repository.Arming.{has_row}
use order_saga.Coordinator.Saga.{World, SagaDeps, update_steps, skip_steps}
use order_saga.Coordinator.Saga.Steps.{update_steps-Ends}
use order_saga.Coordinator.Saga.Outcomes.{IsOwnChange, own_write, written_status}
use order_saga.Coordinator.Saga.Groups.{group_step}
use order_saga.Coordinator.Saga.Undoing.{AllSkipped, skip_one}

module _ {R : Type 0} (deps : SagaDeps R) (order : ClaimedOrder) where
  -- The skipping loop changes the rows of its list and records each as SKIPPED.
  abbrev pub HasCompensations : StepTable → Type 0
  HasCompensations t = (c : CompensationStep) → has_row (t order.order_id (compensation c)) ≡ true

  pub skip_steps-Ends :
      (cs : List CompensationStep) (w : World R)
      → HasCompensations w.db.steps
      → Ends
          (λ _ u. AllSkipped order.order_id cs w.db.steps u.db.steps)
          (λ _ _. Unit {0})
          (skip_steps deps order.order_id cs w)
  unfolding skip_steps mark_step_result
  skip_steps-Ends [] w h = ((λ _ _ _. refl, λ s k. k), λ c k. absurd (cc))
  skip_steps-Ends (c ∷ cs) w h =
      let o = order.order_id in
      Ends-then
        (λ _ u.
          IsOwnChange o (compensation c) w.db.steps u.db.steps
          × (get_step_statuses o u.db.steps (compensation c) ≡ some skipped))
        (λ _ u. AllSkipped order.order_id (c ∷ cs) w.db.steps u.db.steps) (λ _ _. Unit {0})
        (update_steps deps (λ now. mark_step_result now o (compensation c) skipped 0 none))
        (λ _. skip_steps deps o cs) w
        (update_steps-Ends deps (λ _. Unit {0})
          (λ t.
            IsOwnChange o (compensation c) w.db.steps t
            × (get_step_statuses o t (compensation c) ≡ some skipped))
          (λ now. mark_step_result now o (compensation c) skipped 0 none) w tt
          (λ now. (
            own_write o (compensation c) _ w.db.steps w.db.steps (λ _ _ _. refl, h c),
            written_status now 0 o (compensation c) skipped none w.db.steps (h c),
          )))
        (λ _ u g.
          let kept =
            group_step o (compensation c) [] w.db.steps u.db.steps u.db.steps g.0
              (λ _ _ _. refl, λ s k. k) in
          Ends-mono (λ _ v. AllSkipped order.order_id cs u.db.steps v.db.steps)
            (λ _ v. AllSkipped order.order_id (c ∷ cs) w.db.steps v.db.steps) (λ _ _. Unit {0})
            (λ _ _. Unit {0}) (skip_steps deps o cs u)
            (skip_steps-Ends cs u (λ x. kept.1 (compensation x) (h x)))
            (λ _ v r. skip_one order.order_id c cs w.db.steps u.db.steps v.db.steps g.0 g.1 r)
            (λ _ _ _. tt))
