-- ===== src/Coordinator/Saga/Turns/Orders.antt =====
-- A whole saga whose groups interleave, while the heartbeats and other processes change what is not
-- in `saga_steps` (`runSaga` and `compensate` of services/coordinator/src/saga.ts, the runs in
-- which no query outside a step fails).
use order_saga.Prelude.{ℕ, ◌≡◌, ◌≢◌, String, none, List, [], ◌∷◌, map}
use order_saga.Shared.Types.{
  Step, CompensationStep, forward, compensation, forward_steps, compensation_steps, OrderStatus,
  placed, compensating, skipped,
}
use order_saga.Coordinator.Repository.{
  SagaDb, StepTable, mark_step_result, init_steps, get_step_statuses, get_succeeded_forward_steps,
}
use order_saga.Coordinator.Saga.{StepOutcome, failures, pending_steps, rollback_status}
use order_saga.Coordinator.Saga.Undoing.{to_run, not_needed}
use order_saga.Coordinator.Saga.Turns.{Phase, finished, Group, Reach}

-- Every step of the group has ended, with these outcomes.
abbrev pub IsSettled : List Step → (Step → Phase) → List StepOutcome → Type 0
IsSettled [] phase os = os ≡ []
IsSettled (s ∷ steps) phase os =
    (out : StepOutcome) × (rest : List StepOutcome) × (phase s ≡ finished out)
    × (os ≡ out ∷ rest)
    × IsSettled steps phase rest

-- The loop of `compensate` that marks what is not needed, at the times `now`.
unfoldable pub skip_rows :
    (CompensationStep → ℕ) → String → List CompensationStep → StepTable → StepTable
unfolding mark_step_result
skip_rows now o [] t = t
skip_rows now o (c ∷ cs) t =
    skip_rows now o cs (mark_step_result (now c) o (compensation c) skipped 0 none t)

-- `compensate`: the table is armed, what is not needed is skipped, and the rest runs interleaved.
pub data Compensates (o : String) (db : SagaDb) (status : OrderStatus) (db' : SagaDb) : Type 0 where
  compensates :
      (now : CompensationStep → ℕ) (armed : SagaDb) (g : Group) (os : List StepOutcome)
      → armed.steps
        ≡ skip_rows now o
            (not_needed (get_succeeded_forward_steps o db.steps))
            (init_steps o (map compensation compensation_steps) db.steps)
      → Reach o (to_run (get_succeeded_forward_steps o db.steps)) armed g
      → IsSettled (to_run (get_succeeded_forward_steps o db.steps)) g.phase os
      → status ≡ rollback_status (failures os)
      → db'.steps ≡ g.db.steps
      → Compensates o db status db'

-- The forward phase ends: the group over the steps that are not yet done.
pub record ForwardPhase (o : String) (db : SagaDb) (g : Group) (os : List StepOutcome)
    : Type 0 where
  pub armed : SagaDb
  pub arming : armed.steps ≡ init_steps o (map forward forward_steps) db.steps
  pub reach : Reach o (pending_steps (get_step_statuses o armed.steps)) armed g
  pub settled : IsSettled (pending_steps (get_step_statuses o armed.steps)) g.phase os

-- `runSaga` from one state of the tables to another.
pub data Runs (o : String) (claimed : OrderStatus) (db : SagaDb) (status : OrderStatus)
    (db' : SagaDb) : Type 0 where
  resumes : claimed ≡ compensating → Compensates o db status db' → Runs o claimed db status db'
  places :
      (g : Group) (os : List StepOutcome)
      → claimed ≢ compensating
      → ForwardPhase o db g os
      → failures os ≡ []
      → status ≡ placed
      → db'.steps ≡ g.db.steps
      → Runs o claimed db status db'
  rolls_back :
      (g : Group) (os : List StepOutcome) (marked : SagaDb)
      → claimed ≢ compensating
      → ForwardPhase o db g os
      → failures os ≢ []
      → marked.steps ≡ g.db.steps
      → Compensates o marked status db'
      → Runs o claimed db status db'
