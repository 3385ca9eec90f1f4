-- ===== src/Coordinator/Saga/Outcomes.antt =====
-- Lemmas about the outcomes of a group of steps and their rows.
use order_saga.Prelude.{
  ℕ, ◌≡◌, refl, sym, subst, String, Bool, true, false, ◌&&◌, Option, none, some, ◌==◌,
  if◌then◌else◌, eq_refl,
}
use order_saga.Shared.Types.{Step, step_eq, StepStatus, succeeded, failed}
use order_saga.Shared.Types.Laws.{step_eq_refl}
use order_saga.Shared.Errors.{Thrown}
use order_saga.Shared.Exec.{Exec, Ends, Ends-catch, Ends-of_state, Ends-then, pure, ◌>>◌}
use order_saga.Shared.Http.{call_step}
use order_saga.Coordinator.Repository.{
  StepTable, StepRow, ClaimedOrder, put_step, changed_row, mark_step_running, mark_step_result,
  get_step_statuses, row_status,
}
use order_saga.Coordinator.Repository.Arming.{has_row}
use order_saga.Coordinator.Saga.{
  World, SagaDeps, StepOutcome, update_steps, world_platform, step_options, mark_result, try_step,
  fail_step, execute_step,
}
use order_saga.Coordinator.Saga.Steps.{update_steps-Ends, call_step-keeps}

-- The second table has the rows of the first, but for what is changed in one.
abbrev pub IsOwnChange : String → Step → StepTable → StepTable → Type 0
IsOwnChange o step t0 t =
    ((o' : String) (s : Step) → (o' == o && step_eq s step) ≡ false → t o' s ≡ t0 o' s)
    × (has_row (t o step) ≡ true)

pub own_write :
    (o : String) (step : Step) (f : StepRow → StepRow) (t0 t : StepTable)
    → IsOwnChange o step t0 t
    → IsOwnChange o step t0 (put_step o step (changed_row f (t o step)) t)
unfolding put_step
own_write o step f t0 t h = (
  λ o' s other. rw other (h.0 o' s other),
  rw (eq_refl o, step_eq_refl step) (row_kept (t o step) h.1),
)
  where
    row_kept : (r : Option StepRow) → has_row r ≡ true → has_row (changed_row f r) ≡ true
    row_kept none k = k
    row_kept (some r) k = refl

written_row :
    (f : StepRow → StepRow) (st : StepStatus)
    → ((r : StepRow) → (f r).status ≡ st)
    → (r : Option StepRow) → has_row r ≡ true
    → row_status (changed_row f r) ≡ some st
written_row f st k none h = absurd (cc)
written_row f st k (some r) h = rw (k r) refl

pub written_status :
    (now n : ℕ) (o : String) (step : Step) (st : StepStatus) (e : Option Thrown) (t : StepTable)
    → has_row (t o step) ≡ true
    → get_step_statuses o (mark_step_result now o step st n e t) step ≡ some st
unfolding get_step_statuses mark_step_result put_step
written_status now n o step st e t h =
    rw (eq_refl o, step_eq_refl step, row_status) (written_row _ st (λ r. refl) (t o step) h)

module _ {R : Type 0} (deps : SagaDeps R) (order : ClaimedOrder) (step : Step) (force : Bool)
    (t0 : StepTable) where
  abbrev pub OwnAfter : StepTable → Type 0
  OwnAfter = IsOwnChange order.order_id step t0

  abbrev pub HasStatus : StepStatus → StepTable → Type 0
  HasStatus st t = OwnAfter t × (get_step_statuses order.order_id t step ≡ some st)

  mark_result-Ends :
      (st : StepStatus) (e : Option Thrown) (w : World R)
      → OwnAfter w.db.steps
      → Ends
          (λ _ u. HasStatus st u.db.steps)
          (λ _ u. OwnAfter u.db.steps)
          (mark_result deps order.order_id step st e w)
  unfolding mark_result
  mark_result-Ends st e w h =
      update_steps-Ends deps OwnAfter (HasStatus st)
        (λ now. mark_step_result now order.order_id step st w.attempts e) w h
        (λ now. (
          unfold mark_step_result in own_write order.order_id step _ t0 w.db.steps h,
          written_status now w.attempts order.order_id step st e w.db.steps h.1,
        ))

  abbrev pub Settled : StepOutcome → StepTable → Type 0
  Settled out t = HasStatus (if out.ok then succeeded else failed) t

  start-Ends :
      (w : World R)
      → OwnAfter w.db.steps
      → Ends
          (λ _ u. OwnAfter u.db.steps)
          (λ _ u. OwnAfter u.db.steps)
          (update_steps deps (λ now. mark_step_running now order.order_id step) w)
  unfolding mark_step_running
  start-Ends w h =
      update_steps-Ends deps OwnAfter OwnAfter (λ now. mark_step_running now order.order_id step) w
        h (λ now. own_write order.order_id step _ t0 w.db.steps h)

  abbrev finish : StepStatus → StepOutcome → Option Thrown → Exec (World R) StepOutcome
  finish st out e = mark_result deps order.order_id step st e >> pure out

  finish-Ends :
      (st : StepStatus) (e : Option Thrown) (out : StepOutcome) (w : World R)
      → (if out.ok then succeeded else failed) ≡ st
      → OwnAfter w.db.steps
      → Ends (λ o u. Settled o u.db.steps) (λ _ u. OwnAfter u.db.steps) (finish st out e w)
  finish-Ends st e out w same h =
      Ends-then (λ _ u. HasStatus st u.db.steps) (λ o u. Settled o u.db.steps)
        (λ _ u. OwnAfter u.db.steps) (mark_result deps order.order_id step st e) (λ _. pure out) w
        (mark_result-Ends st e w h) (λ _ u g. subst (λ s. HasStatus s u.db.steps) (sym same) g)

  abbrev done : StepOutcome
  done = record { step = step; ok = true; error = none }

  abbrev undone : Thrown → StepOutcome
  undone e = record { step = step; ok = false; error = some e }

  called-Ends :
      (w : World R)
      → OwnAfter w.db.steps
      → Ends
          (λ o u. Settled o u.db.steps)
          (λ _ u. OwnAfter u.db.steps)
          ((call_step (world_platform deps) (step_options deps order step force)
              >> finish succeeded done none)
            w)
  called-Ends w h =
      Ends-then (λ _ u. OwnAfter u.db.steps) (λ o u. Settled o u.db.steps)
        (λ _ u. OwnAfter u.db.steps)
        (call_step (world_platform deps) (step_options deps order step force))
        (λ _. finish succeeded done none) w
        (Ends-of_state (λ u. OwnAfter u.db.steps)
          (call_step (world_platform deps) (step_options deps order step force) w)
          (call_step-keeps deps OwnAfter order step force w h))
        (λ _ u g. finish-Ends succeeded none done u refl g)

  try_step-Ends :
      (w : World R)
      → OwnAfter w.db.steps
      → Ends
          (λ o u. Settled o u.db.steps)
          (λ _ u. OwnAfter u.db.steps)
          (try_step deps order step force w)
  unfolding try_step
  try_step-Ends w h =
      Ends-then (λ _ u. OwnAfter u.db.steps) (λ o u. Settled o u.db.steps)
        (λ _ u. OwnAfter u.db.steps)
        (update_steps deps (λ now. mark_step_running now order.order_id step))
        (λ _.
          call_step (world_platform deps) (step_options deps order step force)
          >> finish succeeded done none)
        w (start-Ends w h) (λ _ u g. called-Ends u g)

  -- A step changes its own row only, and an outcome that it returns tells the row's status.
  pub execute_step-Ends :
      (w : World R)
      → OwnAfter w.db.steps
      → Ends
          (λ out u. Settled out u.db.steps)
          (λ _ u. OwnAfter u.db.steps)
          (execute_step deps order step force w)
  unfolding execute_step fail_step
  execute_step-Ends w h =
      Ends-catch (λ out u. Settled out u.db.steps) (λ _ u. OwnAfter u.db.steps)
        (λ _ u. OwnAfter u.db.steps) (try_step deps order step force (record w { attempts = 0 }))
        (fail_step deps order step) (try_step-Ends (record w { attempts = 0 }) h)
        (λ e u g. finish-Ends failed (some e) (undone e) u refl g)
