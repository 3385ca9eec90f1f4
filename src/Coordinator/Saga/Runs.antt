-- ===== src/Coordinator/Saga/Runs.antt =====
-- Proofs about whole runs of a saga: each final status and the rows of the steps.
use order_saga.Prelude.{
  ◌≡◌, ◌≢◌, refl, sym, subst, ◌∙◌, Bool, true, false, not, Option, none, some, List, [], ◌∷◌, map,
  select, arith, eq_refl, Bool-cases, inl, inr,
}
use order_saga.Shared.Types.{
  Step, ForwardStep, forward, forward_steps, OrderStatus, placed, cancelled, compensating,
  status_eq, StepStatus, succeeded, is_succeeded,
}
use order_saga.Shared.Errors.{Thrown}
use order_saga.Shared.Exec.{Result, ok, err, Exec, Ends, Ends-then, Ends-mono, pure, ◌>>=◌, ◌>>◌}
use order_saga.Coordinator.Repository.{
  StepTable, ClaimedOrder, get_step_statuses, init_steps, set_order_status,
}
use order_saga.Coordinator.Repository.Arming.{has_row, init_steps-rows, forward_selected}
use order_saga.Coordinator.Saga.{
  World, SagaDeps, StepOutcome, query, update_steps, run_concurrently, run_steps, failures,
  pending_steps, compensate, save_status, roll_back, conclude, run_forward, run_saga,
  retry_compensation, stop_timer,
}
use order_saga.Coordinator.Saga.Steps.{query-Ends, update_steps-Ends}
use order_saga.Coordinator.Saga.Groups.{HasRows, run_concurrently-rows}
use order_saga.Coordinator.Saga.Undoing.{IsUndone}
use order_saga.Coordinator.Saga.Rollback.{Verdict, compensate-Ends}

module _ {R : Type 0} (deps : SagaDeps R) (order : ClaimedOrder) (force : Bool) where
  -- A change of the order's status leaves `saga_steps` alone.
  pub save_status-Ends :
      (P : StepTable → Type 0) (status : OrderStatus) (clear_lease : Bool) (e : Option Thrown)
      (w : World R)
      → P w.db.steps
      → Ends
          (λ _ u. P u.db.steps)
          (λ _ _. Unit {0})
          (save_status deps order.order_id status clear_lease e w)
  unfolding save_status set_order_status
  save_status-Ends P status clear_lease e w h =
      Ends-mono (λ _ u. P u.db.steps) (λ _ u. P u.db.steps) (λ _ u. P u.db.steps) (λ _ _. Unit {0})
        (save_status deps order.order_id status clear_lease e w)
        (query-Ends deps P (λ _. P)
          (λ now.
            set_order_status order.order_id deps.instance_id status
              (record { clear_lease = clear_lease; last_error = e }))
          w h (λ now db same. subst P (sym same) h))
        (λ _ _ g. g) (λ _ _ _. tt)

  pub roll_back-Ends :
      (w : World R)
      → Ends (Verdict deps order force) (λ _ _. Unit {0}) (roll_back deps order force w)
  unfolding roll_back
  roll_back-Ends w =
      Ends-then (Verdict deps order force) (Verdict deps order force) (λ _ _. Unit {0})
        (compensate deps order force)
        (λ status. save_status deps order.order_id status true none >> pure status) w
        (compensate-Ends deps order force w)
        (λ status u g.
          Ends-then (λ _ v. Verdict deps order force status v) (Verdict deps order force)
            (λ _ _. Unit {0}) (save_status deps order.order_id status true none) (λ _. pure status)
            u
            (save_status-Ends
              (λ t. (status ≢ placed) × (status ≡ cancelled → IsUndone order.order_id t)) status
              true none u g)
            (λ _ v g'. g'))

module _ {R : Type 0} (deps : SagaDeps R) (order : ClaimedOrder) where
  IsPlaced : StepTable → Type 0
  IsPlaced t = (f : ForwardStep) → get_step_statuses order.order_id t (forward f) ≡ some succeeded

  -- What the two good final statuses tell.
  Told : OrderStatus → World R → Type 0
  Told status u =
      (status ≡ placed → IsPlaced u.db.steps)
      × (status ≡ cancelled → IsUndone order.order_id u.db.steps)

  rolled : (force : Bool) (w : World R) → Ends Told (λ _ _. Unit {0}) (roll_back deps order force w)
  unfolding Told
  rolled force w =
      Ends-mono (Verdict deps order force) Told (λ _ _. Unit {0}) (λ _ _. Unit {0}) _
        (roll_back-Ends deps order force w) (λ s u v. (λ p. absurd (v.0 p), v.1)) (λ _ _ _. tt)

  -- Resuming and rolling back do not look at the status in the claimed row.
  conclude-Ends :
      (failed : List StepOutcome) (w : World R)
      → (failed ≡ [] → IsPlaced w.db.steps)
      → Ends Told (λ _ _. Unit {0}) (conclude deps order failed w)
  unfolding conclude Told
  conclude-Ends [] w h =
      Ends-then (λ _ u. IsPlaced u.db.steps) Told (λ _ _. Unit {0})
        (save_status deps order.order_id placed true none) (λ _. pure placed) w
        (save_status-Ends deps order false IsPlaced placed true none w (h refl))
        (λ _ u g. (λ _. g, λ c. absurd (cc)))
  conclude-Ends (o ∷ os) w h =
      Ends-then (λ _ _. Unit {0}) Told (λ _ _. Unit {0})
        (save_status deps order.order_id compensating false o.error)
        (λ _. roll_back deps (record order { status = compensating }) false) w
        (save_status-Ends deps order false (λ _. Unit {0}) compensating false o.error w tt)
        (λ _ u _. resumed u)
    where
      resumed :
          (u : World R)
          → Ends Told
              (λ _ _. Unit {0})
              (roll_back deps (record order { status = compensating }) false u)
      resumed u =
          Ends-mono (Verdict deps (record order { status = compensating }) false) Told
            (λ _ _. Unit {0}) (λ _ _. Unit {0})
            (roll_back deps (record order { status = compensating }) false u)
            (roll_back-Ends deps (record order { status = compensating }) false u)
            (λ s x v. (λ p. absurd (v.0 p), v.1)) (λ _ _ _. tt)

  abbrev is_pending : StepTable → ForwardStep → Bool
  is_pending t f = elim (get_step_statuses order.order_id t (forward f)) [
    | none ↦ true
    | some s ↦ not (is_succeeded s)
  ]

  not_pending :
      (s : Option StepStatus)
      → (elim s [ none ↦ true | some s ↦ not (is_succeeded s) ]) ≡ false
      → s ≡ some succeeded
  not_pending s h = ground arith

  forward_part : (Step → Option StepStatus) → Exec (World R) OrderStatus
  forward_part existing = run_steps deps order (pending_steps existing) false >>= λ outcomes.
      conclude deps order (failures outcomes)

  all_rows :
      (t : StepTable) (fs : List ForwardStep)
      → ((f : ForwardStep) → has_row (t order.order_id (forward f)) ≡ true)
      → HasRows deps order false (map forward fs) t
  all_rows t [] h = tt
  all_rows t (f ∷ fs) h = (h f, all_rows t fs h)

  abbrev HasForward : StepTable → Type 0
  HasForward t = (f : ForwardStep) → has_row (t order.order_id (forward f)) ≡ true

  forward_part-Ends :
      (existing : Step → Option StepStatus) (w : World R)
      → existing ≡ get_step_statuses order.order_id w.db.steps
      → HasForward w.db.steps
      → Ends Told (λ _ _. Unit {0}) (forward_part existing w)
  unfolding forward_part IsPlaced get_step_statuses
  forward_part-Ends existing w e h =
      let o = order.order_id in
      let waits : ForwardStep → Bool =
        λ f. elim (existing (forward f)) [ none ↦ true | some s ↦ not (is_succeeded s) ] in
      let ran = run_concurrently deps order (pending_steps existing) false w in
      let rows =
        run_concurrently-rows deps order false (pending_steps existing) w
          (all_rows w.db.steps (select waits forward_steps) h) in
      conclude-Ends (failures ran.0) ran.1 (λ fine f. elim (Bool-cases (waits f)) [
        | inl left ↦ rows.1 fine (forward f) (forward_selected waits f ∙ left)
        | inr finished ↦
            rw (rows.0.0 o (forward f) (rw (eq_refl o, forward_selected waits f, finished) refl)) (
              subst (λ g. g (forward f) ≡ some succeeded) e
                (not_pending (existing (forward f)) finished))
      ])

  run_forward-Ends : (w : World R) → Ends Told (λ _ _. Unit {0}) (run_forward deps order w)
  unfolding run_forward forward_part
  run_forward-Ends w =
      let o = order.order_id in
      Ends-then (λ _ u. HasForward u.db.steps) Told (λ _ _. Unit {0})
        (update_steps deps (λ now. init_steps o (map forward forward_steps)))
        (λ _. query deps (λ now db. (get_step_statuses o db.steps, db)) >>= forward_part) w
        (update_steps-Ends deps (λ _. Unit {0}) HasForward
          (λ now. init_steps o (map forward forward_steps)) w tt
          (λ now f.
            (init_steps-rows o (map forward forward_steps) w.db.steps).1 (forward f)
              (forward_selected (λ _. true) f)))
        (λ _ u g.
          Ends-then
            (λ existing v. (existing ≡ get_step_statuses o v.db.steps) × HasForward v.db.steps) Told
            (λ _ _. Unit {0}) (query deps (λ now db. (get_step_statuses o db.steps, db)))
            forward_part u
            (query-Ends deps (λ _. Unit {0})
              (λ existing t. (existing ≡ get_step_statuses o t) × HasForward t)
              (λ now db. (get_step_statuses o db.steps, db)) u tt
              (λ now db same. (refl, subst HasForward (sym same) g)))
            (λ existing v g'. forward_part-Ends existing v g'.0 g'.1))

  stopped :
      (r : Result OrderStatus × World R)
      → Ends Told (λ _ _. Unit {0}) r
      → Ends Told (λ _ _. Unit {0}) (stop_timer r)
  unfolding Told
  stopped (ok s, u) h = h
  stopped (err e, u) h = tt

  run_saga-Ends : (w : World R) → Ends Told (λ _ _. Unit {0}) (run_saga deps order w)
  unfolding run_saga
  run_saga-Ends w =
      let u = record w { timer = some order.order_id } in
      elim (Bool-cases (status_eq order.status compensating)) [
        | inl resume ↦ rw resume (stopped (roll_back deps order false u) (rolled false u))
        | inr start ↦ rw start (stopped (run_forward deps order u) (run_forward-Ends u))
      ]

  -- A run that ends as PLACED leaves all four forward steps recorded as SUCCEEDED.
  pub run_saga-placed :
      (w u : World R)
      → run_saga deps order w ≡ (ok placed, u)
      → (f : ForwardStep) → get_step_statuses order.order_id u.db.steps (forward f) ≡ some succeeded
  unfolding Told IsPlaced
  run_saga-placed w u h = (subst (Ends Told (λ _ _. Unit {0})) h (run_saga-Ends w)).0 refl

  -- A run that ends as CANCELLED, resumed or not, leaves every forward step that is recorded as
  -- SUCCEEDED with its compensation SUCCEEDED, and every other with its compensation SKIPPED.
  pub run_saga-cancelled :
      (w u : World R)
      → run_saga deps order w ≡ (ok cancelled, u)
      → IsUndone order.order_id u.db.steps
  unfolding Told
  run_saga-cancelled w u h = (subst (Ends Told (λ _ _. Unit {0})) h (run_saga-Ends w)).1 refl

  -- A manual retry that ends as CANCELLED leaves every forward step that is recorded as SUCCEEDED
  -- with its compensation SUCCEEDED, and every other with its compensation SKIPPED.
  pub retry_compensation-cancelled :
      (w u : World R)
      → retry_compensation deps order w ≡ (ok cancelled, u)
      → IsUndone order.order_id u.db.steps
  unfolding retry_compensation Told
  retry_compensation-cancelled w u h =
      (subst (Ends Told (λ _ _. Unit {0})) h (rolled true w)).1 refl
