-- ===== src/Coordinator/Saga/Completion.antt =====
-- Proofs about how a run of a saga ends.
use order_saga.Prelude.{
  ℕ, ◌≡◌, refl, Bool, true, false, ◌⊎◌, inl, inr, Option, none, some, List, [], ◌∷◌, map, All,
  select, Bool-cases, not,
}
use order_saga.Shared.Types.{
  Step, ForwardStep, CompensationStep, compensation, compensation_steps, forward, forward_steps,
  OrderStatus, placed, cancelled, needs_attention, compensating, status_eq, StepStatus,
}
use order_saga.Shared.Errors.{Thrown}
use order_saga.Shared.Exec.{Result, ok, err, Exec, Ends, Ends-then, pure, ◌>>=◌, ◌>>◌}
use order_saga.Coordinator.Repository.{
  ClaimedOrder, init_steps, get_succeeded_forward_steps, get_step_statuses, StepTable,
  set_order_status,
}
use order_saga.Coordinator.Saga.{
  World, SagaDeps, StepOutcome, query, update_steps, run_steps, skip_steps, is_needed, failures,
  rollback_status, compensate, save_status, roll_back, conclude, pending_steps, run_forward,
  run_saga, stop_timer,
}
use order_saga.Coordinator.Saga.Returns.{
  IsFaultless, Returns, query-Returns, update_steps-Returns, run_concurrently-keeps,
  skip_steps-Returns,
}

abbrev pub IsFinal : OrderStatus → Type 0
IsFinal status = (status ≡ placed) ⊎ (status ≡ cancelled) ⊎ (status ≡ needs_attention)

module _ {R : Type 0} (deps : SagaDeps R) where
  module _ (order : ClaimedOrder) where
    -- The action ends with a final status.
    abbrev Finishes : Result OrderStatus × World R → Type 0
    Finishes r = Ends (λ status u. IsFinal status × IsFaultless u) (λ _ _. ⊥) r

    then-Finishes :
        {A : Type 0} (m : Exec (World R) A) (f : A → Exec (World R) OrderStatus) (w : World R)
        → Returns deps (m w)
        → ((a : A) (u : World R) → IsFaultless u → Finishes (f a u))
        → Finishes ((m >>= f) w)
    then-Finishes m f w h k =
        Ends-then (λ _ u. IsFaultless u) (λ status u. IsFinal status × IsFaultless u) (λ _ _. ⊥) m f
          w h k

    rollback_status-IsFinal : (os : List StepOutcome) → IsFinal (rollback_status os)
    rollback_status-IsFinal [] = inr (inl refl)
    rollback_status-IsFinal (o ∷ os) = inr (inr refl)

    undo : List ForwardStep → Bool → Exec (World R) OrderStatus
    undo done force =
        run_steps deps order (map compensation (select (is_needed done) compensation_steps)) force
        >>= λ os. pure (rollback_status (failures os))

    abbrev idle : List ForwardStep → List CompensationStep
    idle done = select (λ c. not (is_needed done c)) compensation_steps

    compensate-Finishes :
        (force : Bool) (w : World R) → IsFaultless w → Finishes (compensate deps order force w)
    unfolding compensate undo
    compensate-Finishes force w h =
        let o = order.order_id in
        let arm : ℕ → StepTable → StepTable =
          λ now. init_steps o (map compensation compensation_steps) in
        then-Finishes (query deps (λ now db. (get_succeeded_forward_steps o db.steps, db)))
          (λ done. update_steps deps arm >> (skip_steps deps o (idle done) >> undo done force)) w
          (query-Returns deps (λ now db. (get_succeeded_forward_steps o db.steps, db)) w h)
          (λ done u g.
            then-Finishes (update_steps deps arm)
              (λ _. skip_steps deps o (idle done) >> undo done force) u
              (update_steps-Returns deps arm u g)
              (λ _ v g'.
                then-Finishes (skip_steps deps o (idle done)) (λ _. undo done force) v
                  (skip_steps-Returns deps order (idle done) v g')
                  (λ _ x g''. (
                    rollback_status-IsFinal _,
                    run_concurrently-keeps deps order
                        (map compensation (select (is_needed done) compensation_steps)) force x g'',
                  ))))

    save_status-Returns :
        (status : OrderStatus) (clear_lease : Bool) (e : Option Thrown) (w : World R)
        → IsFaultless w
        → Returns deps (save_status deps order.order_id status clear_lease e w)
    unfolding save_status
    save_status-Returns status clear_lease e w h =
        query-Returns deps
          (λ now.
            set_order_status order.order_id deps.instance_id status
              (record { clear_lease = clear_lease; last_error = e }))
          w h

    saved-Finishes :
        (status : OrderStatus) (w : World R)
        → IsFinal status
        → IsFaultless w
        → Finishes ((save_status deps order.order_id status true none >> pure status) w)
    saved-Finishes status w final h =
        then-Finishes (save_status deps order.order_id status true none) (λ _. pure status) w
          (save_status-Returns status true none w h) (λ _ u g. (final, g))

    roll_back-Finishes :
        (force : Bool) (w : World R) → IsFaultless w → Finishes (roll_back deps order force w)
    unfolding roll_back
    roll_back-Finishes force w h =
        Ends-then (λ status u. IsFinal status × IsFaultless u)
          (λ status u. IsFinal status × IsFaultless u) (λ _ _. ⊥) (compensate deps order force)
          (λ status. save_status deps order.order_id status true none >> pure status) w
          (compensate-Finishes force w h) (λ status u g. saved-Finishes status u g.0 g.1)

  conclude-Finishes :
      (order : ClaimedOrder) (os : List StepOutcome) (w : World R)
      → IsFaultless w
      → Finishes order (conclude deps order os w)
  unfolding conclude
  conclude-Finishes order [] w h = saved-Finishes order placed w (inl refl) h
  conclude-Finishes order (o ∷ os) w h =
      then-Finishes order (save_status deps order.order_id compensating false o.error)
        (λ _. roll_back deps (record order { status = compensating }) false) w
        (save_status-Returns order compensating false o.error w h)
        (λ _ u g. roll_back-Finishes (record order { status = compensating }) false u g)

  forward_part : ClaimedOrder → (Step → Option StepStatus) → Exec (World R) OrderStatus
  forward_part order existing = run_steps deps order (pending_steps existing) false >>= λ os.
      conclude deps order (failures os)

  run_forward-Finishes :
      (order : ClaimedOrder) (w : World R)
      → IsFaultless w
      → Finishes order (run_forward deps order w)
  unfolding run_forward forward_part
  run_forward-Finishes order w h =
      let o = order.order_id in
      let arm : ℕ → StepTable → StepTable = λ now. init_steps o (map forward forward_steps) in
      then-Finishes order (update_steps deps arm)
        (λ _. query deps (λ now db. (get_step_statuses o db.steps, db)) >>= forward_part order) w
        (update_steps-Returns deps arm w h)
        (λ _ u g.
          then-Finishes order (query deps (λ now db. (get_step_statuses o db.steps, db)))
            (forward_part order) u
            (query-Returns deps (λ now db. (get_step_statuses o db.steps, db)) u g)
            (λ existing v g'.
              conclude-Finishes order _ _
                (run_concurrently-keeps deps order (pending_steps existing) false v g')))

  stopped :
      (order : ClaimedOrder) (r : Result OrderStatus × World R)
      → Finishes order r
      → Ends (λ status u. IsFinal status × (u.timer ≡ none)) (λ _ _. ⊥) (stop_timer r)
  stopped order (ok s, u) h = (h.0, refl)
  stopped order (err e, u) h = absurd h

  returned :
      {A : Type 0} (P : A → World R → Type 0) (r : Result A × World R)
      → Ends P (λ _ _. ⊥) r
      → (a : A) × (u : World R) × (r ≡ (ok a, u)) × P a u
  returned P (ok a, u) h = (a, u, refl, h)
  returned P (err e, u) h = absurd h

  -- If none of the coordinator's own queries fails, a run ends with PLACED, CANCELLED or
  -- NEEDS_ATTENTION, whatever the services answer, and its heartbeat is stopped.
  pub run_saga-finishes :
      (order : ClaimedOrder) (w : World R)
      → All (λ t. t.fault ≡ none) w.ticks
      → (status : OrderStatus) × (u : World R) × (run_saga deps order w ≡ (ok status, u))
        × (IsFinal status × (u.timer ≡ none))
  unfolding run_saga
  run_saga-finishes order w h =
      let u = record w { timer = some order.order_id } in
      returned (λ status v. IsFinal status × (v.timer ≡ none)) (run_saga deps order w)
        (elim (Bool-cases (status_eq order.status compensating)) [
          | inl resume ↦
              rw resume
                (stopped order (roll_back deps order false u) (roll_back-Finishes order false u h))
          | inr start ↦
              rw start (stopped order (run_forward deps order u) (run_forward-Finishes order u h))
        ])
