-- ===== src/Examples/Sagas.antt =====
-- Claims, leases and whole sagas at concrete orders.
use order_saga.Prelude.{
  ℕ, eq_iff, ◌==◌, ◌≡◌, ◌≢◌, refl, ◌≤◌, arith, String, Bool, ◌+◌, true, false, none, some, [], ◌∷◌,
  All, length,
}
use order_saga.Shared.Types.{
  ForwardStep, forward, OrderStatus, pending, compensating, placed, cancelled, succeeded,
  compensation_of,
}
use order_saga.Shared.Exec.{ok}
use order_saga.Shared.Errors.{is_retryable_error}
use order_saga.Shared.Retry.{with_retry}
use order_saga.Shared.Http.{call_step}
use order_saga.Coordinator.Repository.{
  OrderRow, SagaDb, to_claimed_order, claim_batch, set_order_status, renew_lease, init_steps,
  get_succeeded_forward_steps, mark_step_result, mark_step_running, get_step_statuses,
}
use order_saga.Coordinator.Repository.Claims.{
  IsIn, IsFree, IsStamped, is_among, claim_batch-disjoint, claim_batch_sound,
}
use order_saga.Coordinator.Repository.Leases.{final_write, stolen_lease}
use order_saga.Coordinator.Saga.{World, run_saga, retry_compensation}
use order_saga.Coordinator.Saga.Undoing.{IsUndone}
use order_saga.Coordinator.Saga.Runs.{
  run_saga-placed, run_saga-cancelled, retry_compensation-cancelled,
}
use order_saga.Coordinator.Saga.Completion.{IsFinal, run_saga-finishes}
use order_saga.Examples.Values.{row_1, held_row, db_of, order_1, instance_a, quiet}

claim_batch-disjoint_example :
    All
      (λ c.
        is_among (claim_batch (λ _. false) 100 "a" 5 30 (db_of (row_1 ∷ held_row ∷ []))).0 c.id
        ≡ false)
      (claim_batch
        (λ _. false)
        120
        "b"
        9
        30
        (claim_batch (λ _. false) 100 "a" 5 30 (db_of (row_1 ∷ held_row ∷ []))).1).0
claim_batch-disjoint_example =
    claim_batch-disjoint (λ _. false) (λ _. false) 100 120 "a" "b" 5 9 30 30
      (db_of (row_1 ∷ held_row ∷ [])) (omega arith)

-- Of the second order the lease is over, of the third it is not.
abbrev mixed : SagaDb
mixed = db_of (
    row_1
    ∷ record held_row { lease_expires_at = some 90 }
    ∷ record held_row { id = 7; lease_expires_at = some 110 }
    ∷ [])

claim_batch_sound_example :
    let claim = claim_batch (λ _. false) 100 "a" 3 30 mixed in
    (length claim.0 ≤ 3)
    × All
        (λ c.
          (r : OrderRow) × IsIn r mixed.orders
          × (c ≡ to_claimed_order r)
          × (◌≡◌ {A = Bool} false false)
          × IsFree 100 r)
        claim.0
    × All (λ r. is_among claim.0 r.id ≡ true → IsStamped "a" (100 + 30) r) claim.1.orders
claim_batch_sound_example = claim_batch_sound (λ _. false) 100 "a" 3 30 mixed

final_write_example :
    let after =
      (set_order_status "o-1" "a" placed
        (record { clear_lease = true; last_error = none })
        (db_of (held_row ∷ []))).1 in
    (set_order_status "o-1" "a" cancelled (record { clear_lease = true; last_error = none }) after
      ≡ (false, after))
    × (renew_lease 80 "o-1" "a" 30 after ≡ (false, after))
final_write_example =
    final_write "o-1" "a" placed cancelled 80 30 (record { clear_lease = true; last_error = none })
      (record { clear_lease = true; last_error = none }) (db_of (held_row ∷ [])) refl

a_not_b : ◌≢◌ {A = String} "a" "b"
a_not_b h = no_way ((eq_iff "a" "b").1 h)
  where
    no_way : ("a" == "b") ≢ true
    no_way e = absurd (cc)

stolen_lease_example :
    let after = (claim_batch (λ _. false) 100 "b" 5 30 (db_of (held_row ∷ []))).1 in
    (set_order_status "o-1" "a" placed (record { clear_lease = true; last_error = none }) after
      ≡ (false, after))
    × (renew_lease 110 "o-1" "a" 30 after ≡ (false, after))
unfolding claim_batch
stolen_lease_example =
    stolen_lease (λ _. false) "o-1" "a" "b" 100 110 5 30 placed
      (record { clear_lease = true; last_error = none }) (db_of (held_row ∷ [])) a_not_b
      (λ _. refl, tt)

abbrev placed_world : World ℕ
placed_world = (run_saga (instance_a 200) (order_1 pending) quiet).1

run_saga-placed_example :
    get_step_statuses "o-1" placed_world.db.steps (forward ForwardStep.charge_payment)
    ≡ some succeeded
unfolding run_saga get_step_statuses init_steps renew_lease call_step with_retry
run_saga-placed_example =
    run_saga-placed (instance_a 200) (order_1 pending) quiet placed_world refl
      ForwardStep.charge_payment

abbrev cancelled_world : World ℕ
cancelled_world = (run_saga (instance_a 422) (order_1 pending) quiet).1

run_saga-cancelled_example : IsUndone "o-1" cancelled_world.db.steps
unfolding run_saga get_step_statuses init_steps renew_lease call_step with_retry is_retryable_error
    get_succeeded_forward_steps set_order_status mark_step_result mark_step_running
run_saga-cancelled_example =
    run_saga-cancelled (instance_a 422) (order_1 pending) quiet cancelled_world refl

-- All four steps are done when the rollback starts.
abbrev retried_world : World ℕ
retried_world = (retry_compensation (instance_a 200) (order_1 compensating) placed_world).1

retry_compensation-cancelled_example : IsUndone "o-1" retried_world.db.steps
unfolding run_saga retry_compensation get_step_statuses init_steps renew_lease call_step with_retry
    is_retryable_error get_succeeded_forward_steps set_order_status mark_step_result
    mark_step_running compensation_of
retry_compensation-cancelled_example =
    retry_compensation-cancelled (instance_a 200) (order_1 compensating) placed_world retried_world
      refl

run_saga-finishes_example :
    (status : OrderStatus) × (u : World ℕ) × (run_saga (instance_a 503) (order_1 pending) quiet
      ≡ (ok status, u))
    × (IsFinal status × (u.timer ≡ none))
run_saga-finishes_example = run_saga-finishes (instance_a 503) (order_1 pending) quiet (refl, tt)
