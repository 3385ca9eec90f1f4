-- ===== src/Examples/Calls.antt =====
-- Retries, transactions and idempotent calls at concrete values.
use order_saga.Prelude.{
  ℕ, ltb, if◌then◌else◌, ◌+◌, ◌≤◌, ◌≡◌, ◌≢◌, refl, ◌⊎◌, ◌↔◌, arith, pos, String, true, false, none,
  some, [], ◌∷◌,
}
use order_saga.Shared.Types.{
  forward, create_order, charge_payment, Data, flag, StepRequestBody, idempotency_key,
}
use order_saga.Shared.Types.Laws.{idempotency_key_inj}
use order_saga.Shared.Errors.{
  Thrown, http_error, injected_failure, business_rule, operation_in_progress, is_retryable_error,
}
use order_saga.Shared.Exec.{ok, err, Ends}
use order_saga.Shared.Retry.{with_retry}
use order_saga.Shared.Retry.Bounds.{with_retry-calls}
use order_saga.Shared.Db.{Connection, is_deadlock_error, with_transaction}
use order_saga.Shared.Db.Atomicity.{with_transaction-Atomic}
use order_saga.Shared.Cache.{cache_get}
use order_saga.Shared.Idempotency.{
  IdempotentResult, new_record, default_options, no_faults, run_idempotent, stale_seconds,
}
use order_saga.Shared.Idempotency.Outcome.{stored_response}
use order_saga.Shared.Idempotency.Growth.{IsCacheSound}
use order_saga.Shared.Idempotency.Replay.{run_idempotent-IsCacheSound}
use order_saga.Shared.Idempotency.Retries.{retry_calls, retry_calls-at_most_once}
use order_saga.Shared.Idempotency.Progress.{failed_work, held_key}
use order_saga.Shared.Service.{
  error_middleware, object, RawBody, js_string, js_null, js_number, js_bool, register_step, failure,
  respond, validate_body,
}
use order_saga.Shared.Service.Statuses.{middleware_retry}
use order_saga.Shared.Service.Injection.{IsFailing, register_step-injection}
use order_saga.Examples.Values.{
  o_1, charge_key, count_up, fail_work, deadlock, fresh, taken, claimed_row, lost_commit,
  counted_call, counted_options,
}

fresh-IsCacheSound : IsCacheSound fresh
unfolding cache_get
fresh-IsCacheSound = record { hits = λ k d h. absurd (cc) }

retry_calls-at_most_once_example :
    let t =
      retry_calls charge_key default_options count_up
        ((lost_commit, 10) ∷ (no_faults, 10) ∷ [])
        fresh in
    ((t.domain ≡ 0)
      × (stored_response "o-1:CHARGE_PAYMENT" t ≡ stored_response "o-1:CHARGE_PAYMENT" fresh))
    ⊎ ((stored_response "o-1:CHARGE_PAYMENT" fresh ≡ none)
        × ((r : Data) × (count_up 0 ≡ (ok r, t.domain))
            × (stored_response "o-1:CHARGE_PAYMENT" t ≡ some r)))
retry_calls-at_most_once_example =
    retry_calls-at_most_once charge_key default_options count_up
      ((lost_commit, 10) ∷ (no_faults, 10) ∷ []) fresh fresh-IsCacheSound

run_idempotent-IsCacheSound_example :
    IsCacheSound (run_idempotent charge_key default_options lost_commit count_up fresh).1
    × ((key : String) (d : Data)
        → stored_response key fresh ≡ some d
        → stored_response key
            (run_idempotent charge_key default_options lost_commit count_up fresh).1
          ≡ some d)
run_idempotent-IsCacheSound_example =
    run_idempotent-IsCacheSound charge_key default_options lost_commit count_up fresh
      fresh-IsCacheSound

failed_work_example :
    let call = run_idempotent charge_key default_options lost_commit fail_work fresh in
    let calm = run_idempotent charge_key default_options no_faults fail_work fresh in
    let kept =
      run_idempotent charge_key default_options
        (record no_faults { release = some deadlock })
        fail_work
        fresh in
    ((r : IdempotentResult) → call.0 ≢ ok r)
    × (call.1.domain ≡ 0)
    × (stored_response "o-1:CHARGE_PAYMENT" call.1 ≡ none)
    × (calm.0 ≡ err deadlock)
    × (calm.1.records "o-1:CHARGE_PAYMENT" ≡ none)
    × (kept.0 ≡ err deadlock)
    × (kept.1.records "o-1:CHARGE_PAYMENT" ≡ some (new_record charge_key 100))
unfolding cache_get
failed_work_example =
    failed_work charge_key default_options fail_work fresh refl deadlock deadlock 1 lost_commit refl
      refl

-- The claim of time 50 is stale after 60050.
held_key_example :
    let broken = record no_faults { read = some deadlock } in
    let late =
      run_idempotent charge_key default_options no_faults count_up
        (record taken { clock = 60051 }) in
    ((e : Thrown) × (run_idempotent charge_key default_options broken count_up taken
        ≡ (err e, taken)))
    × (run_idempotent charge_key default_options no_faults count_up taken
        ≡ (err (operation_in_progress "o-1:CHARGE_PAYMENT"), taken))
    × (late.0 ≡ ok (record { result = ("done", flag true) ∷ []; replayed = false }))
    × (late.1.domain ≡ 1)
unfolding cache_get stale_seconds
held_key_example =
    held_key charge_key default_options count_up taken refl claimed_row
      (record no_faults { read = some deadlock }) 60051 (("done", flag true) ∷ []) 1 refl refl
      (omega arith) (omega arith) refl refl

with_retry-calls_example : (with_retry counted_call counted_options 0).1 ≤ 0 + 3
with_retry-calls_example =
    with_retry-calls counted_call counted_options (λ n. n) (λ n s. omega arith) (λ i s. omega arith)
      (λ n s. omega arith) (λ s. omega arith) 0

-- The first two attempts meet a deadlock, the third commits.
abbrev busy : ℕ → Connection
busy n = record {
  connect = none;
  begin = none;
  commit = if ltb n 3 then some deadlock else none;
  commit_applied = false;
}

busy-rolled_back :
    (n : ℕ) (e : Thrown)
    → (busy n).commit ≡ some e
    → (busy n).commit_applied ≡ true
    → is_deadlock_error e ≡ false
busy-rolled_back n e h k = absurd (cc)

with_transaction-Atomic_example :
    Ends
      (λ a t. count_up 0 ≡ (ok a, t))
      (λ _ t. (t ≡ 0) ⊎ ((a : Data) × (count_up 0 ≡ (ok a, t))))
      (with_transaction count_up 3 busy 0)
with_transaction-Atomic_example = with_transaction-Atomic count_up busy busy-rolled_back 3 0

idempotency_key_inj_example :
    (◌≡◌ {A = String} "o-1" "o-1") × (forward charge_payment ≡ forward charge_payment)
idempotency_key_inj_example =
    idempotency_key_inj "o-1" "o-1" (forward charge_payment) (forward charge_payment) refl

middleware_retry_example :
    (is_retryable_error (http_error (error_middleware (business_rule "no stock")).status "")
      ≡ false)
    ↔ ((m : String) × (business_rule "no stock" ≡ business_rule m))
middleware_retry_example = middleware_retry (business_rule "no stock") ""

abbrev raw : RawBody
raw = record {
  order_id = js_string "o-1";
  sku = js_string "sku-1";
  qty = js_number (pos 2) "2";
  amount = js_string "10.00";
  fail_at = js_string "CREATE_ORDER";
  comp_fail_at = js_null;
  force = js_bool false;
}

-- The step that the request names.
abbrev named : StepRequestBody
named = record o_1 { fail_at = some "CREATE_ORDER" }

register_step-injection_example :
    (IsFailing (forward create_order) named
      × (register_step (forward create_order) (λ _. count_up) no_faults (object raw) fresh ≡ (
        record {
          status = 500;
          content = failure (injected_failure (forward create_order)) "INJECTED_FAILURE";
        },
        fresh,
      )))
    ⊎ ((¬ IsFailing (forward create_order) named)
        × (register_step (forward create_order) (λ _. count_up) no_faults (object raw) fresh
            ≡ respond (forward create_order) "o-1" (
                run_idempotent
                  (record {
                    key = idempotency_key "o-1" (forward create_order);
                    operation = forward create_order;
                    order_id = "o-1";
                  })
                  default_options
                  no_faults
                  count_up
                  fresh)))
unfolding validate_body
register_step-injection_example =
    register_step-injection (forward create_order) (λ _. count_up) no_faults (object raw) named
      fresh refl
