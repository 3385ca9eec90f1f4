-- ===== src/Examples/Values.antt =====
-- The requests, tables and platforms that the examples use.
use order_saga.Prelude.{ℕ, suc, ◌+◌, pos, true, false, none, some, List, [], ◌∷◌}
use order_saga.Shared.Types.{
  forward, charge_payment, StepRequestBody, Data, flag, pending, in_progress, OrderStatus,
}
use order_saga.Shared.Errors.{Thrown, driver_error}
use order_saga.Shared.Exec.{Exec, ok, err}
use order_saga.Shared.Retry.{RetryOptions}
use order_saga.Shared.Http.{Platform}
use order_saga.Shared.Cache.{null_cache}
use order_saga.Shared.Idempotency.{
  Service, IdempotencyContext, IdempotencyRecord, claimed, Faults, no_faults,
}
use order_saga.Coordinator.Repository.{OrderRow, SagaDb, ClaimedOrder}
use order_saga.Coordinator.Saga.{World, SagaDeps}

abbrev pub o_1 : StepRequestBody
o_1 = record {
  order_id = "o-1";
  sku = "sku-1";
  qty = pos 2;
  amount = "10.00";
  fail_at = none;
  comp_fail_at = none;
  force = false;
}

abbrev pub charge_key : IdempotencyContext
charge_key = record {
  key = "o-1:CHARGE_PAYMENT";
  operation = forward charge_payment;
  order_id = "o-1";
}

-- The work counts how often it is done.
abbrev pub count_up : Exec ℕ Data
count_up n = (ok (("done", flag true) ∷ []), suc n)

abbrev pub deadlock : Thrown
deadlock = driver_error "Deadlock found" "ER_LOCK_DEADLOCK" 1213

abbrev pub fail_work : Exec ℕ Data
fail_work n = (err deadlock, suc n)

abbrev pub fresh : Service ℕ
fresh = record { records = λ _. none; domain = 0; cache = null_cache; clock = 100 }

abbrev pub claimed_row : IdempotencyRecord
claimed_row = record {
  idempotency_key = "o-1:CHARGE_PAYMENT";
  operation = forward charge_payment;
  order_id = "o-1";
  status = claimed;
  created_at = 50;
  completed_at = none;
}

abbrev pub taken : Service ℕ
taken = record fresh { records = λ _. some claimed_row }

-- A commit that was applied but answered with an error.
abbrev pub lost_commit : Faults
lost_commit = record no_faults { commit = some deadlock; commit_applied = true }

-- A retried call that counts and always fails.
abbrev pub counted_call : ℕ → Exec ℕ ℕ
counted_call n s = (err deadlock, s + 1)

abbrev pub counted_options : RetryOptions ℕ
counted_options = record {
  max_attempts = 3;
  base_delay_ms = 10;
  max_delay_ms = 100;
  is_retryable = λ _. true;
  on_attempt = λ _ s. (ok tt, s);
  sleep = λ _ s. (ok tt, s);
  random = λ s. (ok (record { numerator = 1; denominator = 2 }), s);
  now = λ s. s;
}

abbrev pub row_1 : OrderRow
row_1 = record {
  id = 1;
  order_id = "o-1";
  sku = "sku-1";
  qty = pos 2;
  amount = "10.00";
  fail_at = none;
  comp_fail_at = none;
  status = pending;
  attempt_count = 0;
  lease_owner = none;
  lease_expires_at = none;
  last_error = none;
  source_batch = none;
}

abbrev pub held_row : OrderRow
held_row = record row_1 { status = in_progress; lease_owner = some "a"; lease_expires_at = some 90 }

abbrev pub db_of : List OrderRow → SagaDb
db_of rows = record { orders = rows; steps = λ _ _. none; attempts = [] }

abbrev pub order_1 : OrderStatus → ClaimedOrder
order_1 status = record {
  id = 1;
  order_id = "o-1";
  sku = "sku-1";
  qty = pos 2;
  amount = "10.00";
  fail_at = none;
  comp_fail_at = none;
  status = status;
}

-- A platform on which the services answer every request with one status.
abbrev pub answering : ℕ → Platform ℕ
answering status = record {
  fetch = λ r n. (
    ok (record {
      status = status;
      json = ok (record {
        operation = forward charge_payment;
        order_id = "o-1";
        replayed = false;
        response_data = [];
      });
    }),
    suc n,
  );
  sleep = λ _ n. (ok tt, n);
  random = λ n. (ok (record { numerator = 0; denominator = 1 }), n);
  now = λ n. n;
}

abbrev pub instance_a : ℕ → SagaDeps ℕ
instance_a status = record {
  platform = answering status;
  instance_id = "a";
  service_urls = λ _. "http://localhost";
  step = record { timeout_ms = 100; max_attempts = 2; base_delay_ms = 1; max_delay_ms = 4 };
  lease_ttl_ms = 30;
}

-- The heartbeat fires once, and no query fails.
abbrev pub quiet : World ℕ
quiet = record {
  db = db_of (held_row ∷ []);
  clock = 80;
  ticks = record { elapsed_ms = 5; heartbeat = true; fault = none } ∷ [];
  timer = none;
  attempts = 0;
  remote = 0;
}
