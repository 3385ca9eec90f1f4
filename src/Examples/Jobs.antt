-- ===== src/Examples/Jobs.antt =====
-- The load, the API's writes, shipments and notifications at concrete values.
use order_saga.Prelude.{
  ◌+◌, ◌≡◌, ◌⊎◌, ◌++◌, ℕ, nat_eq, Option, refl, pos, true, false, store, List, inl, inr, arith,
  eq_iff, ◌==◌, if◌then◌else◌, none, some, [], ◌∷◌,
}
use order_saga.Shared.Types.{text, needs_attention}
use order_saga.Shared.Types
use order_saga.Shared.Exec.{ok, err}
use order_saga.Shared.Errors.{Thrown}
use order_saga.Services.Shipping.{
  Shipments, created, cancelled, tracking_number, create_shipment_handler, cancel_shipment_handler,
}
use order_saga.Services.Shipping.Lifecycle.{shipment_of, shipment_reply, cancel_shipment-create}
use order_saga.Coordinator.Ingest.{CsvRow, OrderTable, BatchFault, insert_rows, ingest_orders}
use order_saga.Coordinator.Ingest.Batches.{counts, ingest_orders-flush}
use order_saga.Coordinator.Queries.{claim_for_retry}
use order_saga.Coordinator.Queries.Guards.{
  OrderStatement, writing, claiming, retrying, loading, run_statements, claim_for_retry-once,
}
use order_saga.Notification.{NotificationRow, NotifierDeps, JobFaults, sent}
use order_saga.Examples.Values.{deadlock, o_1, row_1, db_of}

-- The table has another order's shipment.
abbrev shipped_2 : Shipments
shipped_2 = store "o-2" (shipment_of o_1 created) (λ _. none)

cancel_shipment-create_example :
    let creation = create_shipment_handler none o_1 shipped_2 in
    let cancellation = cancel_shipment_handler none o_1 creation.1 in
    (creation ≡ (
      ok (
          ("orderId", text "o-1")
          ∷ ("trackingNo", text (tracking_number "o-1"))
          ∷ ("status", text "CREATED")
          ∷ []),
      store "o-1" (shipment_of o_1 created) shipped_2,
    ))
    × (cancellation ≡ (shipment_reply o_1 true, store "o-1" (shipment_of o_1 cancelled) shipped_2))
    × (cancel_shipment_handler none o_1 cancellation.1 ≡ (shipment_reply o_1 false, cancellation.1))
cancel_shipment-create_example = cancel_shipment-create o_1 shipped_2 refl

abbrev csv_1 : CsvRow
csv_1 = record {
  order_id = "o-1";
  sku = "sku-1";
  qty = pos 2;
  amount = "10.00";
  fail_at = "";
  comp_fail_at = "CANCEL_ORDER";
}

abbrev csv_2 : CsvRow
csv_2 = record csv_1 { order_id = "o-2" }

abbrev no_orders : OrderTable
no_orders = record { rows = []; next_id = 1 }

-- The batch that is sent after two rows is applied and throws.
abbrev lost_batch : ℕ → Option BatchFault
lost_batch read = if nat_eq read 2 then some (record { error = deadlock; applied = true }) else none

abbrev file : List CsvRow
file = csv_1 ∷ csv_2 ∷ csv_1 ∷ []

ingest_orders-flush_example :
    let load = ingest_orders lost_batch "b" 2 file no_orders in
    let all = insert_rows "b" file no_orders in
    let result = counts 3 all.0 in
    (ingest_orders (λ _. none) "b" 2 file no_orders ≡ (ok result, all.1))
    × (result.rows_inserted + result.rows_skipped ≡ result.rows_read)
    × ((load ≡ (ok result, all.1))
        ⊎ ((e : Thrown) × (p : List CsvRow) × (q : List CsvRow) × (p ++ q ≡ file)
            × (load ≡ (err e, (insert_rows "b" p no_orders).1))))
ingest_orders-flush_example = ingest_orders-flush lost_batch "b" 2 file no_orders

-- The rollback of another instance ends, the batch claims and another retry come in between.
abbrev meanwhile : List OrderStatement
meanwhile =
    writing "o-1" "a" Types.cancelled (record { clear_lease = true; last_error = none })
    ∷ claiming (λ _. false) 20 "b" 5 30
    ∷ retrying 21 "o-1" "c" 30
    ∷ loading "b" 9 (csv_1 ∷ csv_2 ∷ [])
    ∷ writing "o-2" "b" needs_attention (record { clear_lease = true; last_error = none })
    ∷ []

claim_for_retry-once_example :
    let after =
      run_statements meanwhile
        (claim_for_retry 10 "o-1" "a" 30
          (db_of (record row_1 { status = needs_attention } ∷ []))).1 in
    claim_for_retry 31 "o-1" "b" 30 after ≡ (none, after)
claim_for_retry-once_example =
    claim_for_retry-once 10 31 30 30 "o-1" "a" "b"
      (db_of (record row_1 { status = needs_attention } ∷ [])) meanwhile
      (
        inr (λ e. absurd (cc)),
        (tt, (tt, (tt, (inl (λ e. absurd (ground (arith, eq_iff "o-1" "o-2", e))), tt)))),
      )

abbrev told : NotificationRow
told = record {
  order_id = "o-1";
  status = sent;
  claimed_by = some "n";
  claimed_at = some 5;
  sent_at = some 6;
  attempts = 1;
}

abbrev notifier : NotifierDeps
notifier = record { instance_id = "n"; batch_size = 10; stale_ms = 1000 }

-- The claim of the second order and the send of the third throw, of which the first was applied.
abbrev unreliable : JobFaults
unreliable = record {
  takeover = none;
  read = none;
  claim = λ o. if o == "o-2" then some (record { error = deadlock; applied = true }) else none;
  send = λ o. if o == "o-3" then some (record { error = deadlock; applied = false }) else none;
}
