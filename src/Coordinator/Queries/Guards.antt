-- ===== src/Coordinator/Queries/Guards.antt =====
-- Proofs about the statements that are guarded by an order's status: the claim for a retry and the
-- shipment.
use order_saga.Prelude.{
  ℕ, ◌+◌, ◌≡◌, refl, String, false, none, some, List, [], ◌∷◌, update_where, count_where,
  count_where-eq-zero, arith, Bool-cases, inl, inr, Bool, true, All, ◌≢◌, ◌⊎◌, eq_iff, ◌==◌, ◌++◌,
  any,
}
use order_saga.Shared.Types.{
  pending, in_progress, placed, shipped, compensating, cancelled, needs_attention, status_eq,
  OrderStatus,
}
use order_saga.Coordinator.Repository.{
  OrderRow, SagaDb, StatusOptions, claimed_status, stamp_claim, claim_batch, renew_lease,
  set_order_status, write_status, is_held,
}
use order_saga.Coordinator.Ingest.{CsvRow, OrderTable, ingested_row, insert_rows, insert_ignore}
use order_saga.Coordinator.Queries.{has_status, claim_for_retry, mark_shipped}

-- An update that moves a row away from the status of its guard leaves none for a second one.
none_left :
    (o : String) (status : OrderStatus) (f : OrderRow → OrderRow) (os : List OrderRow)
    → ((r : OrderRow) → status_eq (f r).status status ≡ false)
    → count_where (has_status o status) (update_where (has_status o status) f os) ≡ 0
none_left o status f [] moves = refl
none_left o status f (r ∷ os) moves = elim (Bool-cases (has_status o status r)) [
  | inl hit ↦ rw (hit, moves r) (ground (arith, none_left o status f os moves))
  | inr miss ↦ rw (miss, miss) (none_left o status f os moves)
]

-- The statements of the coordinators and of an upload on the table of the orders.
pub data OrderStatement : Type 0 where
  claiming : (ℕ → Bool) → ℕ → String → ℕ → ℕ → OrderStatement
  renewing : ℕ → String → String → ℕ → OrderStatement
  writing : String → String → OrderStatus → StatusOptions → OrderStatement
  retrying : ℕ → String → String → ℕ → OrderStatement
  shipping : String → OrderStatement
  loading : String → ℕ → List CsvRow → OrderStatement

unfoldable pub run_statement : OrderStatement → SagaDb → SagaDb
run_statement (claiming locked now i n ttl) db = (claim_batch locked now i n ttl db).1
run_statement (renewing now o i ttl) db = (renew_lease now o i ttl db).1
run_statement (writing o i status options) db = (set_order_status o i status options db).1
run_statement (retrying now o i ttl) db = (claim_for_retry now o i ttl db).1
run_statement (shipping o) db = (mark_shipped o db).1
run_statement (loading batch_id next_id rows) db = record db {
  orders = (insert_rows batch_id rows (record { rows = db.orders; next_id = next_id })).1.rows;
}

unfoldable pub run_statements : List OrderStatement → SagaDb → SagaDb
unfolding run_statement
run_statements [] db = db
run_statements (q ∷ qs) db = run_statements qs (run_statement q db)

-- The statement is not the write of NEEDS_ATTENTION on this order.
abbrev pub LeavesStatus : String → OrderStatement → Type 0
LeavesStatus o (writing o' i status options) = (o ≢ o') ⊎ (status ≢ needs_attention)
LeavesStatus o q = Unit {0}

-- The orders of this id that need attention.
abbrev waiting_count : String → List OrderRow → ℕ
waiting_count o os = count_where (has_status o needs_attention) os

module _ (o : String) where
  update_where-zero :
      (p : OrderRow → Bool) (f : OrderRow → OrderRow) (os : List OrderRow)
      → ((r : OrderRow)
          → p r ≡ true
          → has_status o needs_attention r ≡ false
          → has_status o needs_attention (f r) ≡ false)
      → waiting_count o os ≡ 0
      → waiting_count o (update_where p f os) ≡ 0
  update_where-zero p f [] keeps h = refl
  update_where-zero p f (r ∷ os) keeps h =
      ground (arith, keeps r, update_where-zero p f os keeps, h)

  claimed_status-moved : (s : OrderStatus) → status_eq (claimed_status s) needs_attention ≡ false
  claimed_status-moved pending = refl
  claimed_status-moved in_progress = refl
  claimed_status-moved placed = refl
  claimed_status-moved compensating = refl
  claimed_status-moved cancelled = refl
  claimed_status-moved needs_attention = refl
  claimed_status-moved shipped = refl

  stamp_claim-moved :
      (i : String) (now ttl : ℕ) (r : OrderRow)
      → has_status o needs_attention (stamp_claim i now ttl r) ≡ false
  unfolding stamp_claim
  stamp_claim-moved i now ttl r = ground (arith, claimed_status-moved r.status)

  status_eq-attention : (s : OrderStatus) → status_eq s needs_attention ≡ true → s ≡ needs_attention
  status_eq-attention pending h = absurd (cc)
  status_eq-attention in_progress h = absurd (cc)
  status_eq-attention placed h = absurd (cc)
  status_eq-attention compensating h = absurd (cc)
  status_eq-attention cancelled h = absurd (cc)
  status_eq-attention needs_attention h = refl
  status_eq-attention shipped h = absurd (cc)

  append-zero :
      (r : OrderRow) (os : List OrderRow)
      → has_status o needs_attention r ≡ false
      → waiting_count o os ≡ 0
      → waiting_count o (os ++ r ∷ []) ≡ 0
  append-zero r [] idle h = rw idle refl
  append-zero r (x ∷ os) idle h = ground (arith, idle, h, append-zero r os idle)

  insert_ignore-zero :
      (batch_id : String) (row : CsvRow) (t : OrderTable)
      → waiting_count o t.rows ≡ 0
      → waiting_count o (insert_ignore batch_id row t).1.rows ≡ 0
  unfolding insert_ignore
  insert_ignore-zero batch_id row t h =
      elim (Bool-cases (any (λ r. r.order_id == row.order_id) t.rows)) [
        | inl there ↦ rw there h
        | inr fresh ↦
            rw fresh (append-zero (ingested_row batch_id t.next_id row) t.rows (ground arith) h)
      ]

  insert_rows-zero :
      (batch_id : String) (rows : List CsvRow) (t : OrderTable)
      → waiting_count o t.rows ≡ 0
      → waiting_count o (insert_rows batch_id rows t).1.rows ≡ 0
  unfolding insert_rows
  insert_rows-zero batch_id [] t h = h
  insert_rows-zero batch_id (row ∷ rows) t h =
      insert_rows-zero batch_id rows _ (insert_ignore-zero batch_id row t h)

  written :
      (o' i : String) (status : OrderStatus) (options : StatusOptions) (r : OrderRow)
      → (o ≢ o') ⊎ (status ≢ needs_attention)
      → is_held o' i r ≡ true
      → has_status o needs_attention (write_status status options r) ≡ false
  written o' i status options r (inl other) held =
      ground (arith, eq_iff r.order_id o, eq_iff r.order_id o', held, other)
  written o' i status options r (inr moved) held =
      elim (Bool-cases (status_eq status needs_attention)) [
        | inl same ↦ absurd (moved (status_eq-attention status same))
        | inr not_same ↦ ground (arith, not_same)
      ]

  claim_batch-zero :
      (locked : ℕ → Bool) (now : ℕ) (i : String) (n ttl : ℕ) (db : SagaDb)
      → waiting_count o db.orders ≡ 0
      → waiting_count o (claim_batch locked now i n ttl db).1.orders ≡ 0
  unfolding claim_batch
  claim_batch-zero locked now i n ttl db h =
      update_where-zero _ (stamp_claim i now ttl) db.orders (λ r _ _. stamp_claim-moved i now ttl r)
        h

  run_statement-zero :
      (q : OrderStatement) (db : SagaDb)
      → LeavesStatus o q
      → waiting_count o db.orders ≡ 0
      → waiting_count o (run_statement q db).orders ≡ 0
  unfolding run_statement
  run_statement-zero (claiming locked now i n ttl) db quiet h =
      claim_batch-zero locked now i n ttl db h
  run_statement-zero (renewing now o' i ttl) db quiet h =
      unfold renew_lease in
      update_where-zero (is_held o' i) (λ r. record r { lease_expires_at = some (now + ttl) })
        db.orders (λ r _ k. k) h
  run_statement-zero (writing o' i status options) db quiet h =
      unfold set_order_status in
      update_where-zero (is_held o' i) (write_status status options) db.orders
        (λ r held _. written o' i status options r quiet held) h
  run_statement-zero (retrying now o' i ttl) db quiet h =
      unfold claim_for_retry in
      update_where-zero (has_status o' needs_attention)
        (λ r. record r {
          status = compensating;
          lease_owner = some i;
          lease_expires_at = some (now + ttl);
        })
        db.orders (λ r _ _. ground arith) h
  run_statement-zero (shipping o') db quiet h =
      unfold mark_shipped in
      update_where-zero (has_status o' placed) (λ r. record r { status = shipped }) db.orders
        (λ r _ _. ground arith) h
  run_statement-zero (loading batch_id next_id rows) db quiet h = insert_rows-zero batch_id rows _ h

  run_statements-zero :
      (qs : List OrderStatement) (db : SagaDb)
      → All (LeavesStatus o) qs
      → waiting_count o db.orders ≡ 0
      → waiting_count o (run_statements qs db).orders ≡ 0
  unfolding run_statements
  run_statements-zero [] db quiet h = h
  run_statements-zero (q ∷ qs) db quiet h =
      run_statements-zero qs (run_statement q db) quiet.1 (run_statement-zero q db quiet.0 h)

  nothing_to_claim :
      (later : ℕ) (i : String) (ttl : ℕ) (db : SagaDb)
      → waiting_count o db.orders ≡ 0
      → claim_for_retry later o i ttl db ≡ (none, db)
  unfolding claim_for_retry
  nothing_to_claim later i ttl db h =
      rw (h, count_where-eq-zero (has_status o needs_attention) _ db.orders h) refl

-- After a claim of an order for a retry, and after whatever claims of batches, renewals, status
-- writes, further retries, shipments and loads come next, in any order and by any instance, as long as
-- none of them writes NEEDS_ATTENTION on that order: a claim of it for a retry gets nothing and
-- changes nothing.
pub claim_for_retry-once :
    (now later ttl ttl' : ℕ) (o i i' : String) (db : SagaDb) (between : List OrderStatement)
    → All (LeavesStatus o) between
    → let after = run_statements between (claim_for_retry now o i ttl db).1 in
      claim_for_retry later o i' ttl' after ≡ (none, after)
claim_for_retry-once now later ttl ttl' o i i' db between quiet =
    let first : waiting_count o (claim_for_retry now o i ttl db).1.orders ≡ 0 =
      unfold claim_for_retry in none_left o needs_attention _ db.orders (λ r. refl) in
    nothing_to_claim o later i' ttl' _ (run_statements-zero o between _ quiet first)
