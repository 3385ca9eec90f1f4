-- ===== src/Coordinator/Ingest.antt =====
-- The load of the orders' file (services/coordinator/src/ingest.ts). The rows are what the CSV
-- parser gives, the quantity already as the number that `Number` makes of it. A row that is ignored
-- uses no id here.
pub mod Rows
pub mod Batches
use order_saga.Prelude.{
  ℕ, suc, ◌+◌, ◌-◌, ℤ, String, Bool, true, false, Option, none, some, List, [], ◌∷◌, ◌++◌, length,
  any, leb, ◌==◌, if◌then◌else◌,
}
use order_saga.Shared.Types.{pending}
use order_saga.Shared.Errors.{Thrown}
use order_saga.Shared.Exec.{ok, err, Exec, continue}
use order_saga.Coordinator.Repository.{OrderRow}

pub record CsvRow : Type 0 where
  pub order_id : String
  pub sku : String
  pub qty : ℤ
  pub amount : String
  pub fail_at : String
  pub comp_fail_at : String

-- `saga_orders` and its next id.
pub record OrderTable : Type 0 where
  pub rows : List OrderRow
  pub next_id : ℕ

pub record IngestResult : Type 0 where
  pub rows_read : ℕ
  pub rows_inserted : ℕ
  pub rows_skipped : ℕ

-- `text || null`
abbrev pub text_or_null : String → Option String
text_or_null s = if s == "" then none else some s

abbrev pub ingested_row : String → ℕ → CsvRow → OrderRow
ingested_row batch_id id row = record {
  id = id;
  order_id = row.order_id;
  sku = row.sku;
  qty = row.qty;
  amount = row.amount;
  fail_at = text_or_null row.fail_at;
  comp_fail_at = text_or_null row.comp_fail_at;
  status = pending;
  attempt_count = 0;
  lease_owner = none;
  lease_expires_at = none;
  last_error = none;
  source_batch = some batch_id;
}

-- `INSERT IGNORE` of one row, with the number of rows inserted.
unfoldable pub insert_ignore : String → CsvRow → OrderTable → ℕ × OrderTable
insert_ignore batch_id row t = if any (λ r. r.order_id == row.order_id) t.rows then (0, t) else (
  1,
  record { rows = t.rows ++ ingested_row batch_id t.next_id row ∷ []; next_id = suc t.next_id },
)

-- The rows of one statement, with the number of rows inserted.
unfoldable pub insert_rows : String → List CsvRow → OrderTable → ℕ × OrderTable
unfolding insert_ignore
insert_rows batch_id [] t = (0, t)
insert_rows batch_id (row ∷ batch) t =
    let first = insert_ignore batch_id row t in
    let rest = insert_rows batch_id batch first.1 in (first.0 + rest.0, rest.1)

-- A statement that throws, and whether the database has applied it nevertheless.
pub record BatchFault : Type 0 where
  pub error : Thrown
  pub applied : Bool

-- An empty batch makes no query.
unfoldable pub flush : Option BatchFault → String → List CsvRow → Exec OrderTable ℕ
unfolding insert_rows
flush fault batch_id [] t = (ok 0, t)
flush none batch_id (row ∷ batch) t =
    (ok (insert_rows batch_id (row ∷ batch) t).0, (insert_rows batch_id (row ∷ batch) t).1)
flush (some f) batch_id (row ∷ batch) t =
    (err f.error, if f.applied then (insert_rows batch_id (row ∷ batch) t).1 else t)

-- The end of the load, with the rows read and those that the last batch has inserted.
abbrev pub report : ℕ → ℕ → ℕ → Exec OrderTable IngestResult
report read inserted last t = (
  ok (record {
    rows_read = read;
    rows_inserted = inserted + last;
    rows_skipped = read - (inserted + last);
  }),
  t,
)

-- The loop over the parser's rows and the flush after it, with what has been counted before. `faults`
-- gives the fault of the batch that is sent after so many rows are read; one that throws ends the load.
unfoldable pub ingest_loop :
    (ℕ → Option BatchFault)
    → String
    → ℕ
    → List CsvRow
    → List CsvRow
    → ℕ
    → ℕ
    → Exec OrderTable IngestResult
unfolding flush
ingest_loop faults batch_id batch_size [] batch read inserted t =
    continue (report read inserted) (flush (faults read) batch_id batch t)
ingest_loop faults batch_id batch_size (row ∷ rows) batch read inserted t =
    let full = batch ++ row ∷ [] in
    let after =
      continue (λ n. ingest_loop faults batch_id batch_size rows [] (suc read) (inserted + n))
        (flush (faults (suc read)) batch_id full t) in
    let filling = ingest_loop faults batch_id batch_size rows full (suc read) inserted t in
    if leb batch_size (length full) then after else filling

unfoldable pub ingest_orders :
    (ℕ → Option BatchFault) → String → ℕ → List CsvRow → Exec OrderTable IngestResult
unfolding ingest_loop
ingest_orders faults batch_id batch_size rows = ingest_loop faults batch_id batch_size rows [] 0 0
