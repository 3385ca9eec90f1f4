-- ===== src/Coordinator/Ingest/Batches.antt =====
-- Proofs about the loop over the batches of a load.
use order_saga.Prelude.{
  ℕ, suc, ◌+◌, ◌-◌, ◌≡◌, refl, sym, ◌∙◌, ap, String, List, [], ◌∷◌, ◌++◌, length, leb,
  either_branch, arith, subst, ◌⊎◌, inl, inr, Option, none, some, Bool-cases,
}
use order_saga.Shared.Errors.{Thrown}
use order_saga.Shared.Exec.{Result, ok, err, Exec, continue}
use order_saga.Coordinator.Ingest.Rows.{
  add_assoc, zero_add, append_assoc, append_row, insert_rows-append, insert_rows-le,
}
use order_saga.Coordinator.Ingest.{
  CsvRow, OrderTable, IngestResult, BatchFault, insert_rows, report, flush, ingest_loop,
  ingest_orders,
}

-- The counts of a load that read so many rows and inserted so many of them.
abbrev pub counts : ℕ → ℕ → IngestResult
counts read inserted = record {
  rows_read = read;
  rows_inserted = inserted;
  rows_skipped = read - inserted;
}

abbrev total : ℕ → ℕ → ℕ × OrderTable → IngestResult × OrderTable
total read inserted f = (counts read (inserted + f.0), f.1)

read_one : (read n : ℕ) → suc read + n ≡ read + suc n
read_one read n = omega arith

flushed_twice :
    (i : String) (read inserted : ℕ) (full rows : List CsvRow) (t : OrderTable)
    → total read (inserted + (insert_rows i full t).0) (insert_rows i rows (insert_rows i full t).1)
      ≡ total read inserted (insert_rows i (full ++ rows) t)
flushed_twice i read inserted full rows t = rw (insert_rows-append i full rows t) (
    ap (λ n. (counts read n, (insert_rows i rows (insert_rows i full t).1).1))
      (add_assoc inserted (insert_rows i full t).0 (insert_rows i rows (insert_rows i full t).1).0))

add_zero : (a : ℕ) → a + 0 ≡ a
add_zero a = omega arith

-- What one flush leaves: the batch, or an error and the batch or nothing.
FlushEnds : String → List CsvRow → OrderTable → Result ℕ × OrderTable → Type 0
FlushEnds i batch t (ok n, u) = (n, u) ≡ insert_rows i batch t
FlushEnds i batch t (err e, u) = (u ≡ t) ⊎ (u ≡ (insert_rows i batch t).1)

flush-FlushEnds :
    (fault : Option BatchFault) (i : String) (batch : List CsvRow) (t : OrderTable)
    → FlushEnds i batch t (flush fault i batch t)
unfolding flush insert_rows FlushEnds
flush-FlushEnds fault i [] t = refl
flush-FlushEnds none i (row ∷ batch) t = refl
flush-FlushEnds (some f) i (row ∷ batch) t = elim (Bool-cases f.applied) [
  | inl there ↦ inr (rw there refl)
  | inr lost ↦ inl (rw lost refl)
]

-- What a load of these rows leaves, when so many were read and inserted before: all of them, or an
-- error and a first part of them.
LoadEnds : String → ℕ → ℕ → List CsvRow → OrderTable → Result IngestResult × OrderTable → Type 0
LoadEnds i read inserted rows t (ok c, u) = (c, u) ≡ total read inserted (insert_rows i rows t)
LoadEnds i read inserted rows t (err e, u) =
    (p : List CsvRow) × (q : List CsvRow) × (p ++ q ≡ rows) × (u ≡ (insert_rows i p t).1)

module _ (i : String) (read inserted : ℕ) (full rows : List CsvRow) (t : OrderTable) where
  -- A load that goes on after a batch.
  goes_on :
      (r : Result IngestResult × OrderTable)
      → LoadEnds i read (inserted + (insert_rows i full t).0) rows (insert_rows i full t).1 r
      → LoadEnds i read inserted (full ++ rows) t r
  unfolding LoadEnds
  goes_on (ok c, u) h = h ∙ flushed_twice i read inserted full rows t
  goes_on (err e, u) (p, q, parts, left) = (
    full ++ p,
    q,
    append_assoc full p q ∙ ap (λ l. full ++ l) parts,
    left ∙ sym (ap (λ (x : ℕ × OrderTable). x.1) (insert_rows-append i full p t)),
  )

  after_flush :
      (r : Result ℕ × OrderTable) (next : ℕ → Exec OrderTable IngestResult)
      → FlushEnds i full t r
      → ((n : ℕ) (u : OrderTable) → LoadEnds i read (inserted + n) rows u (next n u))
      → LoadEnds i read inserted (full ++ rows) t (continue next r)
  unfolding FlushEnds LoadEnds
  after_flush (ok n, u) next ends h = goes_on (next n u) (
      subst (λ (x : ℕ × OrderTable). LoadEnds i read (inserted + x.0) rows x.1 (next n u)) ends
        (h n u))
  after_flush (err e, u) next (inl same) h = ([], full ++ rows, refl, same ∙ none_inserted)
    where
      none_inserted : t ≡ (insert_rows i [] t).1
      none_inserted = unfold insert_rows in refl
  after_flush (err e, u) next (inr applied) h = (full, rows, refl, applied)

ingest_loop-LoadEnds :
    (faults : ℕ → Option BatchFault) (i : String) (n : ℕ) (rows batch : List CsvRow)
    (read inserted : ℕ) (t : OrderTable)
    → LoadEnds i
        (read + length rows)
        inserted
        (batch ++ rows)
        t
        (ingest_loop faults i n rows batch read inserted t)
unfolding ingest_loop LoadEnds
ingest_loop-LoadEnds faults i n [] batch read inserted t =
    subst
      (λ k. LoadEnds i k inserted (batch ++ []) t (ingest_loop faults i n [] batch read inserted t))
      (sym (add_zero read))
      (after_flush i read inserted batch [] t _ (report read inserted)
        (flush-FlushEnds (faults read) i batch t)
        (λ m u. unfold insert_rows in ap (λ k. (counts read k, u)) (sym (add_zero (inserted + m)))))
ingest_loop-LoadEnds faults i n (row ∷ rows) batch read inserted t =
    let full = batch ++ row ∷ [] in
    let reads = suc read + length rows in
    either_branch
      (λ (r : Result IngestResult × OrderTable).
        LoadEnds i (read + suc (length rows)) inserted (batch ++ row ∷ rows) t r)
      (leb n (length full)) _ _
      (λ _. same _ (
        after_flush i reads inserted full rows t _
          (λ m. ingest_loop faults i n rows [] (suc read) (inserted + m))
          (flush-FlushEnds (faults (suc read)) i full t)
          (λ m u. ingest_loop-LoadEnds faults i n rows [] (suc read) (inserted + m) u)))
      (λ _. same _ (ingest_loop-LoadEnds faults i n rows full (suc read) inserted t))
  where
    same :
        (r : Result IngestResult × OrderTable)
        → LoadEnds i (suc read + length rows) inserted ((batch ++ row ∷ []) ++ rows) t r
        → LoadEnds i (read + suc (length rows)) inserted (batch ++ row ∷ rows) t r
    same r h =
        subst (λ k. LoadEnds i k inserted (batch ++ row ∷ rows) t r) (read_one read (length rows))
          (subst (λ l. LoadEnds i (suc read + length rows) inserted l t r)
            (append_row batch rows row) h)

quiet_flush :
    (i : String) (batch : List CsvRow) (t : OrderTable)
    → flush none i batch t ≡ (ok (insert_rows i batch t).0, (insert_rows i batch t).1)
unfolding flush insert_rows
quiet_flush i [] t = refl
quiet_flush i (row ∷ batch) t = refl

-- An action that returns.
IsReturned : Result IngestResult × OrderTable → Type 0
IsReturned (ok c, u) = Unit {0}
IsReturned (err e, u) = ⊥

quiet-IsReturned :
    (i : String) (n : ℕ) (rows batch : List CsvRow) (read inserted : ℕ) (t : OrderTable)
    → IsReturned (ingest_loop (λ _. none) i n rows batch read inserted t)
unfolding ingest_loop IsReturned
quiet-IsReturned i n [] batch read inserted t = rw (quiet_flush i batch t) tt
quiet-IsReturned i n (row ∷ rows) batch read inserted t =
    let full = batch ++ row ∷ [] in
    either_branch IsReturned (leb n (length full)) _ _
      (λ _. rw (quiet_flush i full t) (quiet-IsReturned i n rows [] (suc read) _ _))
      (λ _. quiet-IsReturned i n rows full (suc read) inserted t)

returned :
    (i : String) (rows : List CsvRow) (t : OrderTable) (r : Result IngestResult × OrderTable)
    → LoadEnds i (0 + length rows) 0 rows t r
    → IsReturned r
    → r ≡ (ok (counts (length rows) (insert_rows i rows t).0), (insert_rows i rows t).1)
unfolding LoadEnds IsReturned
returned i rows t (ok c, u) h back =
    ap (λ (x : IngestResult × OrderTable). (ok x.0, x.1)) h ∙ counted
  where
    counted :
        ◌≡◌ {A = Result IngestResult × OrderTable}
          (ok (counts (0 + length rows) (0 + (insert_rows i rows t).0)), (insert_rows i rows t).1)
          (ok (counts (length rows) (insert_rows i rows t).0), (insert_rows i rows t).1)
    counted = rw (zero_add (length rows), zero_add (insert_rows i rows t).0) refl
returned i rows t (err e, u) h back = absurd back

thrown :
    (i : String) (rows : List CsvRow) (t : OrderTable) (e : Thrown) (u : OrderTable)
    → LoadEnds i (0 + length rows) 0 rows t (err e, u)
    → (p : List CsvRow) × (q : List CsvRow) × (p ++ q ≡ rows)
      × (◌≡◌ {A = Result IngestResult × OrderTable} (err e, u) (err e, (insert_rows i p t).1))
unfolding LoadEnds
thrown i rows t e u (p, q, parts, left) = (p, q, parts, ap (λ w. (err e, w)) left)

-- Whatever the size of the batches: a load of which no batch throws leaves the table as one statement
-- with all rows would, and of the rows that it read each is counted as inserted or as skipped; and a
-- load of which batches throw, applied or not, ends the same way, if none of those is sent, or throws
-- and leaves the table as one statement with a first part of the rows would.
pub ingest_orders-flush :
    (faults : ℕ → Option BatchFault) (i : String) (n : ℕ) (rows : List CsvRow) (t : OrderTable)
    → let load = ingest_orders faults i n rows t in
      let all = insert_rows i rows t in
      let result = counts (length rows) all.0 in
      (ingest_orders (λ _. none) i n rows t ≡ (ok result, all.1))
      × (result.rows_inserted + result.rows_skipped ≡ result.rows_read)
      × ((load ≡ (ok result, all.1))
          ⊎ ((e : Thrown) × (p : List CsvRow) × (q : List CsvRow) × (p ++ q ≡ rows)
              × (load ≡ (err e, (insert_rows i p t).1))))
unfolding ingest_orders
ingest_orders-flush faults i n rows t = (
  returned i rows t _ (ingest_loop-LoadEnds (λ _. none) i n rows [] 0 0 t)
      (quiet-IsReturned i n rows [] 0 0 t),
  omega (arith, insert_rows-le i rows t),
  either (ingest_loop faults i n rows [] 0 0 t) (ingest_loop-LoadEnds faults i n rows [] 0 0 t),
)
  where
    either :
        (r : Result IngestResult × OrderTable)
        → LoadEnds i (0 + length rows) 0 rows t r
        → (r ≡ (ok (counts (length rows) (insert_rows i rows t).0), (insert_rows i rows t).1))
          ⊎ ((e : Thrown) × (p : List CsvRow) × (q : List CsvRow) × (p ++ q ≡ rows)
              × (r ≡ (err e, (insert_rows i p t).1)))
    either (ok c, u) h = inl (returned i rows t (ok c, u) h (unfold IsReturned in tt))
    either (err e, u) h =
        let (p, q, parts, left) = thrown i rows t e u h in inr (e, p, q, parts, left)
