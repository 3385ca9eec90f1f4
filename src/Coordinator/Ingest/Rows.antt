-- ===== src/Coordinator/Ingest/Rows.antt =====
-- Lemmas about the rows of one statement of a load.
use order_saga.Prelude.{ℕ, ◌+◌, ◌≤◌, ◌≡◌, refl, sym, ap, String, List, [], ◌∷◌, ◌++◌, length, arith}
use order_saga.Coordinator.Ingest.{CsvRow, OrderTable, insert_ignore, insert_rows}

pub add_assoc : (a b c : ℕ) → a + b + c ≡ a + (b + c)
add_assoc a b c = omega arith

pub zero_add : (a : ℕ) → 0 + a ≡ a
zero_add a = omega arith

pub append_assoc : (xs ys zs : List CsvRow) → (xs ++ ys) ++ zs ≡ xs ++ (ys ++ zs)
append_assoc [] ys zs = refl
append_assoc (x ∷ xs) ys zs = ap (λ l. x ∷ l) (append_assoc xs ys zs)

pub append_row : (xs ys : List CsvRow) (y : CsvRow) → (xs ++ y ∷ []) ++ ys ≡ xs ++ y ∷ ys
append_row [] ys y = refl
append_row (x ∷ xs) ys y = ap (λ zs. x ∷ zs) (append_row xs ys y)

pub insert_rows-append :
    (i : String) (xs ys : List CsvRow) (t : OrderTable)
    → insert_rows i (xs ++ ys) t ≡ (
      (insert_rows i xs t).0 + (insert_rows i ys (insert_rows i xs t).1).0,
      (insert_rows i ys (insert_rows i xs t).1).1,
    )
unfolding insert_rows
insert_rows-append i [] ys t =
    ap (λ n. (n, (insert_rows i ys t).1)) (sym (zero_add (insert_rows i ys t).0))
insert_rows-append i (x ∷ xs) ys t =
    let first = insert_ignore i x t in
    rw (insert_rows-append i xs ys first.1) (
      ap (λ n. (n, (insert_rows i ys (insert_rows i xs first.1).1).1))
        (sym (
          add_assoc first.0 (insert_rows i xs first.1).0
            (insert_rows i ys (insert_rows i xs first.1).1).0)))

insert_ignore-le : (i : String) (x : CsvRow) (t : OrderTable) → (insert_ignore i x t).0 ≤ 1
unfolding insert_ignore
insert_ignore-le i x t = ground arith

pub insert_rows-le :
    (i : String) (xs : List CsvRow) (t : OrderTable) → (insert_rows i xs t).0 ≤ length xs
unfolding insert_rows
insert_rows-le i [] t = omega arith
insert_rows-le i (x ∷ xs) t =
    omega (arith, insert_ignore-le i x t, insert_rows-le i xs (insert_ignore i x t).1)
