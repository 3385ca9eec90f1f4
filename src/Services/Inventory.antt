-- ===== src/Services/Inventory.antt =====
-- The inventory service (services/inventory/src/index.ts, seed.ts) over its tables `inventory` and
-- `reservations` of db/02-services.sql.
pub mod Stock
pub mod Oversell
pub mod Reservations
use Prim.Native.String
use order_saga.Prelude.{
  ℤ, pos, negsuc, ◌+ℤ◌, ◌-ℤ◌, leb_ℤ, String, Bool, true, false, ◌&&◌, Option, none, some, List, [],
  ◌∷◌, Table, store, if◌then◌else◌,
}
use order_saga.Shared.Types.{Data, text, number, flag, StepRequestBody}
use order_saga.Shared.Errors.{Thrown, driver_error, business_rule}
use order_saga.Shared.Exec.{Result, ok, err, Exec, throw, pure, ◌>>=◌, ◌>>◌}
use order_saga.Shared.Idempotency.{statement}

pub record StockRow : Type 0 where
  pub available_qty : ℤ
  pub reserved_qty : ℤ

pub data ReservationState : Type 0 where
  reserved released : ReservationState

pub record ReservationRow : Type 0 where
  pub sku : String
  pub qty : ℤ
  pub status : ReservationState

pub record Inventory : Type 0 where
  pub stock : Table StockRow
  pub reservations : Table ReservationRow

-- A value that an INT column takes; a strict server refuses any other.
unfoldable pub fits_int : ℤ → Bool
fits_int n = leb_ℤ (negsuc 2147483647) n && leb_ℤ n (pos 2147483647)

abbrev pub out_of_range : Thrown
out_of_range = driver_error "Out of range value" "ER_WARN_DATA_OUT_OF_RANGE" 1264

-- `SET available_qty = ?, reserved_qty = ?` in the row of a SKU; the result is `affectedRows`.
unfoldable pub write_stock : String → ℤ → ℤ → Exec Inventory Bool
write_stock sku free held s =
    if fits_int free && fits_int held
    then (
      ok true,
      record s {
        stock = store sku (some (record { available_qty = free; reserved_qty = held })) s.stock;
      },
    )
    else (err out_of_range, s)

-- The guard and the subtraction are one statement.
unfoldable pub take_stock : StepRequestBody → Exec Inventory Bool
unfolding write_stock
take_stock body s = elim (s.stock body.sku) [
  | none ↦ (ok false, s)
  | some row ↦
      if leb_ℤ body.qty row.available_qty
      then write_stock body.sku (row.available_qty -ℤ body.qty) (row.reserved_qty +ℤ body.qty) s
      else (ok false, s)
]

unfoldable pub insert_reservation : StepRequestBody → Exec Inventory (Unit {0})
insert_reservation body s = elim (s.reservations body.order_id) [
  | some _ ↦ (err (driver_error "Duplicate entry" "ER_DUP_ENTRY" 1062), s)
  | none ↦ (
    ok tt,
    record s {
      reservations =
          store body.order_id (some (record { sku = body.sku; qty = body.qty; status = reserved }))
            s.reservations;
    },
  )
]

-- The message goes on with the quantity that was asked for.
abbrev pub insufficient_stock : StepRequestBody → Thrown
insufficient_stock body = business_rule (String.◌++◌ "insufficient stock for " body.sku)

-- The handler of RESERVE_INVENTORY; each statement may fail.
unfoldable pub reserve_inventory_handler :
    Option Thrown → Option Thrown → StepRequestBody → Exec Inventory Data
unfolding take_stock insert_reservation
reserve_inventory_handler fault fault' body = do
  taken ← statement fault (take_stock body)
  elim taken [
    | true ↦
        statement fault' (insert_reservation body)
        >> pure (
            ("orderId", text body.order_id)
            ∷ ("sku", text body.sku)
            ∷ ("qty", number body.qty)
            ∷ ("status", text "RESERVED")
            ∷ [])
    | false ↦ throw (insufficient_stock body)
  ]

-- `UPDATE reservations SET status = 'RELEASED' … WHERE order_id = ? AND status = 'RESERVED'`
unfoldable pub release_reservation : StepRequestBody → Exec Inventory Bool
release_reservation body s = elim (s.reservations body.order_id) [
  | none ↦ (ok false, s)
  | some row ↦ elim row.status [
    | released ↦ (ok false, s)
    | reserved ↦ (
      ok true,
      record s {
        reservations = store body.order_id (some (record row { status = released })) s.reservations;
      },
    )
  ]
]

unfoldable pub return_stock : StepRequestBody → Exec Inventory Bool
unfolding write_stock
return_stock body s = elim (s.stock body.sku) [
  | none ↦ (ok false, s)
  | some row ↦ write_stock body.sku (row.available_qty +ℤ body.qty) (row.reserved_qty -ℤ body.qty) s
]

-- The handler of RELEASE_INVENTORY; each statement may fail.
unfoldable pub release_inventory_handler :
    Option Thrown → Option Thrown → StepRequestBody → Exec Inventory Data
unfolding release_reservation return_stock
release_inventory_handler fault fault' body = do
  flipped ← statement fault (release_reservation body)
  elim flipped [
    | true ↦
        statement fault' (return_stock body)
        >> pure (
            ("orderId", text body.order_id)
            ∷ ("sku", text body.sku)
            ∷ ("qty", number body.qty)
            ∷ ("released", flag true)
            ∷ [])
    | false ↦ pure (
        ("orderId", text body.order_id)
        ∷ ("released", flag false)
        ∷ ("reason", text "no active reservation")
        ∷ [])
  ]

-- One row of the seed file: a reset of the SKU's stock, not an increment.
unfoldable pub seed_row : Table StockRow → String × ℤ → Table StockRow
seed_row t (sku, qty) = store sku (some (record { available_qty = qty; reserved_qty = pos 0 })) t

unfoldable pub seed : Table StockRow → List (String × ℤ) → Table StockRow
unfolding seed_row
seed t [] = t
seed t (row ∷ rows) = seed (seed_row t row) rows
