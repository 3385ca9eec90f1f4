-- ===== src/Services/Inventory/Oversell.antt =====
-- Proofs about the guard of a reservation.
use order_saga.Prelude.{
  ℤ, pos, ◌-ℤ◌, ◌≤ℤ◌, leb_ℤ, int_laws, ◌≡◌, String, Bool, true, false, Option, none, some, arith,
  Option-cases, inl, inr, either_branch, ◌&&◌, ◌==◌, leb→le,
}
use order_saga.Shared.Types.{StepRequestBody}
use order_saga.Shared.Errors.{Thrown}
use order_saga.Shared.Exec.{Exec, Result, err, state-bind}
use order_saga.Shared.Idempotency.{statement}
use order_saga.Services.Inventory.{
  StockRow, Inventory, fits_int, take_stock, write_stock, insert_reservation,
  reserve_inventory_handler, insufficient_stock,
}

abbrev pub InStock : Option StockRow → Type 0
InStock none = Unit {0}
InStock (some r) = pos 0 ≤ℤ r.available_qty

rest_of_stock : (q a : ℤ) → leb_ℤ q a ≡ true → pos 0 ≤ℤ a -ℤ q
rest_of_stock q a h = omega (int_laws, leb→le _ _ h)

module _ (k : String) where
  abbrev Fine : Inventory → Type 0
  Fine s = InStock (s.stock k)

  write_stock-Fine :
      (sku : String) (free held : ℤ) (s : Inventory)
      → pos 0 ≤ℤ free
      → Fine s
      → Fine (write_stock sku free held s).1
  unfolding write_stock
  write_stock-Fine sku free held s p h =
      either_branch (λ (r : Result Bool × Inventory). Fine r.1) (fits_int free && fits_int held) _ _
        (λ _. either_branch InStock (k == sku) _ _ (λ _. p) (λ _. h)) (λ _. h)

  take_stock-Fine : (body : StepRequestBody) (s : Inventory) → Fine s → Fine (take_stock body s).1
  unfolding take_stock
  take_stock-Fine body s h = elim (Option-cases (s.stock body.sku)) [
    | inl e ↦ rw (e, take_stock) h
    | inr (row, e) ↦
        rw (e, take_stock)
          (either_branch (λ (r : Result Bool × Inventory). Fine r.1)
            (leb_ℤ body.qty row.available_qty) _ _
            (λ enough.
              write_stock-Fine body.sku _ _ s (rest_of_stock body.qty row.available_qty enough) h)
            (λ _. h))
  ]

  insert_reservation-Fine :
      (body : StepRequestBody) (s : Inventory) → Fine s → Fine (insert_reservation body s).1
  unfolding insert_reservation
  insert_reservation-Fine body s h = elim (Option-cases (s.reservations body.order_id)) [
    | inl e ↦ rw (e, insert_reservation) h
    | inr (row, e) ↦ rw (e, insert_reservation) h
  ]

  statement-Fine :
      {A : Type 0} (fault : Option Thrown) (m : Exec Inventory A) (s : Inventory)
      → (Fine s → Fine (m s).1)
      → Fine s
      → Fine (statement fault m s).1
  statement-Fine none m s h g = h g
  statement-Fine (some e) m s h g = g

  reserve-Fine :
      (fault fault' : Option Thrown) (body : StepRequestBody) (s : Inventory)
      → Fine s
      → Fine (reserve_inventory_handler fault fault' body s).1
  unfolding reserve_inventory_handler
  reserve-Fine fault fault' body s h =
      state-bind Fine (statement fault (take_stock body) s) _
        (statement-Fine fault (take_stock body) s (take_stock-Fine body s) h)
        (elim [
          | true ↦ λ t g.
              state-bind Fine (statement fault' (insert_reservation body) t) _
                (statement-Fine fault' (insert_reservation body) t (insert_reservation-Fine body t)
                  g)
                (λ _ u x. x)
          | false ↦ λ t g. g
        ])

refused_for_good :
    (fault' : Option Thrown) (body : StepRequestBody) (s : Inventory) (row : StockRow)
    → s.stock body.sku ≡ some row
    → leb_ℤ body.qty row.available_qty ≡ false
    → reserve_inventory_handler none fault' body s ≡ (err (insufficient_stock body), s)
unfolding reserve_inventory_handler
refused_for_good fault' body s row e short = ground arith

-- When the SKU of the request has a row: a reservation, with whatever statement failing, leaves
-- every SKU that had no negative stock without one; and one that asks for more than is available
-- throws that the stock is insufficient and changes nothing.
pub never_oversold :
    (fault fault' : Option Thrown) (body : StepRequestBody) (s : Inventory) (row : StockRow)
    → s.stock body.sku ≡ some row
    → ((sku : String)
        → InStock (s.stock sku)
        → InStock ((reserve_inventory_handler fault fault' body s).1.stock sku))
      × (leb_ℤ body.qty row.available_qty ≡ false
          → reserve_inventory_handler none fault' body s ≡ (err (insufficient_stock body), s))
never_oversold fault fault' body s row e = (
  λ sku h. reserve-Fine sku fault fault' body s h,
  λ short. refused_for_good fault' body s row e short,
)
