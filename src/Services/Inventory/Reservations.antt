-- ===== src/Services/Inventory/Reservations.antt =====
-- Proofs about a release after a reservation.
use order_saga.Prelude.{
  ℤ, ◌+ℤ◌, ◌-ℤ◌, leb_ℤ, int_laws, ◌≡◌, true, false, none, some, arith, [], ◌∷◌, eq_refl, store,
  ◌&&◌,
}
use order_saga.Shared.Types.{Data, text, flag, StepRequestBody}
use order_saga.Shared.Exec.{ok}
use order_saga.Services.Inventory.{
  StockRow, Inventory, ReservationRow, reserved, released, fits_int, reserve_inventory_handler,
  release_inventory_handler,
}

abbrev pub without_reservation : StepRequestBody → Data
without_reservation body =
    ("orderId", text body.order_id)
    ∷ ("released", flag false)
    ∷ ("reason", text "no active reservation")
    ∷ []

-- If the order has no reservation, or one that is released, a release answers that there is none
-- active and changes nothing.
pub release_without_reservation :
    (body : StepRequestBody) (s : Inventory)
    → (s.reservations body.order_id ≡ none
        → release_inventory_handler none none body s ≡ (ok (without_reservation body), s))
      × ((row : ReservationRow)
          → s.reservations body.order_id ≡ some row
          → row.status ≡ released
          → release_inventory_handler none none body s ≡ (ok (without_reservation body), s))
unfolding release_inventory_handler
release_without_reservation body s = (λ h. ground arith, λ row h p. ground arith)

taken_and_returned : (a q : ℤ) → (a -ℤ q) +ℤ q ≡ a
taken_and_returned a q = omega int_laws

held_and_freed : (r q : ℤ) → (r +ℤ q) -ℤ q ≡ r
held_and_freed r q = omega int_laws

reserve_lem :
    (body : StepRequestBody) (s : Inventory) (row : StockRow)
    → s.stock body.sku ≡ some row
    → s.reservations body.order_id ≡ none
    → leb_ℤ body.qty row.available_qty ≡ true
    → (fits_int (row.available_qty -ℤ body.qty) && fits_int (row.reserved_qty +ℤ body.qty)) ≡ true
    → (reserve_inventory_handler none none body s).1 ≡ record {
      stock =
          store body.sku
            (some (record {
              available_qty = row.available_qty -ℤ body.qty;
              reserved_qty = row.reserved_qty +ℤ body.qty;
            }))
            s.stock;
      reservations =
          store body.order_id
            (some (record { sku = body.sku; qty = body.qty; status = reserved }))
            s.reservations;
    }
unfolding reserve_inventory_handler
reserve_lem body s row e free enough fits = ground arith

-- For an order without a reservation, a quantity that is available, and sums that fit the columns:
-- a release after the reservation of the same request puts the stock row back, marks the
-- reservation released, and a further release changes nothing.
pub release-reserve :
    (body : StepRequestBody) (s : Inventory) (row : StockRow)
    → s.stock body.sku ≡ some row
    → s.reservations body.order_id ≡ none
    → leb_ℤ body.qty row.available_qty ≡ true
    → (fits_int (row.available_qty -ℤ body.qty) && fits_int (row.reserved_qty +ℤ body.qty)) ≡ true
    → (fits_int row.available_qty && fits_int row.reserved_qty) ≡ true
    → let t =
        (release_inventory_handler none none body
          (reserve_inventory_handler none none body s).1).1 in
      (t.stock body.sku ≡ some row)
      × (t.reservations body.order_id
          ≡ some (record { sku = body.sku; qty = body.qty; status = released }))
      × ((release_inventory_handler none none body t).1 ≡ t)
unfolding release_inventory_handler
release-reserve body s row e free enough fits fits' =
    rw (reserve_lem body s row e free enough fits) (
      ground (
        arith,
        eq_refl body.sku,
        eq_refl body.order_id,
        taken_and_returned row.available_qty body.qty,
        held_and_freed row.reserved_qty body.qty,
      ))
