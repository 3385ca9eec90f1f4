-- ===== src/Examples/Stores.antt =====
-- The services' handlers at concrete requests.
use order_saga.Prelude.{
  ◌≡◌, ◌≢◌, refl, pos, String, true, false, store, none, some, [], ◌∷◌, leb_ℤ, ◌+ℤ◌, ◌-ℤ◌,
}
use order_saga.Shared.Types.{text}
use order_saga.Shared.Exec.{ok, err}
use order_saga.Services.Order.{
  Orders, create_order_handler, cancel_order_handler, created, cancelled,
}
use order_saga.Services.Order.Lifecycle.{row_of, cancel_reply, cancel-create}
use order_saga.Services.Payment.{
  Payments, charge_payment_handler, refund_payment_handler, charged, refunded,
}
use order_saga.Services.Payment.Lifecycle.{
  Advances, payment-Advances, refund-charge, refund_reply, payment_of,
}
use order_saga.Services.Inventory.{
  Inventory, StockRow, fits_int, reserve_inventory_handler, release_inventory_handler, released,
  insufficient_stock,
}
use order_saga.Services.Inventory.Stock.{Conserves, stock_conserved}
use order_saga.Services.Inventory.Oversell.{InStock, never_oversold}
use order_saga.Services.Inventory.Reservations.{release-reserve}
use order_saga.Examples.Values.{o_1}

abbrev five : StockRow
five = record { available_qty = pos 5; reserved_qty = pos 0 }

abbrev shelf : Inventory
shelf = record { stock = λ k. some five; reservations = λ _. none }

stock_conserved_example :
    Conserves (some five) ((reserve_inventory_handler none none o_1 shelf).1.stock "sku-1")
    × Conserves (some five) ((release_inventory_handler none none o_1 shelf).1.stock "sku-1")
stock_conserved_example = stock_conserved none none o_1 shelf "sku-1"

never_oversold_example :
    ((sku : String)
      → InStock (some five)
      → InStock ((reserve_inventory_handler none none o_1 shelf).1.stock sku))
    × (leb_ℤ (pos 2) (pos 5) ≡ false
        → reserve_inventory_handler none none o_1 shelf ≡ (err (insufficient_stock o_1), shelf))
never_oversold_example = never_oversold none none o_1 shelf five refl

release-reserve_example :
    let t =
      (release_inventory_handler none none o_1
        (reserve_inventory_handler none none o_1 shelf).1).1 in
    (t.stock "sku-1" ≡ some five)
    × (t.reservations "o-1" ≡ some (record { sku = "sku-1"; qty = pos 2; status = released }))
    × ((release_inventory_handler none none o_1 t).1 ≡ t)
unfolding fits_int ◌-ℤ◌ ◌+ℤ◌
release-reserve_example = release-reserve o_1 shelf five refl refl refl refl refl

payment-Advances_example :
    Advances none ((charge_payment_handler none o_1 (λ _. none)).1 "o-2")
    × Advances none ((refund_payment_handler none o_1 (λ _. none)).1 "o-2")
    × (◌≢◌ {A = String} "o-2" "o-1"
        → ((charge_payment_handler none o_1 (λ _. none)).1 "o-2" ≡ none)
          × ((refund_payment_handler none o_1 (λ _. none)).1 "o-2" ≡ none))
payment-Advances_example = payment-Advances none o_1 (λ _. none) "o-2"

-- The table has another order's payment.
abbrev paid_2 : Payments
paid_2 = store "o-2" (some (record { amount = "5.00"; status = charged })) (λ _. none)

refund-charge_example :
    let charge = charge_payment_handler none o_1 paid_2 in
    let refund = refund_payment_handler none o_1 charge.1 in
    (charge ≡ (
      ok (("orderId", text "o-1") ∷ ("amount", text "10.00") ∷ ("status", text "CHARGED") ∷ []),
      store "o-1" (payment_of o_1 charged) paid_2,
    ))
    × (refund ≡ (refund_reply o_1 true, store "o-1" (payment_of o_1 refunded) paid_2))
    × (refund_payment_handler none o_1 refund.1 ≡ (refund_reply o_1 false, refund.1))
refund-charge_example = refund-charge o_1 paid_2 refl

-- The table has another order's row.
abbrev ordered_2 : Orders
ordered_2 = store "o-2" (row_of o_1 created) (λ _. none)

cancel-create_example :
    let creation = create_order_handler none o_1 ordered_2 in
    let cancellation = cancel_order_handler none o_1 creation.1 in
    (creation ≡ (
      ok (("orderId", text "o-1") ∷ ("status", text "CREATED") ∷ []),
      store "o-1" (row_of o_1 created) ordered_2,
    ))
    × (cancellation ≡ (cancel_reply o_1 true, store "o-1" (row_of o_1 cancelled) ordered_2))
    × (cancel_order_handler none o_1 cancellation.1 ≡ (cancel_reply o_1 false, cancellation.1))
cancel-create_example = cancel-create o_1 ordered_2 refl
