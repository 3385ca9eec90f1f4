-- ===== src/Services/Shipping/Lifecycle.antt =====
-- Proofs about the two handlers of the shipping service.
use order_saga.Prelude.{
  ◌≡◌, ◌∙◌, refl, ap, store, store_self, store_again, store_twice, Bool, true, false, Option, none,
  some, [], ◌∷◌, arith,
}
use order_saga.Shared.Types.{text, flag, StepRequestBody, Data}
use order_saga.Shared.Exec.{ok, Result}
use order_saga.Services.Shipping.{
  ShipmentState, ShipmentRow, Shipments, created, cancelled, tracking_number,
  create_shipment_handler, cancel_shipment_handler,
}

-- The answer of a cancellation.
abbrev pub shipment_reply : StepRequestBody → Bool → Result Data
shipment_reply body affected = ok (
    ("orderId", text body.order_id)
    ∷ ("status", text "CANCELLED")
    ∷ ("changed", flag affected)
    ∷ [])

abbrev pub shipment_of : StepRequestBody → ShipmentState → Option ShipmentRow
shipment_of body status =
    some (record { tracking_no = tracking_number body.order_id; status = status })

create_free :
    (body : StepRequestBody) (t : Shipments)
    → t body.order_id ≡ none
    → create_shipment_handler none body t ≡ (
      ok (
          ("orderId", text body.order_id)
          ∷ ("trackingNo", text (tracking_number body.order_id))
          ∷ ("status", text "CREATED")
          ∷ []),
      store body.order_id (shipment_of body created) t,
    )
unfolding create_shipment_handler
create_free body t free = ground arith

cancel_created :
    (body : StepRequestBody) (t : Shipments)
    → t body.order_id ≡ shipment_of body created
    → cancel_shipment_handler none body t
      ≡ (shipment_reply body true, store body.order_id (shipment_of body cancelled) t)
unfolding cancel_shipment_handler
cancel_created body t there = rw (there, cancel_shipment_handler) refl

cancel_cancelled :
    (body : StepRequestBody) (t : Shipments)
    → t body.order_id ≡ shipment_of body cancelled
    → cancel_shipment_handler none body t ≡ (shipment_reply body false, t)
unfolding cancel_shipment_handler
cancel_cancelled body t there =
    rw (there, cancel_shipment_handler)
      (ap (λ p. (shipment_reply body false, p)) (store_again body.order_id _ t there))

-- For an order without a shipment: creating answers with its tracking number and records the shipment
-- with that number, cancelling after it answers with `changed` true and keeps the number, and neither
-- touches another row; a second cancellation answers with `changed` false and leaves the whole table
-- as it is.
pub cancel_shipment-create :
    (body : StepRequestBody) (t : Shipments)
    → t body.order_id ≡ none
    → let creation = create_shipment_handler none body t in
      let cancellation = cancel_shipment_handler none body creation.1 in
      (creation ≡ (
        ok (
            ("orderId", text body.order_id)
            ∷ ("trackingNo", text (tracking_number body.order_id))
            ∷ ("status", text "CREATED")
            ∷ []),
        store body.order_id (shipment_of body created) t,
      ))
      × (cancellation
          ≡ (shipment_reply body true, store body.order_id (shipment_of body cancelled) t))
      × (cancel_shipment_handler none body cancellation.1
          ≡ (shipment_reply body false, cancellation.1))
cancel_shipment-create body t free =
    let first = create_free body t free in
    let t1 = store body.order_id (shipment_of body created) t in
    let t2 = store body.order_id (shipment_of body cancelled) t in
    let second : cancel_shipment_handler none body (create_shipment_handler none body t).1
        ≡ (shipment_reply body true, t2) =
      ap (λ c. cancel_shipment_handler none body c.1) first
      ∙ cancel_created body t1 (store_self body.order_id _ t)
      ∙ ap (λ u. (shipment_reply body true, u)) (store_twice body.order_id _ _ t) in
    (first, second, rw second (cancel_cancelled body t2 (store_self body.order_id _ t)))
