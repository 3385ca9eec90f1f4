-- ===== src/Services/Order/Lifecycle.antt =====
-- Proofs about the two handlers of the order service.
use order_saga.Prelude.{
  ◌≡◌, ◌∙◌, refl, ap, store, store_self, store_again, store_twice, Bool, true, false, Option, none,
  some, [], ◌∷◌, arith,
}
use order_saga.Shared.Types.{text, flag, StepRequestBody, Data}
use order_saga.Shared.Exec.{ok, Result}
use order_saga.Services.Order.{
  OrderState, OrderRow, Orders, created, cancelled, create_order_handler, cancel_order_handler,
}

-- The answer of a cancellation.
abbrev pub cancel_reply : StepRequestBody → Bool → Result Data
cancel_reply body affected = ok (
    ("orderId", text body.order_id)
    ∷ ("status", text "CANCELLED")
    ∷ ("changed", flag affected)
    ∷ [])

abbrev pub row_of : StepRequestBody → OrderState → Option OrderRow
row_of body status =
    some (record { sku = body.sku; qty = body.qty; amount = body.amount; status = status })

create_free :
    (body : StepRequestBody) (t : Orders)
    → t body.order_id ≡ none
    → create_order_handler none body t ≡ (
      ok (("orderId", text body.order_id) ∷ ("status", text "CREATED") ∷ []),
      store body.order_id (row_of body created) t,
    )
unfolding create_order_handler
create_free body t free = ground arith

cancel_created :
    (body : StepRequestBody) (t : Orders)
    → t body.order_id ≡ row_of body created
    → cancel_order_handler none body t
      ≡ (cancel_reply body true, store body.order_id (row_of body cancelled) t)
unfolding cancel_order_handler
cancel_created body t there = rw (there, cancel_order_handler) refl

cancel_cancelled :
    (body : StepRequestBody) (t : Orders)
    → t body.order_id ≡ row_of body cancelled
    → cancel_order_handler none body t ≡ (cancel_reply body false, t)
unfolding cancel_order_handler
cancel_cancelled body t there =
    rw (there, cancel_order_handler)
      (ap (λ p. (cancel_reply body false, p)) (store_again body.order_id _ t there))

-- For an order that is not recorded: creating answers CREATED and records the request, cancelling
-- after it answers with `changed` true and marks that row cancelled, and neither touches another row;
-- a second cancellation answers with `changed` false and leaves the whole table as it is.
pub cancel-create :
    (body : StepRequestBody) (t : Orders)
    → t body.order_id ≡ none
    → let creation = create_order_handler none body t in
      let cancellation = cancel_order_handler none body creation.1 in
      (creation ≡ (
        ok (("orderId", text body.order_id) ∷ ("status", text "CREATED") ∷ []),
        store body.order_id (row_of body created) t,
      ))
      × (cancellation ≡ (cancel_reply body true, store body.order_id (row_of body cancelled) t))
      × (cancel_order_handler none body cancellation.1 ≡ (cancel_reply body false, cancellation.1))
cancel-create body t free =
    let first = create_free body t free in
    let t1 = store body.order_id (row_of body created) t in
    let t2 = store body.order_id (row_of body cancelled) t in
    let second : cancel_order_handler none body (create_order_handler none body t).1
        ≡ (cancel_reply body true, t2) =
      ap (λ c. cancel_order_handler none body c.1) first
      ∙ cancel_created body t1 (store_self body.order_id _ t)
      ∙ ap (λ u. (cancel_reply body true, u)) (store_twice body.order_id _ _ t) in
    (first, second, rw second (cancel_cancelled body t2 (store_self body.order_id _ t)))
