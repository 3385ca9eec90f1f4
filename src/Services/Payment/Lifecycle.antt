-- ===== src/Services/Payment/Lifecycle.antt =====
-- Proofs about the two handlers of the payment service.
use order_saga.Prelude.{
  ◌≡◌, ◌≢◌, ◌⊎◌, refl, ap, store, store_self, store_again, store_twice, ◌∙◌, String, Bool, true,
  false, Option, none, some, [], ◌∷◌, arith, eq_iff,
}
use order_saga.Shared.Types.{text, flag, StepRequestBody, Data}
use order_saga.Shared.Errors.{Thrown}
use order_saga.Shared.Exec.{ok, Result}
use order_saga.Services.Payment.{
  PaymentRow, PaymentState, Payments, charged, refunded, charge_payment_handler,
  refund_payment_handler,
}

-- The life of the payment of one order: none, charged, refunded, and never back.
abbrev pub Advances : Option PaymentRow → Option PaymentRow → Type 0
Advances none none = Unit {0}
Advances none (some r) = r.status ≡ charged
Advances (some r) none = ⊥
Advances (some r) (some q) = (q ≡ r) ⊎ ((r.status ≡ charged) × (q ≡ record r { status = refunded }))

module _ (body : StepRequestBody) (t : Payments) (order_id : String) where
  charge-Advances :
      (fault : Option Thrown)
      → Advances (t order_id) ((charge_payment_handler fault body t).1 order_id)
  unfolding charge_payment_handler
  charge-Advances fault = ground (arith, eq_iff order_id body.order_id)

  refund-Advances :
      (fault : Option Thrown)
      → Advances (t order_id) ((refund_payment_handler fault body t).1 order_id)
  unfolding refund_payment_handler
  refund-Advances fault = ground (arith, eq_iff order_id body.order_id)

  others_alone :
      (fault : Option Thrown)
      → order_id ≢ body.order_id
      → ((charge_payment_handler fault body t).1 order_id ≡ t order_id)
        × ((refund_payment_handler fault body t).1 order_id ≡ t order_id)
  unfolding charge_payment_handler refund_payment_handler
  others_alone fault other = ground (arith, eq_iff order_id body.order_id)

-- Either handler, with or without a failure, moves the payment of every order forwards or not at
-- all, from none to charged to refunded, and leaves the payments of other orders alone.
pub payment-Advances :
    (fault : Option Thrown) (body : StepRequestBody) (t : Payments) (order_id : String)
    → Advances (t order_id) ((charge_payment_handler fault body t).1 order_id)
      × Advances (t order_id) ((refund_payment_handler fault body t).1 order_id)
      × (order_id ≢ body.order_id
          → ((charge_payment_handler fault body t).1 order_id ≡ t order_id)
            × ((refund_payment_handler fault body t).1 order_id ≡ t order_id))
payment-Advances fault body t order_id = (
  charge-Advances body t order_id fault,
  refund-Advances body t order_id fault,
  others_alone body t order_id fault,
)

-- The answer of a refund.
abbrev pub refund_reply : StepRequestBody → Bool → Result Data
refund_reply body affected = ok (
    ("orderId", text body.order_id) ∷ ("status", text "REFUNDED") ∷ ("changed", flag affected) ∷ [])

abbrev pub payment_of : StepRequestBody → PaymentState → Option PaymentRow
payment_of body status = some (record { amount = body.amount; status = status })

charge_free :
    (body : StepRequestBody) (t : Payments)
    → t body.order_id ≡ none
    → charge_payment_handler none body t ≡ (
      ok (
          ("orderId", text body.order_id)
          ∷ ("amount", text body.amount)
          ∷ ("status", text "CHARGED")
          ∷ []),
      store body.order_id (payment_of body charged) t,
    )
unfolding charge_payment_handler
charge_free body t free = ground arith

refund_charged :
    (body : StepRequestBody) (t : Payments)
    → t body.order_id ≡ payment_of body charged
    → refund_payment_handler none body t
      ≡ (refund_reply body true, store body.order_id (payment_of body refunded) t)
unfolding refund_payment_handler
refund_charged body t there = rw (there, refund_payment_handler) refl

refund_refunded :
    (body : StepRequestBody) (t : Payments)
    → t body.order_id ≡ payment_of body refunded
    → refund_payment_handler none body t ≡ (refund_reply body false, t)
unfolding refund_payment_handler
refund_refunded body t there =
    rw (there, refund_payment_handler)
      (ap (λ p. (refund_reply body false, p)) (store_again body.order_id _ t there))

-- For an order without a payment: a charge answers with the amount and records it, a refund after it
-- answers with `changed` true and marks that payment refunded, and neither touches another row; a
-- second refund answers with `changed` false and leaves the whole table as it is.
pub refund-charge :
    (body : StepRequestBody) (t : Payments)
    → t body.order_id ≡ none
    → let charge = charge_payment_handler none body t in
      let refund = refund_payment_handler none body charge.1 in
      (charge ≡ (
        ok (
            ("orderId", text body.order_id)
            ∷ ("amount", text body.amount)
            ∷ ("status", text "CHARGED")
            ∷ []),
        store body.order_id (payment_of body charged) t,
      ))
      × (refund ≡ (refund_reply body true, store body.order_id (payment_of body refunded) t))
      × (refund_payment_handler none body refund.1 ≡ (refund_reply body false, refund.1))
refund-charge body t free =
    let first = charge_free body t free in
    let t1 = store body.order_id (payment_of body charged) t in
    let t2 = store body.order_id (payment_of body refunded) t in
    let second : refund_payment_handler none body (charge_payment_handler none body t).1
        ≡ (refund_reply body true, t2) =
      ap (λ c. refund_payment_handler none body c.1) first
      ∙ refund_charged body t1 (store_self body.order_id _ t)
      ∙ ap (λ u. (refund_reply body true, u)) (store_twice body.order_id _ _ t) in
    (first, second, rw second (refund_refunded body t2 (store_self body.order_id _ t)))
