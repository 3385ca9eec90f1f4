-- ===== src/Services/Payment.antt =====
-- The payment service (services/payment/src/index.ts) over its table `payments` of
-- db/02-services.sql.
pub mod Lifecycle
use order_saga.Prelude.{String, Bool, true, false, Option, none, some, [], ◌∷◌, Table, store}
use order_saga.Shared.Types.{Data, text, flag, StepRequestBody}
use order_saga.Shared.Errors.{Thrown, driver_error}
use order_saga.Shared.Exec.{Result, ok, err, Exec}
use order_saga.Shared.Idempotency.{statement}

pub data PaymentState : Type 0 where
  charged refunded : PaymentState

pub record PaymentRow : Type 0 where
  pub amount : String
  pub status : PaymentState

abbrev pub Payments : Type 0
Payments = Table PaymentRow

-- `INSERT INTO payments`, which a second row of one order id fails.
unfoldable pub insert_payment : StepRequestBody → Exec Payments (Unit {0})
insert_payment body t = elim (t body.order_id) [
  | some _ ↦ (err (driver_error "Duplicate entry" "ER_DUP_ENTRY" 1062), t)
  | none ↦ (ok tt, store body.order_id (some (record { amount = body.amount; status = charged })) t)
]

abbrev reply_charged : StepRequestBody → Result (Unit {0}) × Payments → Result Data × Payments
reply_charged body (ok _, t) = (
  ok (
      ("orderId", text body.order_id)
      ∷ ("amount", text body.amount)
      ∷ ("status", text "CHARGED")
      ∷ []),
  t,
)
reply_charged body (err e, t) = (err e, t)

-- The handler of CHARGE_PAYMENT.
unfoldable pub charge_payment_handler : Option Thrown → StepRequestBody → Exec Payments Data
unfolding insert_payment
charge_payment_handler fault body t = reply_charged body (statement fault (insert_payment body) t)

-- `UPDATE payments SET status = 'REFUNDED' … WHERE order_id = ? AND status = 'CHARGED'`, with whether
-- a row was changed.
abbrev pub refund_row : Option PaymentRow → Bool × Option PaymentRow
refund_row none = (false, none)
refund_row (some r) = elim r.status [
  | charged ↦ (true, some (record r { status = refunded }))
  | refunded ↦ (false, some r)
]

-- The handler of REFUND_PAYMENT.
unfoldable pub refund_payment_handler : Option Thrown → StepRequestBody → Exec Payments Data
refund_payment_handler (some e) body t = (err e, t)
refund_payment_handler none body t =
    let (affected, row) = refund_row (t body.order_id) in
    (
      ok (
          ("orderId", text body.order_id)
          ∷ ("status", text "REFUNDED")
          ∷ ("changed", flag affected)
          ∷ []),
      store body.order_id row t,
    )
