-- ===== src/Services/Order.antt =====
-- The order service (services/order/src/index.ts) over its table `orders` of db/02-services.sql.
pub mod Lifecycle
use order_saga.Prelude.{ℤ, String, Bool, true, false, Option, none, some, [], ◌∷◌, Table, store}
use order_saga.Shared.Types.{Data, text, flag, StepRequestBody}
use order_saga.Shared.Errors.{Thrown, driver_error}
use order_saga.Shared.Exec.{Result, ok, err, Exec}
use order_saga.Shared.Idempotency.{statement}

pub data OrderState : Type 0 where
  created cancelled : OrderState

pub record OrderRow : Type 0 where
  pub sku : String
  pub qty : ℤ
  pub amount : String
  pub status : OrderState

abbrev pub Orders : Type 0
Orders = Table OrderRow

-- `INSERT INTO orders`, which a second row of one order id fails.
unfoldable pub insert_order : StepRequestBody → Exec Orders (Unit {0})
insert_order body t = elim (t body.order_id) [
  | some _ ↦ (err (driver_error "Duplicate entry" "ER_DUP_ENTRY" 1062), t)
  | none ↦ (
    ok tt,
    store body.order_id
        (some (record { sku = body.sku; qty = body.qty; amount = body.amount; status = created }))
        t,
  )
]

abbrev reply_created : StepRequestBody → Result (Unit {0}) × Orders → Result Data × Orders
reply_created body (ok _, t) =
    (ok (("orderId", text body.order_id) ∷ ("status", text "CREATED") ∷ []), t)
reply_created body (err e, t) = (err e, t)

-- The handler of CREATE_ORDER.
unfoldable pub create_order_handler : Option Thrown → StepRequestBody → Exec Orders Data
unfolding insert_order
create_order_handler fault body t = reply_created body (statement fault (insert_order body) t)

-- `UPDATE orders SET status = 'CANCELLED' … WHERE order_id = ? AND status = 'CREATED'`, with whether
-- a row was changed.
abbrev pub cancel_row : Option OrderRow → Bool × Option OrderRow
cancel_row none = (false, none)
cancel_row (some r) = elim r.status [
  | created ↦ (true, some (record r { status = cancelled }))
  | cancelled ↦ (false, some r)
]

-- The handler of CANCEL_ORDER.
unfoldable pub cancel_order_handler : Option Thrown → StepRequestBody → Exec Orders Data
cancel_order_handler (some e) body t = (err e, t)
cancel_order_handler none body t =
    let (affected, row) = cancel_row (t body.order_id) in
    (
      ok (
          ("orderId", text body.order_id)
          ∷ ("status", text "CANCELLED")
          ∷ ("changed", flag affected)
          ∷ []),
      store body.order_id row t,
    )
