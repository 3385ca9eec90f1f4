-- ===== src/Services/Shipping.antt =====
-- The shipping service (services/shipping/src/index.ts) over its table `shipments` of
-- db/02-services.sql.
pub mod Lifecycle
use Prim.Native.String
use order_saga.Prelude.{String, Bool, true, false, Option, none, some, [], ◌∷◌, Table, store}
use order_saga.Shared.Types.{Data, text, flag, StepRequestBody}
use order_saga.Shared.Errors.{Thrown, driver_error}
use order_saga.Shared.Exec.{Result, ok, err, Exec}
use order_saga.Shared.Idempotency.{statement}

pub data ShipmentState : Type 0 where
  created cancelled : ShipmentState

pub record ShipmentRow : Type 0 where
  pub tracking_no : String
  pub status : ShipmentState

abbrev pub Shipments : Type 0
Shipments = Table ShipmentRow

-- Derived from the order id, never drawn.
unfoldable pub tracking_number : String → String
tracking_number order_id = String.◌++◌ "TRK-" order_id

-- `INSERT INTO shipments`, which a second row of one order id fails.
unfoldable pub insert_shipment : StepRequestBody → Exec Shipments (Unit {0})
unfolding tracking_number
insert_shipment body t = elim (t body.order_id) [
  | some _ ↦ (err (driver_error "Duplicate entry" "ER_DUP_ENTRY" 1062), t)
  | none ↦ (
    ok tt,
    store body.order_id
        (some (record { tracking_no = tracking_number body.order_id; status = created })) t,
  )
]

abbrev reply_created : StepRequestBody → Result (Unit {0}) × Shipments → Result Data × Shipments
reply_created body (ok _, t) = (
  ok (
      ("orderId", text body.order_id)
      ∷ ("trackingNo", text (tracking_number body.order_id))
      ∷ ("status", text "CREATED")
      ∷ []),
  t,
)
reply_created body (err e, t) = (err e, t)

-- The handler of CREATE_SHIPMENT.
unfoldable pub create_shipment_handler : Option Thrown → StepRequestBody → Exec Shipments Data
unfolding insert_shipment
create_shipment_handler fault body t = reply_created body (statement fault (insert_shipment body) t)

-- `UPDATE shipments SET status = 'CANCELLED' … WHERE order_id = ? AND status = 'CREATED'`, with
-- whether a row was changed.
abbrev pub cancel_row : Option ShipmentRow → Bool × Option ShipmentRow
cancel_row none = (false, none)
cancel_row (some r) = elim r.status [
  | created ↦ (true, some (record r { status = cancelled }))
  | cancelled ↦ (false, some r)
]

-- The handler of CANCEL_SHIPMENT.
unfoldable pub cancel_shipment_handler : Option Thrown → StepRequestBody → Exec Shipments Data
cancel_shipment_handler (some e) body t = (err e, t)
cancel_shipment_handler none body t =
    let (affected, row) = cancel_row (t body.order_id) in
    (
      ok (
          ("orderId", text body.order_id)
          ∷ ("status", text "CANCELLED")
          ∷ ("changed", flag affected)
          ∷ []),
      store body.order_id row t,
    )
