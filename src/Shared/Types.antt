-- ===== src/Shared/Types.antt =====
-- The vocabulary of the system (packages/shared/src/types.ts): steps, statuses, the wire format.
pub mod Laws
use Prim.Native.Char.{code}
use Prim.Native.String
use order_saga.Prelude.{
  ℕ, ◌+◌, ℤ, String, Bool, true, false, ◌&&◌, Option, List, [], ◌∷◌, map, any, leb, nat_eq, ◌==◌,
  if◌then◌else◌,
}

pub data ForwardStep : Type 0 where
  create_order reserve_inventory charge_payment create_shipment : ForwardStep

pub data CompensationStep : Type 0 where
  cancel_order release_inventory refund_payment cancel_shipment : CompensationStep

-- `Step` is the union of the two.
pub data Step : Type 0 where
  forward : ForwardStep → Step
  compensation : CompensationStep → Step

pub data StepKind : Type 0 where
  forward_kind compensation_kind : StepKind

-- The texts of the literal types.
unfoldable pub step_name : Step → String
step_name (forward create_order) = "CREATE_ORDER"
step_name (forward reserve_inventory) = "RESERVE_INVENTORY"
step_name (forward charge_payment) = "CHARGE_PAYMENT"
step_name (forward create_shipment) = "CREATE_SHIPMENT"
step_name (compensation cancel_order) = "CANCEL_ORDER"
step_name (compensation release_inventory) = "RELEASE_INVENTORY"
step_name (compensation refund_payment) = "REFUND_PAYMENT"
step_name (compensation cancel_shipment) = "CANCEL_SHIPMENT"

abbrev pub forward_steps : List ForwardStep
forward_steps = create_order ∷ reserve_inventory ∷ charge_payment ∷ create_shipment ∷ []

abbrev pub compensation_steps : List CompensationStep
compensation_steps = cancel_order ∷ release_inventory ∷ refund_payment ∷ cancel_shipment ∷ []

-- `===` on two steps. The numbers are those of the ENUM column that stores a step.
abbrev pub step_ordinal : Step → ℕ
step_ordinal (forward create_order) = 1
step_ordinal (forward reserve_inventory) = 2
step_ordinal (forward charge_payment) = 3
step_ordinal (forward create_shipment) = 4
step_ordinal (compensation cancel_order) = 5
step_ordinal (compensation release_inventory) = 6
step_ordinal (compensation refund_payment) = 7
step_ordinal (compensation cancel_shipment) = 8

abbrev pub step_eq : Step → Step → Bool
step_eq a b = nat_eq (step_ordinal a) (step_ordinal b)

-- `COMPENSATION_OF`
unfoldable pub compensation_of : ForwardStep → CompensationStep
compensation_of create_order = cancel_order
compensation_of reserve_inventory = release_inventory
compensation_of charge_payment = refund_payment
compensation_of create_shipment = cancel_shipment

pub data ServiceName : Type 0 where
  order inventory payment shipping : ServiceName

-- `STEP_SERVICE`
unfoldable pub step_service : Step → ServiceName
step_service (forward create_order) = order
step_service (compensation cancel_order) = order
step_service (forward reserve_inventory) = inventory
step_service (compensation release_inventory) = inventory
step_service (forward charge_payment) = payment
step_service (compensation refund_payment) = payment
step_service (forward create_shipment) = shipping
step_service (compensation cancel_shipment) = shipping

abbrev pub codes : String → List ℕ
codes String.[] = []
codes (String.◌∷◌ c s) = code c ∷ codes s

-- `toLowerCase` on an ASCII character, and `replace(/_/g, '-')`.
to_lower_case : ℕ → ℕ
to_lower_case c = if leb b'A' c && leb c b'Z' then c + 32 else c

replace_underscore : ℕ → ℕ
replace_underscore c = if nat_eq c b'_' then b'-' else c

-- A path as its bytes.
unfoldable pub step_path : Step → List ℕ
unfolding step_name to_lower_case replace_underscore
step_path step = b'/' ∷ map replace_underscore (map to_lower_case (codes (step_name step)))

unfoldable pub is_forward_step : Step → Bool
is_forward_step step = any (λ f. step_eq (forward f) step) forward_steps

unfoldable pub step_kind : Step → StepKind
unfolding is_forward_step
step_kind step = if is_forward_step step then forward_kind else compensation_kind

unfoldable pub idempotency_key : String → Step → String
unfolding step_name
idempotency_key order_id step = String.◌++◌ order_id (String.◌++◌ ":" (step_name step))

pub data OrderStatus : Type 0 where
  pending in_progress placed compensating cancelled needs_attention shipped : OrderStatus

abbrev pub status_ordinal : OrderStatus → ℕ
status_ordinal pending = 1
status_ordinal in_progress = 2
status_ordinal placed = 3
status_ordinal compensating = 4
status_ordinal cancelled = 5
status_ordinal needs_attention = 6
status_ordinal shipped = 7

abbrev pub status_eq : OrderStatus → OrderStatus → Bool
status_eq a b = nat_eq (status_ordinal a) (status_ordinal b)

pub data StepStatus : Type 0 where
  waiting running succeeded failed skipped : StepStatus

abbrev pub is_succeeded : StepStatus → Bool
is_succeeded succeeded = true
is_succeeded _ = false

pub data AttemptOutcome : Type 0 where
  outcome_succeeded outcome_failed outcome_timeout : AttemptOutcome

-- `StepRequestBody`. An amount is a text all the way; a quantity is an integer.
pub record StepRequestBody : Type 0 where
  pub order_id : String
  pub sku : String
  pub qty : ℤ
  pub amount : String
  pub fail_at : Option String
  pub comp_fail_at : Option String
  pub force : Bool

-- The values that the services put into `data`.
pub data Field : Type 0 where
  text : String → Field
  number : ℤ → Field
  flag : Bool → Field

abbrev pub Data : Type 0
Data = List (String × Field)

pub record StepResponseBody : Type 0 where
  pub operation : Step
  pub order_id : String
  pub replayed : Bool
  pub response_data : Data
