-- ===== src/Shared/Service.antt =====
-- The plumbing of a worker service (packages/shared/src/service.ts): validation of a request, fault
-- injection, the route of a step and the mapping of errors to statuses.
pub mod Statuses
pub mod Injection
use order_saga.Prelude.{
  ℕ, ℤ, pos, String, Bool, true, false, not, ◌&&◌, Option, none, some, ◌==◌, if◌then◌else◌,
}
use order_saga.Shared.Types.{
  Step, Data, StepRequestBody, StepResponseBody, step_name, is_forward_step, idempotency_key,
}
use order_saga.Shared.Errors.{Thrown, business_rule, injected_failure, operation_in_progress}
use order_saga.Shared.Exec.{Result, ok, err, Exec}
use order_saga.Shared.Idempotency.{
  Service, Faults, IdempotentResult, default_options, run_idempotent,
}

-- A field of a parsed JSON body. Numbers and other values carry what `String` makes of them.
pub data JsValue : Type 0 where
  js_undefined : JsValue
  js_null : JsValue
  js_string : String → JsValue
  js_number : ℤ → String → JsValue
  js_bool : Bool → JsValue
  js_object : String → JsValue

pub record RawBody : Type 0 where
  pub order_id : JsValue
  pub sku : JsValue
  pub qty : JsValue
  pub amount : JsValue
  pub fail_at : JsValue
  pub comp_fail_at : JsValue
  pub force : JsValue

-- `req.body`: an object, or a value that is none.
pub data Body : Type 0 where
  object : RawBody → Body
  not_object : Body

abbrev pub string_or : String → JsValue → String
string_or d (js_string s) = s
string_or d _ = d

abbrev pub string_or_null : JsValue → Option String
string_or_null (js_string s) = some s
string_or_null _ = none

abbrev pub number_or_zero : JsValue → ℤ
number_or_zero (js_number n _) = n
number_or_zero _ = pos 0

abbrev pub is_true : JsValue → Bool
is_true (js_bool b) = b
is_true _ = false

-- `typeof v === 'string' ? v : String(v ?? '0')`
abbrev pub amount_text : JsValue → String
amount_text js_undefined = "0"
amount_text js_null = "0"
amount_text (js_string s) = s
amount_text (js_number _ s) = s
amount_text (js_bool b) = if b then "true" else "false"
amount_text (js_object s) = s

unfoldable pub validate_object : String → RawBody → Result StepRequestBody
validate_object order_id b =
    if order_id == ""
    then err (business_rule "orderId is required")
    else ok (record {
      order_id = order_id;
      sku = string_or "" b.sku;
      qty = number_or_zero b.qty;
      amount = amount_text b.amount;
      fail_at = string_or_null b.fail_at;
      comp_fail_at = string_or_null b.comp_fail_at;
      force = is_true b.force;
    })

unfoldable pub validate_body : Body → Result StepRequestBody
unfolding validate_object
validate_body not_object = err (business_rule "body must be an object")
validate_body (object b) = elim b.order_id [
  | js_string order_id ↦ validate_object order_id b
  | _ ↦ err (business_rule "orderId is required")
]

-- `text === step`
abbrev pub names_step : Option String → Step → Bool
names_step none step = false
names_step (some text) step = text == step_name step

unfoldable pub is_injected : Step → StepRequestBody → Bool
unfolding is_forward_step step_name
is_injected step body =
    if is_forward_step step
    then names_step body.fail_at step
    else names_step body.comp_fail_at step && not body.force

unfoldable pub assert_no_injected_failure : Step → StepRequestBody → Result (Unit {0})
unfolding is_injected
assert_no_injected_failure step body =
    if is_injected step body then err (injected_failure step) else ok tt

-- `failure e code` sends the message of `e`, with `code`.
pub data ResponseBody : Type 0 where
  success : StepResponseBody → ResponseBody
  failure : Thrown → String → ResponseBody

pub record Response : Type 0 where
  pub status : ℕ
  pub content : ResponseBody

unfoldable pub error_middleware : Thrown → Response
error_middleware (operation_in_progress key) = record {
  status = 409;
  content = failure (operation_in_progress key) "IN_PROGRESS";
}
error_middleware (business_rule message) = record {
  status = 422;
  content = failure (business_rule message) "BUSINESS_RULE";
}
error_middleware (injected_failure step) = record {
  status = 500;
  content = failure (injected_failure step) "INJECTED_FAILURE";
}
error_middleware e = record { status = 500; content = failure e "INTERNAL" }

abbrev pub StepHandler : Type 0 → Type 0
StepHandler D = StepRequestBody → Exec D Data

abbrev pub respond :
    {D : Type 0} → Step → String → Result IdempotentResult × Service D → Response × Service D
respond step order_id (ok r, s) = (
  record {
    status = 200;
    content = success (record {
      operation = step;
      order_id = order_id;
      replayed = r.replayed;
      response_data = r.result;
    });
  },
  s,
)
respond step order_id (err e, s) = (error_middleware e, s)

module _ {D : Type 0} (step : Step) (handler : StepHandler D) (faults : Faults) where
  unfoldable pub run_step : StepRequestBody → Service D → Response × Service D
  unfolding run_idempotent idempotency_key error_middleware
  run_step body s = respond step body.order_id (
      run_idempotent
        (record {
          key = idempotency_key body.order_id step;
          operation = step;
          order_id = body.order_id;
        })
        default_options faults (handler body) s)

  abbrev pub after_injection :
      StepRequestBody → Result (Unit {0}) → Service D → Response × Service D
  after_injection body (ok _) s = run_step body s
  after_injection body (err e) s = (error_middleware e, s)

  abbrev pub after_validation : Result StepRequestBody → Service D → Response × Service D
  after_validation (ok body) s = after_injection body (assert_no_injected_failure step body) s
  after_validation (err e) s = (error_middleware e, s)

  -- `POST /<kebab-step>`
  unfoldable pub register_step : Body → Service D → Response × Service D
  unfolding validate_body assert_no_injected_failure run_step
  register_step raw s = after_validation (validate_body raw) s
