-- ===== src/Coordinator/Delivery.antt =====
-- A coordinator and a service over a network that loses messages: `executeStep` of
-- services/coordinator/src/saga.ts calls the route that `registerStep` of
-- packages/shared/src/service.ts makes, and the step is executed again by whoever resumes the order. The
-- requests reach the service one after another; those that overlap are in Shared/Idempotency/Together.
pub mod Kept
pub mod Once
use order_saga.Prelude.{ℕ, ℤ, String, Bool, Option, none, some, List, [], ◌∷◌, if◌then◌else◌}
use order_saga.Shared.Types.{Step, StepRequestBody, StepResponseBody}
use order_saga.Shared.Errors.{Thrown, plain}
use order_saga.Shared.Exec.{Result, ok, err, Exec}
use order_saga.Shared.Retry.{Draw}
use order_saga.Shared.Http.{HttpRequest, HttpResponse, Platform}
use order_saga.Shared.Idempotency.{Service, Faults, statement}
use order_saga.Shared.Idempotency.Retries.{advance}
use order_saga.Shared.Service.{
  JsValue, js_null, js_string, js_number, js_bool, RawBody, Body, object, Response, ResponseBody,
  success, failure, StepHandler, register_step,
}
use order_saga.Coordinator.Repository.{ClaimedOrder}
use order_saga.Coordinator.Saga.{World, SagaDeps, execute_step}

abbrev pub text_or_js_null : Option String → JsValue
text_or_js_null none = js_null
text_or_js_null (some s) = js_string s

-- `JSON.stringify(body)` as the service parses it; `digits` is the text of the number.
unfoldable pub to_raw : (ℤ → String) → StepRequestBody → RawBody
to_raw digits body = record {
  order_id = js_string body.order_id;
  sku = js_string body.sku;
  qty = js_number body.qty (digits body.qty);
  amount = js_string body.amount;
  fail_at = text_or_js_null body.fail_at;
  comp_fail_at = text_or_js_null body.comp_fail_at;
  force = js_bool body.force;
}

-- What happens to one request: the time before it, whether it is lost, what fails at the service
-- while it runs, whether its work throws, and whether the response is lost.
pub record Delivery : Type 0 where
  pub delay_ms : ℕ
  pub lost : Option Thrown
  pub faults : Faults
  pub broken : Option Thrown
  pub reply_lost : Option Thrown

-- The service and what happens to the requests to come; those beyond the list are lost.
pub record Net (D : Type 0) : Type 0 where
  pub service : Service D
  pub deliveries : List Delivery

abbrev pub json_of : ResponseBody → Result StepResponseBody
json_of (success r) = ok r
json_of (failure e code) = err (plain "TypeError" code none none none)

abbrev pub to_http : Response → HttpResponse
to_http r = record { status = r.status; json = json_of r.content }

abbrev pub replied :
    {D : Type 0} → Option Thrown → HttpResponse × Net D → Result HttpResponse × Net D
replied none (r, net) = (ok r, net)
replied (some e) (r, net) = (err e, net)

abbrev pub unreachable : Thrown
unreachable = plain "TypeError" "fetch failed" (some "ECONNREFUSED") none none

module _ {D : Type 0} (digits : ℤ → String) (step : Step) (handler : StepHandler D) where
  -- The request reaches the service, which answers.
  unfoldable pub handle_request : Delivery → HttpRequest → Service D → Response × Service D
  unfolding to_raw
  handle_request d r s =
      register_step step (λ body. statement d.broken (handler body)) d.faults
        (object (to_raw digits r.body)) s

  unfoldable pub deliver :
      HttpRequest → Delivery → List Delivery → Service D → Result HttpResponse × Net D
  unfolding handle_request
  deliver r d rest s = elim d.lost [
    | some e ↦ (err e, record { service = s; deliveries = rest })
    | none ↦
        let answer = handle_request d r s in
        replied d.reply_lost (to_http answer.0, record { service = answer.1; deliveries = rest })
  ]

  unfoldable pub net_fetch : HttpRequest → Exec (Net D) HttpResponse
  unfolding deliver
  net_fetch r net = elim net.deliveries [
    | [] ↦ (err unreachable, net)
    | d ∷ rest ↦ deliver r d rest (advance d.delay_ms net.service)
  ]

  -- The platform of a coordinator whose requests go to the service; a wait passes there too.
  abbrev pub net_platform : Platform (Net D)
  net_platform = record {
    fetch = net_fetch;
    sleep = λ ms net. (ok tt, record net { service = advance ms net.service });
    random = λ net. (ok (record { numerator = 0; denominator = 1 }), net);
    now = λ net. net.service.clock;
  }

  -- Coordinators execute the step again and again, each from its own state of its tables.
  pub execute_again : SagaDeps (Net D) → ClaimedOrder → Bool → List (World (Net D)) → Net D → Net D
  execute_again deps order force [] net = net
  execute_again deps order force (w ∷ ws) net =
      execute_again deps order force ws
        (execute_step (record deps { platform = net_platform }) order step force
          (record w { remote = net })).1.remote
