-- ===== src/Coordinator/Api.antt =====
-- The routes of the coordinator's API (services/coordinator/src/api.ts) that read or change orders.
-- One tick stands for the statements of the query that a route makes.
pub mod Routes
use order_saga.Prelude.{
  ℕ, ℤ, pos, pos_part, min, max, String, Bool, true, false, Option, none, some, List, [], ◌∷◌, find,
  nat_eq, ◌==◌, if◌then◌else◌,
}
use order_saga.Shared.Types.{
  OrderStatus, pending, in_progress, placed, compensating, cancelled, needs_attention, shipped,
  Step,
}
use order_saga.Shared.Errors.{Thrown, value}
use order_saga.Shared.Exec.{Result, ok, err, Exec, pure, throw, catch, ◌>>=◌, ◌>>◌}
use order_saga.Shared.Params.{read_number}
use order_saga.Coordinator.Repository.{SagaDb, OrderRow, StepRow, AttemptRow, ClaimedOrder}
use order_saga.Coordinator.Queries.{
  OrderListPage, list_orders, get_stats, get_order_detail, claim_for_retry, mark_shipped,
}
use order_saga.Coordinator.Saga.{World, SagaDeps, query, retry_compensation}

pub data ApiBody : Type 0 where
  health : String → ApiBody
  stats : (OrderStatus → ℕ) → ApiBody
  listing : OrderListPage → ApiBody
  detail : OrderRow × (Step → Option StepRow) × List AttemptRow → ApiBody
  retried : String → OrderStatus → ApiBody
  marked : String → ApiBody
  refused : String → ApiBody
  -- the message of an `Error`, or `internal error`
  failed_with : Thrown → ApiBody

pub record ApiResponse : Type 0 where
  pub status : ℕ
  pub body : ApiBody

abbrev pub json : ApiBody → ApiResponse
json body = record { status = 200; body = body }

-- `VALID_STATUSES`
abbrev pub valid_statuses : List (String × OrderStatus)
valid_statuses =
    ("PENDING", pending)
    ∷ ("IN_PROGRESS", in_progress)
    ∷ ("PLACED", placed)
    ∷ ("COMPENSATING", compensating)
    ∷ ("CANCELLED", cancelled)
    ∷ ("NEEDS_ATTENTION", needs_attention)
    ∷ ("SHIPPED", shipped)
    ∷ []

abbrev pub status_of : Option (String × OrderStatus) → Option OrderStatus
status_of none = none
status_of (some x) = some x.1

-- A text that is no status is no filter.
unfoldable pub parse_status : Option String → Option OrderStatus
parse_status none = none
parse_status (some raw) = status_of (find (λ x. x.0 == raw) valid_statuses)

-- `Math.max(1, …)`, which a negative number does not pass.
unfoldable pub parse_page : (String → Option ℤ) → Option String → ℕ
unfolding read_number
parse_page number raw = max 1 (pos_part (read_number number 1 raw))

unfoldable pub parse_page_size : (String → Option ℤ) → Option String → ℕ
unfolding read_number
parse_page_size number raw = min 200 (max 1 (pos_part (read_number number 25 raw)))

pub record ListQuery : Type 0 where
  pub status : Option String
  pub page : Option String
  pub page_size : Option String

-- The error middleware.
unfoldable pub api_error : Thrown → ApiResponse
api_error e = record { status = 500; body = failed_with e }

-- `asyncRoute`: what the handler throws goes to the error middleware.
unfoldable pub async_route : {S : Type 0} → Exec S ApiResponse → Exec S ApiResponse
unfolding api_error
async_route handler = catch handler (λ e. pure (api_error e))

module _ {R : Type 0} (deps : SagaDeps R) where
  -- `GET /health`
  unfoldable pub health_route : Exec (World R) ApiResponse
  unfolding async_route
  health_route =
      async_route (query deps (λ now db. (tt {0}, db)) >> pure (json (health deps.instance_id)))

  -- `GET /api/stats`
  unfoldable pub stats_route : Exec (World R) ApiResponse
  unfolding async_route
  stats_route =
      async_route (query deps (λ now db. (get_stats db, db)) >>= λ s. pure (json (stats s)))

  -- `GET /api/orders`
  unfoldable pub orders_route : (String → Option ℤ) → ListQuery → Exec (World R) ApiResponse
  unfolding async_route parse_status parse_page parse_page_size
  orders_route number q = async_route (
      query deps (λ now db. (
        list_orders (parse_status q.status) (parse_page number q.page)
            (parse_page_size number q.page_size) db,
        db,
      ))
      >>= λ p. pure (json (listing p)))

  abbrev pub found_detail :
      Option (OrderRow × (Step → Option StepRow) × List AttemptRow) → ApiResponse
  found_detail none = record { status = 404; body = refused "order not found" }
  found_detail (some d) = json (detail d)

  -- `GET /api/orders/:orderId`
  unfoldable pub detail_route : String → Exec (World R) ApiResponse
  unfolding async_route
  detail_route order_id =
      async_route
        (query deps (λ now db. (get_order_detail order_id db, db)) >>= λ d. pure (found_detail d))

  abbrev pub retry_claimed : String → Option ClaimedOrder → Exec (World R) ApiResponse
  retry_claimed order_id none = pure (record {
    status = 409;
    body = refused "order is not in NEEDS_ATTENTION, or a retry is already running";
  })
  retry_claimed order_id (some order) =
      retry_compensation deps order >>= λ status. pure (json (retried order_id status))

  -- `POST /api/orders/:orderId/retry`
  unfoldable pub retry_route : String → Exec (World R) ApiResponse
  unfolding async_route
  retry_route order_id = async_route (
      query deps (λ now db. claim_for_retry now order_id deps.instance_id deps.lease_ttl_ms db)
      >>= retry_claimed order_id)

  abbrev pub shipped_answer : String → Bool → ApiResponse
  shipped_answer order_id true = json (marked order_id)
  shipped_answer order_id false = record {
    status = 409;
    body = refused "only a PLACED order can be marked shipped";
  }

  -- `POST /api/orders/:orderId/mark-shipped`
  unfoldable pub mark_shipped_route : String → Exec (World R) ApiResponse
  unfolding async_route
  mark_shipped_route order_id =
      async_route
        (query deps (λ now db. mark_shipped order_id db) >>= λ b. pure (shipped_answer order_id b))
