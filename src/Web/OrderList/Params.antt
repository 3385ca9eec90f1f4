-- ===== src/Web/OrderList/Params.antt =====
-- The request of the list (`listOrders` of web/src/app/core/api.ts) as the coordinator reads it.
use order_saga.Prelude.{
  ℕ, ◌≤◌, ◌≡◌, refl, ◌∙◌, false, ℤ, pos, max, min, nat_eq, String, Option, none, some, arith,
}
use order_saga.Shared.Types.{
  OrderStatus, pending, in_progress, placed, compensating, cancelled, needs_attention, shipped,
}
use order_saga.Shared.Params.{read_number}
use order_saga.Shared.Exec.{ok}
use order_saga.Coordinator.Saga.{World, SagaDeps, next_tick}
use order_saga.Coordinator.Queries.{list_orders}
use order_saga.Coordinator.Api.{
  ListQuery, listing, json, parse_status, parse_page, parse_page_size, orders_route,
}
use order_saga.Coordinator.Api.Routes.{orders_route-quiet}
use order_saga.Web.OrderList.{ListOptions}

-- The values of `OrderStatus` in web/src/app/core/models.ts.
abbrev pub status_text : OrderStatus → String
status_text pending = "PENDING"
status_text in_progress = "IN_PROGRESS"
status_text placed = "PLACED"
status_text compensating = "COMPENSATING"
status_text cancelled = "CANCELLED"
status_text needs_attention = "NEEDS_ATTENTION"
status_text shipped = "SHIPPED"

abbrev pub status_param : Option OrderStatus → Option String
status_param none = none
status_param (some status) = some (status_text status)

-- `show` is `String` on a number.
unfoldable pub list_params : (ℕ → String) → ListOptions → ListQuery
list_params show o = record {
  status = status_param o.status;
  page = some (show o.page);
  page_size = some (show o.page_size);
}

parse_status-status_param :
    (status : Option OrderStatus) → parse_status (status_param status) ≡ status
unfolding parse_status
parse_status-status_param none = refl
parse_status-status_param (some pending) = refl
parse_status-status_param (some in_progress) = refl
parse_status-status_param (some placed) = refl
parse_status-status_param (some compensating) = refl
parse_status-status_param (some cancelled) = refl
parse_status-status_param (some needs_attention) = refl
parse_status-status_param (some shipped) = refl

module _ (show : ℕ → String) (number : String → Option ℤ)
    (reads : (n : ℕ) → number (show n) ≡ some (pos n)) where
  parse_page-show : (n : ℕ) → 1 ≤ n → parse_page number (some (show n)) ≡ n
  unfolding parse_page read_number
  parse_page-show n le =
      let not_zero : nat_eq n 0 ≡ false = ground (arith, le) in
      let largest : max 1 n ≡ n = omega (arith, le) in rw (reads n, not_zero) largest

  parse_page_size-show : (n : ℕ) → 1 ≤ n → n ≤ 200 → parse_page_size number (some (show n)) ≡ n
  unfolding parse_page_size read_number
  parse_page_size-show n le ge =
      let not_zero : nat_eq n 0 ≡ false = ground (arith, le) in
      let clamped : min 200 (max 1 n) ≡ n = omega (arith, le, ge) in rw (reads n, not_zero) clamped

  -- The coordinator, if its query does not fail, answers the web client's request for a page with
  -- that page of the orders of the status that is asked for, for pages from 1 on and page sizes from
  -- 1 to 200.
  pub list_params-answered :
      {R : Type 0} (deps : SagaDeps R) (o : ListOptions) (w : World R)
      → (next_tick w.ticks).fault ≡ none
      → w.timer ≡ none
      → 1 ≤ o.page
      → 1 ≤ o.page_size
      → o.page_size ≤ 200
      → (orders_route deps number (list_params show o) w).0
        ≡ ok (json (listing (list_orders o.status o.page o.page_size w.db)))
  unfolding list_params
  list_params-answered deps o w quiet idle page size most =
      orders_route-quiet deps number (list_params show o) w quiet idle
      ∙ rw
          (
            parse_status-status_param o.status,
            parse_page-show o.page page,
            parse_page_size-show o.page_size size most,
          )
          refl
