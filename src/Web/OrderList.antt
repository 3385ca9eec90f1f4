-- ===== src/Web/OrderList.antt =====
-- The list of orders of the web client (web/src/app/features/order-list/order-list.ts): its signals,
-- its handlers, and the responses to the loads that it has sent, which may come in any order. The strip
-- of counts is left out.
pub mod Current
pub mod Params
use order_saga.Prelude.{
  ℕ, suc, ◌+◌, ◌-◌, ◌/◌, max, ◌≡◌, String, Bool, true, false, not, ◌||◌, Option, none, some, List,
  [], ◌∷◌, ◌++◌, ltb, if◌then◌else◌,
}
use order_saga.Shared.Types.{OrderStatus}
use order_saga.Coordinator.Queries.{OrderListItem, OrderListPage}

-- `options` of `listOrders`
pub record ListOptions : Type 0 where
  pub status : Option OrderStatus
  pub page : ℕ
  pub page_size : ℕ

-- The signals. `requests` are the loads without a response, in the order in which they were sent.
pub record View : Type 0 where
  pub orders : List OrderListItem
  pub total : ℕ
  pub page : ℕ
  pub page_size : ℕ
  pub status_filter : Option OrderStatus
  pub loading : Bool
  pub error : Option String
  pub auto_refresh : Bool
  pub busy_order_id : Option String
  pub requests : List ListOptions

abbrev pub list_options : View → ListOptions
list_options v = record { status = v.status_filter; page = v.page; page_size = v.page_size }

-- `Math.max(1, Math.ceil(total / pageSize))`
unfoldable pub total_pages : View → ℕ
total_pages v = max 1 ((v.total + v.page_size - 1) / v.page_size)

unfoldable pub load : View → View
load v = record v { loading = true; error = none; requests = v.requests ++ list_options v ∷ [] }

-- The response to a load, after which these requests are left.
unfoldable pub load_next : OrderListPage → List ListOptions → View → View
load_next p left v = record v {
  orders = p.items;
  total = p.total;
  loading = false;
  requests = left;
}

unfoldable pub load_error : String → List ListOptions → View → View
load_error message left v = record v { error = some message; loading = false; requests = left }

unfoldable pub set_status : Option OrderStatus → View → View
unfolding load
set_status status v = load (record v { status_filter = status; page = 1 })

unfoldable pub go_to : ℕ → View → View
unfolding load total_pages
go_to page v = if ltb page 1 || ltb (total_pages v) page then v else load (record v { page = page })

unfoldable pub toggle_auto_refresh : View → View
toggle_auto_refresh v = record v { auto_refresh = not v.auto_refresh }

-- The callback of the interval.
unfoldable pub on_timer : View → View
unfolding load
on_timer v = if v.auto_refresh then load v else v

-- `retry` and `markShipped` up to the response, and what they do then.
unfoldable pub act : String → View → View
act order_id v = record v { busy_order_id = some order_id }

unfoldable pub act_next : View → View
unfolding load
act_next v = load (record v { busy_order_id = none })

unfoldable pub act_error : String → View → View
act_error message v = record v { busy_order_id = none; error = some message }

abbrev pub blank_view : View
blank_view = record {
  orders = [];
  total = 0;
  page = 1;
  page_size = 25;
  status_filter = none;
  loading = false;
  error = none;
  auto_refresh = false;
  busy_order_id = none;
  requests = [];
}

-- The constructor.
unfoldable pub new_view : View
unfolding load
new_view = load blank_view

-- What the handlers and the responses reach. `answers` is what the server says to each request, and
-- `may` tells which requests may be answered while those before them are not.
pub data ViewRun (answers : ListOptions → OrderListPage) (may : List ListOptions → Bool)
    : View → Type 0 where
  opened : {v : View} → v ≡ new_view → ViewRun answers may v
  on_status :
      {v v' : View} (status : Option OrderStatus)
      → ViewRun answers may v
      → v' ≡ set_status status v
      → ViewRun answers may v'
  on_page :
      {v v' : View} (page : ℕ) → ViewRun answers may v → v' ≡ go_to page v → ViewRun answers may v'
  on_toggle :
      {v v' : View} → ViewRun answers may v → v' ≡ toggle_auto_refresh v → ViewRun answers may v'
  on_interval : {v v' : View} → ViewRun answers may v → v' ≡ on_timer v → ViewRun answers may v'
  on_act :
      {v v' : View} (order_id : String)
      → ViewRun answers may v
      → v' ≡ act order_id v
      → ViewRun answers may v'
  on_act_next : {v v' : View} → ViewRun answers may v → v' ≡ act_next v → ViewRun answers may v'
  on_act_error :
      {v v' : View} (message : String)
      → ViewRun answers may v
      → v' ≡ act_error message v
      → ViewRun answers may v'
  on_answer :
      {v v' : View} (before after : List ListOptions) (q : ListOptions)
      → ViewRun answers may v
      → may before ≡ true
      → v.requests ≡ before ++ q ∷ after
      → v' ≡ load_next (answers q) (before ++ after) v
      → ViewRun answers may v'
  on_failure :
      {v v' : View} (before after : List ListOptions) (q : ListOptions) (message : String)
      → ViewRun answers may v
      → may before ≡ true
      → v.requests ≡ before ++ q ∷ after
      → v' ≡ load_error message (before ++ after) v
      → ViewRun answers may v'
