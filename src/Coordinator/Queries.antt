-- ===== src/Coordinator/Queries.antt =====
-- The statements behind the coordinator's API that change an order, and what it reads of one
-- (services/coordinator/src/queries.ts).
pub mod Guards
pub mod Pages
use order_saga.Prelude.{
  ℕ, ◌+◌, String, Bool, true, false, ◌&&◌, Option, none, some, List, map, find, select, length,
  update_where, count_where, nat_eq, ◌-◌, ◌*◌, ℤ, reverse, take, drop, ◌++◌, ◌==◌, if◌then◌else◌,
}
use order_saga.Shared.Types.{
  OrderStatus, placed, shipped, compensating, needs_attention, status_eq, Step, forward,
  compensation, forward_steps, compensation_steps, is_succeeded,
}
use order_saga.Coordinator.Repository.{
  OrderRow, StepRow, AttemptRow, SagaDb, ClaimedOrder, to_claimed_order,
}

-- An item of the list, without the time of the last update, which the tables here do not keep.
pub record OrderListItem : Type 0 where
  pub order_id : String
  pub sku : String
  pub qty : ℤ
  pub amount : String
  pub status : OrderStatus
  pub steps_done : ℕ
  pub steps_total : ℕ

pub record OrderListPage : Type 0 where
  pub items : List OrderListItem
  pub total : ℕ
  pub page : ℕ
  pub page_size : ℕ

-- `WHERE o.status = ?`, if a status is given.
abbrev pub is_listed : Option OrderStatus → OrderRow → Bool
is_listed none r = true
is_listed (some status) r = status_eq r.status status

-- A step of the order has a row that passes the test.
abbrev pub step_matches : (StepRow → Bool) → Option StepRow → Bool
step_matches p none = false
step_matches p (some r) = p r

-- `SELECT COUNT(*) FROM saga_steps`
abbrev pub count_steps : (StepRow → Bool) → String → SagaDb → ℕ
count_steps p order_id db =
    count_where (λ s. step_matches p (db.steps order_id s))
      (map forward forward_steps ++ map compensation compensation_steps)

unfoldable pub list_item : SagaDb → OrderRow → OrderListItem
list_item db r = record {
  order_id = r.order_id;
  sku = r.sku;
  qty = r.qty;
  amount = r.amount;
  status = r.status;
  steps_done = count_steps (λ s. is_succeeded s.status) r.order_id db;
  steps_total = count_steps (λ _. true) r.order_id db;
}

-- `ORDER BY o.id DESC LIMIT page_size OFFSET (page - 1) * page_size`; the pages begin with 1.
unfoldable pub list_orders : Option OrderStatus → ℕ → ℕ → SagaDb → OrderListPage
unfolding list_item
list_orders status page page_size db =
    let listed = select (is_listed status) db.orders in
    let offset = (page - 1) * page_size in
    record {
      items = map (list_item db) (take page_size (drop offset (reverse listed)));
      total = length listed;
      page = page;
      page_size = page_size;
    }

-- `WHERE order_id = ? AND status = …`
abbrev pub has_status : String → OrderStatus → OrderRow → Bool
has_status order_id status r = r.order_id == order_id && status_eq r.status status

abbrev pub claimed_back : Option OrderRow → Option ClaimedOrder
claimed_back none = none
claimed_back (some r) = some (record (to_claimed_order r) { status = compensating })

unfoldable pub claim_for_retry : ℕ → String → String → ℕ → SagaDb → Option ClaimedOrder × SagaDb
claim_for_retry now order_id instance_id lease_ttl_ms db =
    let orders =
      update_where (has_status order_id needs_attention)
        (λ r. record r {
          status = compensating;
          lease_owner = some instance_id;
          lease_expires_at = some (now + lease_ttl_ms);
        })
        db.orders in
    (
      if nat_eq (count_where (has_status order_id needs_attention) db.orders) 1
          then claimed_back (find (λ r. r.order_id == order_id) orders)
          else none,
      record db { orders = orders },
    )

unfoldable pub mark_shipped : String → SagaDb → Bool × SagaDb
mark_shipped order_id db = (
  nat_eq (count_where (has_status order_id placed) db.orders) 1,
  record db {
    orders =
        update_where (has_status order_id placed) (λ r. record r { status = shipped }) db.orders;
  },
)

-- The count of one status; a status that no order has is left out of the source's object.
unfoldable pub get_stats : SagaDb → OrderStatus → ℕ
get_stats db status = count_where (λ r. status_eq r.status status) db.orders

-- The order, its steps and its attempts, in the order of the table.
unfoldable pub get_order_detail :
    String → SagaDb → Option (OrderRow × (Step → Option StepRow) × List AttemptRow)
get_order_detail order_id db = elim (find (λ r. r.order_id == order_id) db.orders) [
  | none ↦ none
  | some r ↦ some (r, db.steps order_id, select (λ a. a.order_id == order_id) db.attempts)
]
