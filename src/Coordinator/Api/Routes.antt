-- ===== src/Coordinator/Api/Routes.antt =====
-- Proofs about the answers of the routes.
use order_saga.Prelude.{
  ℕ, ◌+◌, ◌-◌, ◌*◌, ℤ, zero, suc, ◌≤◌, ◌≡◌, refl, sym, ap, ◌∙◌, ◌⊎◌, inl, inr, String, Bool, true,
  false, Option, none, some, List, [], ◌∷◌, All, All-append, map, select, take, drop, reverse,
  reverse-cons, length, length-map, length-take-le, count_where, count_where-eq-zero, arith,
  Option-cases, Bool-cases, subst,
}
use order_saga.Shared.Types.{OrderStatus, status_eq, needs_attention, compensating}
use order_saga.Shared.Errors.{Thrown}
use order_saga.Shared.Exec.{ok, err}
use order_saga.Coordinator.Repository.{SagaDb, OrderRow, ClaimedOrder}
use order_saga.Coordinator.Queries.{
  OrderListPage, OrderListItem, is_listed, list_item, list_orders, claim_for_retry, has_status,
}
use order_saga.Coordinator.Saga.{World, SagaDeps, query, next_tick, elapse, heartbeat_turn, Tick}
use order_saga.Coordinator.Api.{
  listing, refused, json, ListQuery, parse_status, parse_page, parse_page_size, async_route,
  orders_route, retry_route, api_error,
}

nothing_to_retry :
    (instance_id : String) (ttl now : ℕ) (order_id : String) (db : SagaDb)
    → count_where (has_status order_id needs_attention) db.orders ≡ 0
    → claim_for_retry now order_id instance_id ttl db ≡ (none, db)
unfolding claim_for_retry
nothing_to_retry instance_id ttl now order_id db absent =
    let f : OrderRow → OrderRow = λ r. record r {
      status = compensating;
      lease_owner = some instance_id;
      lease_expires_at = some (now + ttl);
    } in
    rw (absent, count_where-eq-zero (has_status order_id needs_attention) f db.orders absent) refl

module _ {R : Type 0} (deps : SagaDeps R) where
  heartbeat_idle :
      (b : Bool) (timer : Option String) (now : ℕ) (db : SagaDb)
      → timer ≡ none
      → heartbeat_turn deps b timer now db ≡ db
  unfolding heartbeat_turn
  heartbeat_idle true none now db h = refl
  heartbeat_idle true (some x) now db h = absurd (cc)
  heartbeat_idle false none now db h = refl
  heartbeat_idle false (some x) now db h = refl

  -- Without a heartbeat, what passes before a query leaves the tables alone.
  elapse_idle : (t : Tick) (w : World R) → w.timer ≡ none → (elapse deps t w).db ≡ w.db
  unfolding elapse
  elapse_idle t w h = heartbeat_idle t.heartbeat w.timer (w.clock + t.elapsed_ms) w.db h

  abbrev at_query : World R → World R
  at_query w = elapse deps (next_tick w.ticks) w

  query_quiet :
      {A : Type 0} (f : ℕ → SagaDb → A × SagaDb) (w : World R)
      → (next_tick w.ticks).fault ≡ none
      → query deps f w ≡ (
        ok (f (at_query w).clock (at_query w).db).0,
        record (at_query w) { db = (f (at_query w).clock (at_query w).db).1 },
      )
  unfolding query elapse
  query_quiet f w quiet = rw quiet refl

  query_failed :
      {A : Type 0} (f : ℕ → SagaDb → A × SagaDb) (w : World R) (e : Thrown)
      → (next_tick w.ticks).fault ≡ some e
      → query deps f w ≡ (err e, at_query w)
  unfolding query elapse
  query_failed f w e fault = rw fault refl

  -- What the list route asks for.
  abbrev pub asked_page : (String → Option ℤ) → ListQuery → SagaDb → OrderListPage
  asked_page number q db =
      list_orders (parse_status q.status) (parse_page number q.page)
        (parse_page_size number q.page_size) db

  orders_route-answer :
      (number : String → Option ℤ) (q : ListQuery) (w : World R)
      → (next_tick w.ticks).fault ≡ none
      → (orders_route deps number q w).0 ≡ ok (json (listing (asked_page number q (at_query w).db)))
  unfolding orders_route async_route
  orders_route-answer number q w quiet =
      rw (query_quiet (λ now db. (asked_page number q db, db)) w quiet) refl

  orders_route-failed :
      (number : String → Option ℤ) (q : ListQuery) (w : World R) (e : Thrown)
      → (next_tick w.ticks).fault ≡ some e
      → (orders_route deps number q w).0 ≡ ok (api_error e)
  unfolding orders_route async_route
  orders_route-failed number q w e fault =
      rw (query_failed (λ now db. (asked_page number q db, db)) w e fault) refl

  pub orders_route-quiet :
      (number : String → Option ℤ) (q : ListQuery) (w : World R)
      → (next_tick w.ticks).fault ≡ none
      → w.timer ≡ none
      → (orders_route deps number q w).0 ≡ ok (json (listing (asked_page number q w.db)))
  orders_route-quiet number q w quiet idle =
      orders_route-answer number q w quiet
      ∙ ap (λ db. ok (json (listing (asked_page number q db))))
          (elapse_idle (next_tick w.ticks) w idle)

  -- A retry of an order that is not NEEDS_ATTENTION is refused with 409, and nothing changes.
  pub retry_route-refused :
      (order_id : String) (w : World R)
      → (next_tick w.ticks).fault ≡ none
      → w.timer ≡ none
      → count_where (has_status order_id needs_attention) w.db.orders ≡ 0
      → ((retry_route deps order_id w).0
          ≡ ok (record {
            status = 409;
            body = refused "order is not in NEEDS_ATTENTION, or a retry is already running";
          }))
        × ((retry_route deps order_id w).1.db ≡ w.db)
  unfolding retry_route async_route
  retry_route-refused order_id w quiet idle absent =
      let f : ℕ → SagaDb → Option ClaimedOrder × SagaDb =
        λ now db. claim_for_retry now order_id deps.instance_id deps.lease_ttl_ms db in
      let none_here : f (at_query w).clock (at_query w).db ≡ (none, w.db) =
        ap (f (at_query w).clock) (elapse_idle (next_tick w.ticks) w idle)
        ∙ nothing_to_retry deps.instance_id deps.lease_ttl_ms (at_query w).clock order_id w.db
            absent in
      rw (query_quiet f w quiet, none_here) (refl, refl)

-- Every item of a listing passes a test that its row passes.
module _ (P : OrderRow → Type 0) where
  All-reverse : (rows : List OrderRow) → All P rows → All P (reverse rows)
  All-reverse [] h = tt
  All-reverse (r ∷ rows) h =
      subst (All P) (sym (reverse-cons r rows))
        (All-append P (reverse rows) (r ∷ []) (All-reverse rows h.1) (h.0, tt))

  All-take : (n : ℕ) (rows : List OrderRow) → All P rows → All P (take n rows)
  All-take zero rows h = tt
  All-take (suc n) [] h = tt
  All-take (suc n) (r ∷ rows) h = (h.0, All-take n rows h.1)

  All-drop : (n : ℕ) (rows : List OrderRow) → All P rows → All P (drop n rows)
  All-drop zero rows h = h
  All-drop (suc n) [] h = tt
  All-drop (suc n) (r ∷ rows) h = All-drop n rows h.1

selected_status :
    (s : OrderStatus) (rows : List OrderRow)
    → All (λ r. status_eq r.status s ≡ true) (select (is_listed (some s)) rows)
selected_status s [] = tt
selected_status s (r ∷ rows) = elim (Bool-cases (status_eq r.status s)) [
  | inl hit ↦ rw hit (hit, selected_status s rows)
  | inr miss ↦ rw miss (selected_status s rows)
]

item_status :
    (s : OrderStatus) (db : SagaDb) (rows : List OrderRow)
    → All (λ r. status_eq r.status s ≡ true) rows
    → All (λ (i : OrderListItem). status_eq i.status s ≡ true) (map (list_item db) rows)
unfolding list_item
item_status s db [] h = tt
item_status s db (r ∷ rows) h = (h.0, item_status s db rows h.1)

asked_page-length :
    {R : Type 0} (deps : SagaDeps R) (number : String → Option ℤ) (q : ListQuery) (db : SagaDb)
    → length (asked_page deps number q db).items ≤ 200
unfolding list_orders parse_page_size
asked_page-length deps number q db =
    let size = parse_page_size number q.page_size in
    let rows =
      drop ((parse_page number q.page - 1) * size)
        (reverse (select (is_listed (parse_status q.status)) db.orders)) in
    omega (arith, length-map (list_item db) (take size rows), length-take-le size rows)

asked_page-status :
    {R : Type 0} (deps : SagaDeps R) (number : String → Option ℤ) (q : ListQuery) (db : SagaDb)
    (s : OrderStatus)
    → parse_status q.status ≡ some s
    → All (λ (i : OrderListItem). status_eq i.status s ≡ true) (asked_page deps number q db).items
unfolding list_orders
asked_page-status deps number q db s asked =
    let size = parse_page_size number q.page_size in
    let P : OrderRow → Type 0 = λ r. status_eq r.status s ≡ true in
    let rows = reverse (select (is_listed (some s)) db.orders) in
    let offset = (parse_page number q.page - 1) * size in
    rw asked (
      item_status s db (take size (drop offset rows)) (
        All-take P size (drop offset rows) (
          All-drop P offset rows
            (All-reverse P (select (is_listed (some s)) db.orders) (selected_status s db.orders)))))

-- Whatever the query parameters say: the list route answers with 500 exactly if the query fails, with
-- the error of the query; else it answers with at most 200 orders, all of the status that is asked
-- for, if the text is a status.
pub orders_route-listing :
    {R : Type 0} (deps : SagaDeps R) (number : String → Option ℤ) (q : ListQuery) (w : World R)
    → ((e : Thrown) × ((next_tick w.ticks).fault ≡ some e)
        × ((orders_route deps number q w).0 ≡ ok (api_error e))
        × ((api_error e).status ≡ 500))
      ⊎ ((p : OrderListPage) × ((next_tick w.ticks).fault ≡ none)
          × ((orders_route deps number q w).0 ≡ ok (json (listing p)))
          × ((json (listing p)).status ≡ 200)
          × (length p.items ≤ 200)
          × ((s : OrderStatus)
              → parse_status q.status ≡ some s
              → All (λ (i : OrderListItem). status_eq i.status s ≡ true) p.items))
unfolding api_error
orders_route-listing deps number q w = elim (Option-cases (next_tick w.ticks).fault) [
  | inr (e, fault) ↦ inl (e, fault, orders_route-failed deps number q w e fault, refl)
  | inl quiet ↦
      let db = (at_query deps w).db in
      inr (
        asked_page deps number q db,
        quiet,
        orders_route-answer deps number q w quiet,
        refl,
        asked_page-length deps number q db,
        λ s asked. asked_page-status deps number q db s asked,
      )
]
