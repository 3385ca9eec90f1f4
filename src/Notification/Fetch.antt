-- ===== src/Notification/Fetch.antt =====
-- The pages that a job asks the coordinator for (`fetchShippedOrderIds` over `listOrders`).
use order_saga.Prelude.{
  ℕ, zero, suc, ◌+◌, ◌*◌, ◌-◌, ◌≤◌, ◌≡◌, subst, refl, sym, ap, ◌∙◌, String, false, List, [], ◌∷◌,
  ◌++◌, map, take, take-all, take-drop, drop, drop-drop, length-drop, length-take-full, length-map,
  take-map, drop-map, length, reverse, select, arith, leb, nat_eq, Bool-cases, inl, inr, Option,
  none, some, suc-mul, ℤ, pos, ltb, max, ◌&&◌, if◌then◌else◌,
}
use order_saga.Shared.Types.{shipped}
use order_saga.Shared.Exec.{Result, ok, err}
use order_saga.Coordinator.Repository.{OrderRow, SagaDb}
use order_saga.Coordinator.Queries.{OrderListItem, OrderListPage, is_listed, list_item, list_orders}
use order_saga.Coordinator.Queries.Pages.{length-reverse}
use order_saga.Coordinator.Saga.{World, SagaDeps, next_tick}
use order_saga.Coordinator.Api.{
  ApiResponse, ApiBody, listing, ListQuery, parse_status, parse_page, parse_page_size, orders_route,
}
use order_saga.Shared.Params.{read_number}
use order_saga.Coordinator.Api.Routes.{orders_route-quiet}
use order_saga.Shared.Errors.{plain}
use order_saga.Notification.{OrderListResponse, fetch_shipped_order_ids}

-- Of a page the job reads these.
abbrev pub to_response : OrderListPage → OrderListResponse
to_response p = record {
  items = map (λ (i : OrderListItem). i.order_id) p.items;
  total = p.total;
  page_size = p.page_size;
}

-- The coordinator's answers while its tables stay the same.
abbrev pub shipped_pages : SagaDb → ℕ → ℕ → Result OrderListResponse
shipped_pages db page_size page = ok (to_response (list_orders (some shipped) page page_size db))

abbrev pub shipped_ids : SagaDb → List String
shipped_ids db =
    map (λ (r : OrderRow). r.order_id) (reverse (select (is_listed (some shipped)) db.orders))

item_ids :
    (db : SagaDb) (rows : List OrderRow)
    → map (λ (i : OrderListItem). i.order_id) (map (list_item db) rows)
      ≡ map (λ (r : OrderRow). r.order_id) rows
unfolding list_item
item_ids db [] = refl
item_ids db (r ∷ rows) = ap (λ l. r.order_id ∷ l) (item_ids db rows)

-- A server that answers the pages of a list is read to its end.
module _ (pages : ℕ → Result OrderListResponse) (all : List String) (size : ℕ) (le : 1 ≤ size)
    (answers : (k : ℕ)
      → pages (suc k)
        ≡ ok (record {
          items = take size (drop (k * size) all);
          total = length all;
          page_size = size;
        })) where
  last_page :
      (k : ℕ) → length all ≤ suc k * size → take size (drop (k * size) all) ≡ drop (k * size) all
  last_page k h =
      take-all (drop (k * size) all) size
        (omega (arith, length-drop (k * size) all, h, suc-mul k size))

  -- A page that is not the last is full, and the rest follows it.
  goes_on :
      (k : ℕ)
      → leb (length all) (suc k * size) ≡ false
      → nat_eq (length (take size (drop (k * size) all))) 0 ≡ false
  goes_on k h = ground (
    arith,
    h,
    length-drop (k * size) all,
    length-take-full size (drop (k * size) all),
    le,
    suc-mul k size,
  )

  rest_page :
      (k : ℕ) → take size (drop (k * size) all) ++ drop (suc k * size) all ≡ drop (k * size) all
  rest_page k =
      ap (λ l. take size (drop (k * size) all) ++ l)
        (ap (λ i. drop i all) (suc-mul k size) ∙ sym (drop-drop size (k * size) all))
      ∙ take-drop size (drop (k * size) all)

  fetch-drop :
      (fuel k : ℕ)
      → 1 ≤ fuel
      → length all ≤ (k + fuel) * size
      → fetch_shipped_order_ids pages fuel (suc k) ≡ ok (drop (k * size) all)
  unfolding fetch_shipped_order_ids
  fetch-drop zero k some_fuel enough = absurd (omega (arith, some_fuel))
  fetch-drop (suc fuel) k some_fuel enough = elim (Bool-cases (leb (length all) (suc k * size))) [
    | inl last ↦
        rw (answers k, last, fetch_shipped_order_ids) (ap ok (last_page k (ground (arith, last))))
    | inr more ↦
        let left : 1 ≤ fuel = fuel_left more in
        let rest : length all ≤ (suc k + fuel) * size =
          subst (λ i. length all ≤ i * size) (one_on k fuel) enough in
        rw
          (
            answers k,
            more,
            goes_on k more,
            fetch-drop fuel (suc k) left rest,
            fetch_shipped_order_ids,
          )
          (ap ok (rest_page k))
  ]
    where
      one_on : (k fuel : ℕ) → k + suc fuel ≡ suc k + fuel
      one_on k fuel = omega arith

      fuel_left : leb (length all) (suc k * size) ≡ false → 1 ≤ fuel
      fuel_left more = elim (Bool-cases (leb 1 fuel)) [
        | inl h ↦ ground (arith, h)
        | inr h ↦
            let none_left : k + suc fuel ≡ suc k = ground (arith, h) in
            absurd (ground (arith, more, subst (λ i. length all ≤ i * size) none_left enough))
      ]

module _ (db : SagaDb) (size : ℕ) (le : 1 ≤ size) where
  pages_listed :
      (k : ℕ)
      → shipped_pages db size (suc k)
        ≡ ok (record {
          items = take size (drop (k * size) (shipped_ids db));
          total = length (shipped_ids db);
          page_size = size;
        })
  unfolding list_orders
  pages_listed k =
      let listed = select (is_listed (some shipped)) db.orders in
      let id : OrderRow → String = λ r. r.order_id in
      let offset : suc k - 1 ≡ k = omega arith in
      let items : map id (take size (drop (k * size) (reverse listed)))
          ≡ take size (drop (k * size) (shipped_ids db)) =
        sym (take-map id size (drop (k * size) (reverse listed)))
        ∙ ap (take size) (sym (drop-map id (k * size) (reverse listed))) in
      let total : length listed ≡ length (shipped_ids db) =
        sym (length-map id (reverse listed) ∙ length-reverse listed) in
      same_page
        (item_ids db (take size (drop ((suc k - 1) * size) (reverse listed)))
          ∙ ap (λ i. map id (take size (drop (i * size) (reverse listed)))) offset
          ∙ items)
        total
    where
      same_page :
          {xs ys : List String} {n m : ℕ}
          → xs ≡ ys
          → n ≡ m
          → ◌≡◌ {A = Result OrderListResponse}
              (ok (record { items = xs; total = n; page_size = size }))
              (ok (record { items = ys; total = m; page_size = size }))
      same_page e f = rw (e, f) refl

-- `/api/orders?status=SHIPPED&page=…&pageSize=…`; `show` prints a number in the address.
unfoldable pub page_request : (ℕ → String) → ℕ → ℕ → ListQuery
page_request show batch_size page = record {
  status = some "SHIPPED";
  page = some (show page);
  page_size = some (show batch_size);
}

-- The body as the job reads it; the text of a body of another kind is an error.
abbrev pub read_body : ApiBody → Result OrderListResponse
read_body (listing p) = ok (to_response p)
read_body _ = err (plain "TypeError" "body.items is undefined" none none none)

-- What the job makes of the answer: a status outside 200 to 299 is an error, before the body is read.
unfoldable pub read_page : Result ApiResponse → Result OrderListResponse
read_page (err e) = err e
read_page (ok r) =
    if leb 200 r.status && ltb r.status 300
    then read_body r.body
    else err (plain "Error" "coordinator returned HTTP" none none none)

module _ {R : Type 0} (deps : SagaDeps R) (show : ℕ → String) (number : String → Option ℤ)
    (w : World R) where
  -- The pages that the coordinator serves to a job with this batch size.
  unfoldable pub served : ℕ → ℕ → Result OrderListResponse
  unfolding page_request read_page
  served batch_size page =
      read_page (orders_route deps number (page_request show batch_size page) w).0

  abbrev pub served_size : ℕ → ℕ
  served_size batch_size = parse_page_size number (some (show batch_size))

module _ {R : Type 0} (deps : SagaDeps R) (show : ℕ → String) (number : String → Option ℤ)
    (w : World R) (reads : (n : ℕ) → number (show n) ≡ some (pos n))
    (quiet : (next_tick w.ticks).fault ≡ none) (idle : w.timer ≡ none) where
  page_of : (k : ℕ) → parse_page number (some (show (suc k))) ≡ suc k
  unfolding parse_page read_number
  page_of k =
      let not_zero : nat_eq (suc k) 0 ≡ false = ground arith in
      let largest : max 1 (suc k) ≡ suc k = omega arith in rw (reads (suc k), not_zero) largest

  served_page :
      (batch_size k : ℕ)
      → served deps show number w batch_size (suc k)
        ≡ shipped_pages w.db (served_size deps show number w batch_size) (suc k)
  unfolding served page_request read_page
  served_page batch_size k =
      let q = page_request show batch_size (suc k) in
      let filter : parse_status q.status ≡ some shipped = unfold parse_status in refl in
      let page : parse_page number q.page ≡ suc k = page_of k in
      ap read_page (orders_route-quiet deps number q w quiet idle) ∙ rw (filter, page) refl

  served_size_pos : (batch_size : ℕ) → 1 ≤ served_size deps show number w batch_size
  unfolding parse_page_size
  served_size_pos batch_size = omega arith

  -- A job of any batch size, if the coordinator reads the numbers of the address and its queries do
  -- not fail while its tables stay the same, fetches over the list route the id of each shipped
  -- order, newest first, with fuel for the pages that the route cuts.
  pub fetch_over_api-all :
      (batch_size fuel : ℕ)
      → 1 ≤ fuel
      → length (shipped_ids w.db) ≤ fuel * served_size deps show number w batch_size
      → fetch_shipped_order_ids (served deps show number w batch_size) fuel 1
        ≡ ok (shipped_ids w.db)
  fetch_over_api-all batch_size fuel some_fuel enough =
      let size = served_size deps show number w batch_size in
      let first : 0 * size ≡ 0 = omega arith in
      let all_fuel : fuel ≡ 0 + fuel = omega arith in
      fetch-drop (served deps show number w batch_size) (shipped_ids w.db) size
        (served_size_pos batch_size)
        (λ k. served_page batch_size k ∙ pages_listed w.db size (served_size_pos batch_size) k) fuel
        0 some_fuel (subst (λ i. length (shipped_ids w.db) ≤ i * size) all_fuel enough)
      ∙ ap (λ i. ok (drop i (shipped_ids w.db))) first
