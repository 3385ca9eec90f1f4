-- ===== src/Examples/Workers.antt =====
-- The worker's pool and loop, the claim, the list route and the notifier at concrete values.

use order_saga.Prelude.{
  ℕ, suc, zero, ◌*◌, ◌≤◌, ◌≡◌, ◌≢◌, refl, ap, ◌⊎◌, ℤ, pos, String, Bool, true, false, Option, none,
  some, List, [], ◌∷◌, All, length, count_where, arith, if◌then◌else◌,
}
use order_saga.Shared.Types.{shipped, OrderStatus, status_eq}
use order_saga.Shared.Errors.{Thrown}
use order_saga.Shared.Params.{read_number}
use order_saga.Shared.Exec.{ok}
use order_saga.Coordinator.Repository.{SagaDb, ClaimedOrder, claim_batch, is_claimable}
use order_saga.Coordinator.Repository.Claims.{is_among}
use order_saga.Coordinator.Repository.Oldest.{claim_batch-oldest}
use order_saga.Coordinator.Queries.{OrderListPage, OrderListItem}
use order_saga.Coordinator.Saga.{next_tick, World}
use order_saga.Coordinator.Api.{
  ListQuery, orders_route, json, listing, api_error, parse_status, parse_page_size,
}
use order_saga.Coordinator.Api.Routes.{orders_route-listing}
use order_saga.Coordinator.Worker.{
  busy, Pool, start_pool, next_slot, PoolTurn, turn, PoolRun, start, step, pick, WorkerOptions,
  Loop, claiming, working, claim,
}
use order_saga.Coordinator.Worker.Concurrency.{map_with_concurrency-ends}
use order_saga.Coordinator.Worker.Stopping.{LoopRun, at_first, next, stop-claims}
use order_saga.Notification.{fetch_shipped_order_ids}
use order_saga.Notification.Fetch.{served, fetch_over_api-all}
use order_saga.Notification.Process.{
  Process, cron, started, tick, ProcessRun, on_tick, on_end, job_ends, launched, one_job,
}
use order_saga.Coordinator.Queries.{list_orders}
use order_saga.Web.OrderList.Params.{list_params, list_params-answered}
use order_saga.Examples.Values.{row_1, held_row, db_of, instance_a, quiet}

-- One worker takes the first of two items.
abbrev one_taken : Pool ℕ
one_taken = record { cursor = 1; slots = busy 7 ∷ []; done = [] }

first_turn : PoolRun (7 ∷ 8 ∷ []) 1 1 one_taken
unfolding start_pool next_slot
first_turn = step (start refl refl) (turn [] [] refl (pick refl refl) refl) refl

map_with_concurrency-ends_example :
    (1 ≤ 3 * 2)
    × (((q : ℕ → Bool) → count_where q [] ≡ count_where q (7 ∷ 8 ∷ []))
        ⊎ ((p' : Pool ℕ) × PoolTurn (7 ∷ 8 ∷ []) one_taken p'))
map_with_concurrency-ends_example =
    map_with_concurrency-ends (7 ∷ 8 ∷ []) 1 (omega arith) first_turn

abbrev options : WorkerOptions
options = record { batch_size = 5; concurrency = 1; poll_interval_ms = 10; lease_ttl_ms = 30 }

abbrev two_rows : SagaDb
two_rows = db_of (row_1 ∷ record held_row { id = 2; order_id = "o-2" } ∷ [])

abbrev batch : List ClaimedOrder
batch = (claim_batch (λ _. false) 100 "a" 5 30 two_rows).0

abbrev after_claim : Loop
after_claim = record { running = false; phase = working batch (start_pool batch 1) }

-- The claim was under way when the loop was told to stop.
late_claim :
    LoopRun "a" options
      (record { running = false; phase = claiming })
      two_rows
      after_claim
      (claim_batch (λ _. false) 100 "a" 5 30 two_rows).1
      1
unfolding claim_batch
late_claim =
    next (at_first refl refl refl) (claim (λ _. false) 100 refl refl (λ e. absurd (cc)) refl refl)
      refl

stop-claims_example : (1 ≤ 1) × (claiming ≢ claiming → ◌≡◌ {A = ℕ} 1 0)
stop-claims_example = stop-claims (record { running = true; phase = claiming }) two_rows late_claim

claim_batch-oldest_example : is_among (claim_batch (λ _. false) 100 "a" 2 30 two_rows).0 2 ≡ true
claim_batch-oldest_example =
    claim_batch-oldest (λ _. false) 100 "a" 2 30 two_rows (row_1 ∷ []) []
      (record held_row { id = 2; order_id = "o-2" }) refl (unfold is_claimable in refl) refl
      (unfold is_claimable in omega arith)

-- Numbers as tallies.
abbrev show : ℕ → String
show zero = String.[]
show (suc n) = String.◌∷◌ "i" (show n)

abbrev tally : String → ℕ
tally String.[] = 0
tally (String.◌∷◌ c s) = suc (tally s)

abbrev number : String → Option ℤ
number s = some (pos (tally s))

tally-show : (n : ℕ) → tally (show n) ≡ n
tally-show zero = refl
tally-show (suc n) = ap suc (tally-show n)

abbrev shipped_world : World ℕ
shipped_world = record quiet {
  db = db_of (
      record row_1 { status = shipped }
      ∷ row_1
      ∷ record row_1 { id = 3; order_id = "o-3"; status = shipped }
      ∷ []);
}

fetch_over_api-all_example :
    fetch_shipped_order_ids (served (instance_a 200) show number shipped_world 1) 2 1
    ≡ ok ("o-3" ∷ "o-1" ∷ [])
unfolding parse_page_size read_number
fetch_over_api-all_example =
    fetch_over_api-all (instance_a 200) show number shipped_world
      (λ n. ap (λ i. some (pos i)) (tally-show n)) refl refl 1 2 (omega arith) (omega arith)

orders_route-listing_example :
    let q : ListQuery = record { status = some "SHIPPED"; page = none; page_size = some "ii" } in
    ((e : Thrown) × ((next_tick quiet.ticks).fault ≡ some e)
      × ((orders_route (instance_a 200) number q shipped_world).0 ≡ ok (api_error e))
      × ((api_error e).status ≡ 500))
    ⊎ ((p : OrderListPage) × ((next_tick quiet.ticks).fault ≡ none)
        × ((orders_route (instance_a 200) number q shipped_world).0 ≡ ok (json (listing p)))
        × ((json (listing p)).status ≡ 200)
        × (length p.items ≤ 200)
        × ((s : OrderStatus)
            → parse_status q.status ≡ some s
            → All (λ (i : OrderListItem). status_eq i.status s ≡ true) p.items))
orders_route-listing_example =
    orders_route-listing (instance_a 200) number
      (record { status = some "SHIPPED"; page = none; page_size = some "ii" }) shipped_world

-- Two ticks, of which the second is skipped, and the end of the job.
abbrev after_job : Process
after_job = job_ends [] []

job_over : ProcessRun after_job
unfolding tick job_ends
job_over = on_end cron [] [] (on_tick (on_tick (at_start) refl) refl) refl refl
  where
    at_start : ProcessRun started
    at_start = launched refl

one_job_example : length after_job.jobs ≡ (if after_job.running then 1 else 0)
one_job_example = one_job job_over

list_params-answered_example :
    (orders_route
      (instance_a 200)
      number
      (list_params show (record { status = some shipped; page = 1; page_size = 25 }))
      shipped_world).0
    ≡ ok (json (listing (list_orders (some shipped) 1 25 shipped_world.db)))
list_params-answered_example =
    list_params-answered show number (λ n. ap (λ i. some (pos i)) (tally-show n)) (instance_a 200)
      (record { status = some shipped; page = 1; page_size = 25 }) shipped_world refl refl
      (omega arith) (omega arith) (omega arith)
