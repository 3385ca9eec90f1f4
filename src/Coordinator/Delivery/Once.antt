-- ===== src/Coordinator/Delivery/Once.antt =====
-- Proofs about a step that is executed again and again.
use order_saga.Prelude.{
  ℕ, ℤ, refl, inl, String, Bool, true, false, Option, none, some, List, [], ◌∷◌, arith,
}
use order_saga.Shared.Types.{Step, StepRequestBody, StepResponseBody, StepStatus, succeeded, failed}
use order_saga.Shared.Errors.{Thrown, is_abort}
use order_saga.Shared.Exec.{Exec, state-bind, state-catch, pure, ◌>>=◌, ◌>>◌}
use order_saga.Shared.Idempotency.{Service, default_options}
use order_saga.Shared.Idempotency.Growth.{IsCacheSound}
use order_saga.Shared.Idempotency.Retries.{IsOneRun}
use order_saga.Shared.Retry.Rule.{with_retry-keeps}
use order_saga.Shared.Http.{
  call_step, timed_fetch, read_response, fetch_step, step_request, retry_options,
}
use order_saga.Shared.Service.{StepHandler}
use order_saga.Coordinator.Repository.{
  SagaDb, ClaimedOrder, mark_step_result, mark_step_running, record_attempt,
}
use order_saga.Coordinator.Saga.{
  World, SagaDeps, StepOutcome, query, elapse, next_tick, answer, lift, world_platform,
  step_options, update_steps, mark_result, on_attempt, try_step, fail_step, execute_step,
}
use order_saga.Coordinator.Delivery.{Net, net_platform, execute_again}
use order_saga.Coordinator.Delivery.Kept.{context_of, IsKept, advance-IsKept, net_fetch-IsKept}

module _ {D : Type 0} (digits : ℤ → String) (step : Step) (handler : StepHandler D) (s0 : Service D)
    (given : SagaDeps (Net D)) (order : ClaimedOrder) (force : Bool) where
  abbrev deps : SagaDeps (Net D)
  deps = record given { platform = net_platform digits step handler }

  -- What the coordinator sends for the step.
  abbrev pub sent : StepRequestBody
  sent = (step_options deps order step force).body

  abbrev Kept : World (Net D) → Type 0
  Kept w = IsKept digits step handler sent s0 w.remote.service

  answer-Kept :
      {A : Type 0} (f : ℕ → SagaDb → A × SagaDb) (fault : Option Thrown) (w : World (Net D))
      → Kept w
      → Kept (answer f fault w).1
  answer-Kept f none w h = h
  answer-Kept f (some e) w h = h

  query-Kept :
      {A : Type 0} (f : ℕ → SagaDb → A × SagaDb) (w : World (Net D))
      → Kept w
      → Kept (query deps f w).1
  unfolding query elapse
  query-Kept f w h = answer-Kept f (next_tick w.ticks).fault (elapse deps (next_tick w.ticks) w) h

  call_step-Kept :
      (w : World (Net D))
      → Kept w
      → Kept (call_step (world_platform deps) (step_options deps order step force) w).1
  unfolding call_step fetch_step timed_fetch read_response step_request on_attempt lift
  call_step-Kept w h =
      let platform = world_platform deps in
      let options = step_options deps order step force in
      with_retry-keeps (fetch_step platform options) (retry_options platform options) Kept
        (λ n u g.
          state-bind Kept (timed_fetch platform options u) _
            (state-catch Kept (platform.fetch (step_request platform options) u) _
              (net_fetch-IsKept digits step handler sent s0 (step_request platform options) u.remote
                refl g)
              (λ e v g'. unfold is_abort in ground (arith, g')))
            (λ r v g'. unfold read_response in ground (arith, g')))
        (λ i u g.
          query-Kept
            (λ now db.
              (tt, record db { attempts = record_attempt order.order_id step i db.attempts }))
            (record u { attempts = i.attempt }) g)
        (λ n u g. advance-IsKept digits step handler sent s0 n u.remote.service g) (λ u g. g) w h

  then-Kept :
      {A B : Type 0} (m : Exec (World (Net D)) A) (f : A → Exec (World (Net D)) B)
      (w : World (Net D))
      → Kept (m w).1
      → ((a : A) (u : World (Net D)) → Kept u → Kept (f a u).1)
      → Kept ((m >>= f) w).1
  then-Kept m f w h k = state-bind Kept (m w) f h k

  mark_result-Kept :
      (st : StepStatus) (e : Option Thrown) (w : World (Net D))
      → Kept w
      → Kept (mark_result deps order.order_id step st e w).1
  unfolding mark_result update_steps
  mark_result-Kept st e w h =
      query-Kept
        (λ now db. (
          tt,
          record db { steps = mark_step_result now order.order_id step st w.attempts e db.steps },
        ))
        w h

  try_step-Kept : (w : World (Net D)) → Kept w → Kept (try_step deps order step force w).1
  unfolding try_step update_steps
  try_step-Kept w h =
      let out : StepOutcome = record { step = step; ok = true; error = none } in
      let f : ℕ → SagaDb → Unit {0} × SagaDb =
        λ now db. (tt, record db { steps = mark_step_running now order.order_id step db.steps }) in
      let marked : Exec (World (Net D)) (Unit {0}) =
        mark_result deps order.order_id step succeeded none in
      let call : Exec (World (Net D)) StepResponseBody =
        call_step (world_platform deps) (step_options deps order step force) in
      then-Kept (query deps f) (λ _. call >> (marked >> pure out)) w (query-Kept f w h)
        (λ _ u g.
          then-Kept call (λ _. marked >> pure out) u (call_step-Kept u g)
            (λ _ v k.
              then-Kept marked (λ _. pure out) v (mark_result-Kept succeeded none v k)
                (λ _ x m. m)))

  fail_step-Kept :
      (e : Thrown) (w : World (Net D)) → Kept w → Kept (fail_step deps order step e w).1
  unfolding fail_step
  fail_step-Kept e w h =
      let out : StepOutcome = record { step = step; ok = false; error = some e } in
      then-Kept (mark_result deps order.order_id step failed (some e)) (λ _. pure out) w
        (mark_result-Kept failed (some e) w h) (λ _ x m. m)

  execute_step-Kept : (w : World (Net D)) → Kept w → Kept (execute_step deps order step force w).1
  unfolding execute_step
  execute_step-Kept w h =
      state-catch Kept (try_step deps order step force (record w { attempts = 0 }))
        (fail_step deps order step) (try_step-Kept (record w { attempts = 0 }) h)
        (λ e u g. fail_step-Kept e u g)

  again-IsKept :
      (ws : List (World (Net D))) (net : Net D)
      → IsKept digits step handler sent s0 net.service
      → IsKept digits step handler sent s0
          (execute_again digits step handler given order force ws net).service
  unfolding execute_again
  again-IsKept [] net h = h
  again-IsKept (w ∷ ws) net h =
      again-IsKept ws (execute_step deps order step force (record w { remote = net })).1.remote
        (execute_step-Kept (record w { remote = net }) h)

-- If the service's cache agrees with its records at the start: however often coordinators execute a
-- step of an order, with its retries, whatever requests and responses are lost and whatever fails at
-- the service, its tables and the stored response are as they were, or no response was stored, the
-- tables are what one run of the handler made of them, and its response is stored.
pub execute_again-at_most_once :
    {D : Type 0} (digits : ℤ → String) (step : Step) (handler : StepHandler D)
    (deps : SagaDeps (Net D)) (order : ClaimedOrder) (force : Bool) (ws : List (World (Net D)))
    (net : Net D)
    → IsCacheSound net.service
    → let body = (step_options deps order step force).body in
      let service = (execute_again digits step handler deps order force ws net).service in
      IsOneRun (context_of step body) default_options (handler body) net.service service
execute_again-at_most_once digits step handler deps order force ws net sound =
    (again-IsKept digits step handler net.service deps order force ws net
      (inl (refl, refl), sound)).0
