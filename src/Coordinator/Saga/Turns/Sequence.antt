-- ===== src/Coordinator/Saga/Turns/Sequence.antt =====
-- Lemmas about the functions `execute_step` and `run_concurrently` and the turns.
use order_saga.Prelude.{ℕ, ◌+◌, ◌≡◌, refl, String, Bool, true, false, Option, none, some, arith}
use order_saga.Shared.Types.{Step, StepStatus, succeeded, failed}
use order_saga.Shared.Errors.{Thrown, is_abort}
use order_saga.Shared.Exec.{
  Result, ok, err, Ends, Ends-then, Ends-catch, Ends-mono, Ends-of_state, state-bind, state-catch,
  pure, ◌>>◌,
}
use order_saga.Shared.Retry.{AttemptInfo}
use order_saga.Shared.Retry.Rule.{with_retry-keeps}
use order_saga.Shared.Http.{
  call_step, timed_fetch, read_response, fetch_step, step_request, retry_options,
}
use order_saga.Coordinator.Repository.{SagaDb, ClaimedOrder, mark_step_running, record_attempt}
use order_saga.Coordinator.Saga.{
  World, SagaDeps, StepOutcome, next_tick, answer, heartbeat_turn, elapse, query, update_steps,
  on_attempt, lift, world_platform, step_options, mark_result, try_step, fail_step, execute_step,
  settled,
}
use order_saga.Coordinator.Saga.Turns.{
  Phase, ready, calling, returned, thrown, finished, Turn, start, start_fails, record_try,
  record_fails, call_returns, call_throws, succeed, succeed_fails, fail, reject, beat, mark,
}

-- The turns of one step on its own.
pub data Turns (o : String) (step : Step) (db : SagaDb) : SagaDb → Phase → Type 0 where
  still : {db' : SagaDb} {p : Phase} → db' ≡ db → p ≡ ready → Turns o step db db' p
  next :
      {db1 db' : SagaDb} {q p : Phase}
      → Turns o step db db1 q
      → Turn o step db1 q db' p
      → Turns o step db db' p

module _ {R : Type 0} (deps : SagaDeps R) (order : ClaimedOrder) (step : Step) (force : Bool)
    (db0 : SagaDb) where
  abbrev At : SagaDb → Phase → Type 0
  At db p = Turns order.order_id step db0 db p

  heartbeat-At :
      (b : Bool) (timer : Option String) (now : ℕ) (db : SagaDb) (p : Phase)
      → At db p
      → At (heartbeat_turn deps b timer now db) p
  unfolding heartbeat_turn
  heartbeat-At false timer now db p h = h
  heartbeat-At true none now db p h = h
  heartbeat-At true (some x) now db p h =
      next h (beat now deps.lease_ttl_ms x deps.instance_id refl)

  answer-At :
      {A : Type 0} (f : ℕ → SagaDb → A × SagaDb) (p q : Phase) (fault : Option Thrown) (n : ℕ)
      (u : World R)
      → At u.db p
      → u.attempts ≡ n
      → ((now : ℕ) (db : SagaDb) → Turn order.order_id step db p (f now db).1 q)
      → Ends
          (λ _ v. At v.db q × (v.attempts ≡ n))
          (λ _ v. At v.db p × (v.attempts ≡ n))
          (answer f fault u)
  answer-At f p q none n u h k turn = (next h (turn u.clock u.db), k)
  answer-At f p q (some e) n u h k turn = (h, k)

  -- A query is a turn if it succeeds, and at most a heartbeat if it fails.
  query-At :
      {A : Type 0} (f : ℕ → SagaDb → A × SagaDb) (p q : Phase) (n : ℕ) (w : World R)
      → At w.db p
      → w.attempts ≡ n
      → ((now : ℕ) (db : SagaDb) → Turn order.order_id step db p (f now db).1 q)
      → Ends
          (λ _ v. At v.db q × (v.attempts ≡ n))
          (λ _ v. At v.db p × (v.attempts ≡ n))
          (query deps f w)
  unfolding query elapse
  query-At f p q n w h k turn =
      let t = next_tick w.ticks in
      answer-At f p q t.fault n (elapse deps t w)
        (heartbeat-At t.heartbeat w.timer (w.clock + t.elapsed_ms) w.db p h) k turn

  -- The state while the step's call runs.
  InCall : World R → Type 0
  InCall w = At w.db (calling w.attempts)

  on_attempt-InCall :
      (info : AttemptInfo) (w : World R)
      → InCall w
      → InCall (on_attempt deps order.order_id step info w).1
  unfolding InCall on_attempt
  on_attempt-InCall info w h =
      settle_call
        (query deps
          (λ now db.
            (tt, record db { attempts = record_attempt order.order_id step info db.attempts }))
          (record w { attempts = info.attempt }))
        (query-At
          (λ now db.
            (tt, record db { attempts = record_attempt order.order_id step info db.attempts }))
          (calling info.attempt) (calling info.attempt) info.attempt
          (record w { attempts = info.attempt }) (next h (record_fails info.attempt refl)) refl
          (λ now db. record_try info refl refl))
    where
      settle_call :
          (r : Result (Unit {0}) × World R)
          → Ends
              (λ _ v. At v.db (calling info.attempt) × (v.attempts ≡ info.attempt))
              (λ _ v. At v.db (calling info.attempt) × (v.attempts ≡ info.attempt))
              r
          → At r.1.db (calling r.1.attempts)
      settle_call (ok a, u) (t, e) = rw e t
      settle_call (err a, u) (t, e) = rw e t

  call_step-InCall :
      (w : World R)
      → InCall w
      → InCall (call_step (world_platform deps) (step_options deps order step force) w).1
  unfolding call_step fetch_step timed_fetch read_response lift InCall
  call_step-InCall w h =
      let platform = world_platform deps in
      let options = step_options deps order step force in
      with_retry-keeps (fetch_step platform options) (retry_options platform options) InCall
        (λ n u g.
          state-bind InCall (timed_fetch platform options u) _
            (state-catch InCall (platform.fetch (step_request platform options) u) _ g
              (λ e v g'. unfold is_abort in ground (arith, g')))
            (λ r v g'. unfold read_response in ground (arith, g')))
        (λ i u g. on_attempt-InCall i u g) (λ n u g. g) (λ u g. g) w h

  abbrev Ended : StepOutcome → World R → Type 0
  Ended out u = At u.db (finished out)

  -- What is caught is thrown by the step as it stands.
  abbrev Caught : Thrown → World R → Type 0
  Caught e u = At u.db (thrown u.attempts e)

  abbrev Rejected : Thrown → World R → Type 0
  Rejected e u = At u.db (finished (record { step = step; ok = false; error = some e }))

  mark_result-At :
      (st : StepStatus) (x : Option Thrown) (p q : Phase) (w : World R)
      → At w.db p
      → ((now : ℕ) (db : SagaDb)
          → Turn order.order_id step db p (mark now order.order_id step st w.attempts x db) q)
      → Ends
          (λ _ v. At v.db q × (v.attempts ≡ w.attempts))
          (λ _ v. At v.db p × (v.attempts ≡ w.attempts))
          (mark_result deps order.order_id step st x w)
  unfolding mark_result update_steps
  mark_result-At st x p q w h turn =
      query-At (λ now db. (tt, mark now order.order_id step st w.attempts x db)) p q w.attempts w h
        refl turn

  fail_step-At :
      (e : Thrown) (w : World R) → Caught e w → Ends Ended Rejected (fail_step deps order step e w)
  unfolding fail_step
  fail_step-At e w h =
      let out : StepOutcome = record { step = step; ok = false; error = some e } in
      Ends-then (λ _ v. Ended out v) Ended Rejected
        (mark_result deps order.order_id step failed (some e)) (λ _. pure out) w
        (Ends-mono (λ _ v. At v.db (finished out) × (v.attempts ≡ w.attempts)) (λ _ v. Ended out v)
          (λ _ v. At v.db (thrown w.attempts e) × (v.attempts ≡ w.attempts)) Rejected
          (mark_result deps order.order_id step failed (some e) w)
          (mark_result-At failed (some e) (thrown w.attempts e) (finished out) w h
            (λ now db. fail now refl refl))
          (λ _ v g. g.0) (λ e' v g. next g.0 (reject e' refl refl)))
        (λ _ v g. g)

  succeed-At :
      (w : World R)
      → InCall w
      → Ends Ended Caught (
          (mark_result deps order.order_id step succeeded none
              >> pure (record { step = step; ok = true; error = none }))
            w)
  unfolding InCall
  succeed-At w h =
      let out : StepOutcome = record { step = step; ok = true; error = none } in
      Ends-then (λ _ v. Ended out v) Ended Caught
        (mark_result deps order.order_id step succeeded none) (λ _. pure out) w
        (Ends-mono (λ _ v. At v.db (finished out) × (v.attempts ≡ w.attempts)) (λ _ v. Ended out v)
          (λ _ v. At v.db (returned w.attempts) × (v.attempts ≡ w.attempts)) Caught
          (mark_result deps order.order_id step succeeded none w)
          (mark_result-At succeeded none (returned w.attempts) (finished out) w
            (next h (call_returns refl)) (λ now db. succeed now refl refl))
          (λ _ v g. g.0) (λ e v g. rw g.1 (next g.0 (succeed_fails e refl))))
        (λ _ v g. g)

  called-At :
      (w : World R)
      → InCall w
      → Ends Ended Caught (
          (call_step (world_platform deps) (step_options deps order step force)
              >> (mark_result deps order.order_id step succeeded none
                  >> pure (record { step = step; ok = true; error = none })))
            w)
  called-At w h =
      Ends-then (λ _ v. InCall v) Ended Caught
        (call_step (world_platform deps) (step_options deps order step force))
        (λ _.
          mark_result deps order.order_id step succeeded none
          >> pure (record { step = step; ok = true; error = none }))
        w
        (Ends-mono (λ _ v. InCall v) (λ _ v. InCall v) (λ _ v. InCall v) Caught
          (call_step (world_platform deps) (step_options deps order step force) w)
          (Ends-of_state InCall
            (call_step (world_platform deps) (step_options deps order step force) w)
            (call_step-InCall w h))
          (λ _ v g. g) (λ e v g. unfold InCall in next g (call_throws e refl)))
        (λ _ v g. succeed-At v g)

  try_step-At :
      (w : World R)
      → At w.db ready
      → w.attempts ≡ 0
      → Ends Ended Caught (try_step deps order step force w)
  unfolding try_step update_steps InCall
  try_step-At w h zero_now =
      let f : ℕ → SagaDb → Unit {0} × SagaDb =
        λ now db. (tt, record db { steps = mark_step_running now order.order_id step db.steps }) in
      Ends-then (λ _ v. InCall v) Ended Caught (query deps f)
        (λ _.
          call_step (world_platform deps) (step_options deps order step force)
          >> (mark_result deps order.order_id step succeeded none
              >> pure (record { step = step; ok = true; error = none })))
        w
        (Ends-mono (λ _ v. At v.db (calling 0) × (v.attempts ≡ 0)) (λ _ v. InCall v)
          (λ _ v. At v.db ready × (v.attempts ≡ 0)) Caught (query deps f w)
          (query-At f ready (calling 0) 0 w h zero_now (λ now db. start now refl))
          (λ _ v g. rw g.1 g.0) (λ e v g. rw g.1 (next g.0 (start_fails e refl))))
        (λ _ v g. called-At v g)

  execute_step-Ended :
      (w : World R) → At w.db ready → Ends Ended Rejected (execute_step deps order step force w)
  unfolding execute_step
  execute_step-Ended w h =
      Ends-catch Ended Caught Rejected (try_step deps order step force (record w { attempts = 0 }))
        (fail_step deps order step) (try_step-At (record w { attempts = 0 }) h refl)
        (λ e u g. fail_step-At e u g)

  settled-At :
      (r : Result StepOutcome × World R)
      → Ends Ended Rejected r
      → At r.1.db (finished (settled step r.0))
  settled-At (ok out, u) h = h
  settled-At (err e, u) h = h

-- The detailed step, with its retries, failures and heartbeats, is a run of turns that ends with the
-- outcome that the caller sees.
pub execute_step-Turns :
    {R : Type 0} (deps : SagaDeps R) (order : ClaimedOrder) (step : Step) (force : Bool)
    (w : World R)
    → Turns order.order_id step w.db
        (execute_step deps order step force w).1.db
        (finished (settled step (execute_step deps order step force w).0))
execute_step-Turns deps order step force w =
    settled-At deps order step force w.db (execute_step deps order step force w)
      (execute_step-Ended deps order step force w.db w (still refl refl))
