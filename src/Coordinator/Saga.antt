-- ===== src/Coordinator/Saga.antt =====
-- The saga of one order (services/coordinator/src/saga.ts). The steps that the source starts
-- together run here one after another, in the order of the list.
pub mod Steps
pub mod Outcomes
pub mod Groups
pub mod Undoing
pub mod Skips
pub mod Rollback
pub mod Runs
pub mod Returns
pub mod Completion
pub mod Turns
use order_saga.Prelude.{
  ℕ, ◌+◌, String, Bool, true, false, not, Option, none, some, List, [], ◌∷◌, map, select, any, drop,
  if◌then◌else◌,
}
use order_saga.Shared.Types.{
  Step, ForwardStep, CompensationStep, forward, compensation, forward_steps, compensation_steps,
  step_eq, compensation_of, ServiceName, step_service, OrderStatus, placed, compensating, cancelled,
  needs_attention, status_eq, StepStatus, is_succeeded, succeeded, failed, skipped,
}
use order_saga.Shared.Errors.{Thrown}
use order_saga.Shared.Exec.{Result, ok, err, Exec, pure, throw, gets, catch, ◌>>=◌, ◌>>◌}
use order_saga.Shared.Retry.{AttemptInfo}
use order_saga.Shared.Http.{CallStepOptions, Platform, call_step}
use order_saga.Coordinator.Repository.{
  SagaDb, StepTable, ClaimedOrder, StatusOptions, renew_lease, set_order_status, init_steps,
  mark_step_running, mark_step_result, record_attempt, get_succeeded_forward_steps,
  get_step_statuses,
}

-- What happens when the next query is made: the time since the last one, whether the heartbeat's
-- timer fired in it, and the failure of the query, if it fails.
pub record Tick : Type 0 where
  pub elapsed_ms : ℕ
  pub heartbeat : Bool
  pub fault : Option Thrown

-- `attempts` is the local variable of the step that runs, `timer` the order of the heartbeat that
-- is started, and `remote` all that is behind `fetch`.
pub record World (R : Type 0) : Type 0 where
  pub db : SagaDb
  pub clock : ℕ
  pub ticks : List Tick
  pub timer : Option String
  pub attempts : ℕ
  pub remote : R

pub record StepConfig : Type 0 where
  pub timeout_ms : ℕ
  pub max_attempts : ℕ
  pub base_delay_ms : ℕ
  pub max_delay_ms : ℕ

-- `SagaDeps`, with the platform in place of the pool and the logger.
pub record SagaDeps (R : Type 0) : Type 0 where
  pub platform : Platform R
  pub instance_id : String
  pub service_urls : ServiceName → String
  pub step : StepConfig
  pub lease_ttl_ms : ℕ

pub record StepOutcome : Type 0 where
  pub step : Step
  pub ok : Bool
  pub error : Option Thrown

abbrev pub next_tick : List Tick → Tick
next_tick [] = record { elapsed_ms = 0; heartbeat = false; fault = none }
next_tick (t ∷ ts) = t

-- What a query gives and writes, or its failure.
abbrev pub answer :
    {R A : Type 0} → (ℕ → SagaDb → A × SagaDb) → Option Thrown → World R → Result A × World R
answer f (some e) w = (err e, w)
answer f none w = (ok (f w.clock w.db).0, record w { db = (f w.clock w.db).1 })

-- A rejected step is a failed outcome.
abbrev pub settled : Step → Result StepOutcome → StepOutcome
settled step (ok o) = o
settled step (err e) = record { step = step; ok = false; error = some e }

abbrev pub is_needed : List ForwardStep → CompensationStep → Bool
is_needed done c = any (λ f. step_eq (compensation (compensation_of f)) (compensation c)) done

abbrev pub failures : List StepOutcome → List StepOutcome
failures = select (λ o. not o.ok)

abbrev pub rollback_status : List StepOutcome → OrderStatus
rollback_status [] = cancelled
rollback_status (o ∷ os) = needs_attention

-- The forward steps that are not done, as `existing` tells them.
abbrev pub pending_steps : (Step → Option StepStatus) → List Step
pending_steps existing = map forward (
    select (λ f. elim (existing (forward f)) [ none ↦ true | some s ↦ not (is_succeeded s) ])
      forward_steps)

-- The `finally` block.
abbrev pub stop_timer : {R A : Type 0} → Result A × World R → Result A × World R
stop_timer (r, w) = (r, record w { timer = none })

module _ {R : Type 0} (deps : SagaDeps R) where
  -- The callback of the heartbeat's interval.
  unfoldable pub heartbeat_turn : Bool → Option String → ℕ → SagaDb → SagaDb
  heartbeat_turn true (some order_id) now db =
      (renew_lease now order_id deps.instance_id deps.lease_ttl_ms db).1
  heartbeat_turn _ _ now db = db

  unfoldable pub elapse : Tick → World R → World R
  unfolding heartbeat_turn
  elapse t w = record w {
    db = heartbeat_turn t.heartbeat w.timer (w.clock + t.elapsed_ms) w.db;
    clock = w.clock + t.elapsed_ms;
    ticks = drop 1 w.ticks;
  }

  -- `await` of a query at the server's time.
  unfoldable pub query : {A : Type 0} → (ℕ → SagaDb → A × SagaDb) → Exec (World R) A
  unfolding elapse
  query f w = answer f (next_tick w.ticks).fault (elapse (next_tick w.ticks) w)

  unfoldable pub update_steps : (ℕ → StepTable → StepTable) → Exec (World R) (Unit {0})
  unfolding query
  update_steps f = query (λ now db. (tt, record db { steps = f now db.steps }))

  -- The callback `onAttempt` of a step.
  unfoldable pub on_attempt : String → Step → AttemptInfo → Exec (World R) (Unit {0})
  unfolding query
  on_attempt order_id step info w =
      query (λ now db. (tt, record db { attempts = record_attempt order_id step info db.attempts }))
        (record w { attempts = info.attempt })

  -- What a call does behind `fetch`, as an action on the world.
  unfoldable pub lift : {A : Type 0} → Exec R A → Exec (World R) A
  lift m w = ((m w.remote).0, record w { remote = (m w.remote).1 })

  abbrev pub world_platform : Platform (World R)
  world_platform = record {
    fetch = λ r. lift (deps.platform.fetch r);
    sleep = λ n. lift (deps.platform.sleep n);
    random = lift deps.platform.random;
    now = λ w. deps.platform.now w.remote;
  }

  abbrev pub step_options : ClaimedOrder → Step → Bool → CallStepOptions (World R)
  step_options order step force = record {
    base_url = deps.service_urls (step_service step);
    step = step;
    body = record {
      order_id = order.order_id;
      sku = order.sku;
      qty = order.qty;
      amount = order.amount;
      fail_at = order.fail_at;
      comp_fail_at = order.comp_fail_at;
      force = force;
    };
    timeout_ms = deps.step.timeout_ms;
    max_attempts = deps.step.max_attempts;
    base_delay_ms = deps.step.base_delay_ms;
    max_delay_ms = deps.step.max_delay_ms;
    on_attempt = on_attempt order.order_id step;
  }

  -- `markStepResult` with the `attempts` of the running step.
  unfoldable pub mark_result :
      String → Step → StepStatus → Option Thrown → Exec (World R) (Unit {0})
  unfolding update_steps
  mark_result order_id step status last_error w =
      update_steps (λ now. mark_step_result now order_id step status w.attempts last_error) w

  -- The `try` block of `executeStep`.
  unfoldable pub try_step : ClaimedOrder → Step → Bool → Exec (World R) StepOutcome
  unfolding update_steps mark_result lift on_attempt
  try_step order step force = do
    update_steps (λ now. mark_step_running now order.order_id step)
    call_step world_platform (step_options order step force)
    mark_result order.order_id step succeeded none
    pure (record { step = step; ok = true; error = none })

  unfoldable pub fail_step : ClaimedOrder → Step → Thrown → Exec (World R) StepOutcome
  unfolding mark_result
  fail_step order step e = do
    mark_result order.order_id step failed (some e)
    pure (record { step = step; ok = false; error = some e })

  unfoldable pub execute_step : ClaimedOrder → Step → Bool → Exec (World R) StepOutcome
  unfolding try_step fail_step
  execute_step order step force w =
      catch (try_step order step force) (fail_step order step) (record w { attempts = 0 })

  unfoldable pub run_concurrently :
      ClaimedOrder → List Step → Bool → World R → List StepOutcome × World R
  unfolding execute_step
  run_concurrently order [] force w = ([], w)
  run_concurrently order (step ∷ steps) force w =
      let first = execute_step order step force w in
      let rest = run_concurrently order steps force first.1 in
      (settled step first.0 ∷ rest.0, rest.1)

  abbrev pub run_steps : ClaimedOrder → List Step → Bool → Exec (World R) (List StepOutcome)
  run_steps order steps force w =
      (ok (run_concurrently order steps force w).0, (run_concurrently order steps force w).1)

  -- The loop that marks the steps that are not needed.
  unfoldable pub skip_steps : String → List CompensationStep → Exec (World R) (Unit {0})
  unfolding update_steps
  skip_steps order_id [] w = (ok tt, w)
  skip_steps order_id (c ∷ cs) w =
      (update_steps (λ now. mark_step_result now order_id (compensation c) skipped 0 none)
          >> skip_steps order_id cs)
        w

  unfoldable pub compensate : ClaimedOrder → Bool → Exec (World R) OrderStatus
  unfolding query update_steps skip_steps run_concurrently
  compensate order force = do
    done ← query (λ now db. (get_succeeded_forward_steps order.order_id db.steps, db))
    update_steps (λ now. init_steps order.order_id (map compensation compensation_steps))
    skip_steps order.order_id (select (λ c. not (is_needed done c)) compensation_steps)
    outcomes ← run_steps order (map compensation (select (is_needed done) compensation_steps)) force
    pure (rollback_status (failures outcomes))

  unfoldable pub save_status : String → OrderStatus → Bool → Option Thrown → Exec (World R) Bool
  unfolding query
  save_status order_id status clear_lease last_error = query (λ now.
      set_order_status order_id deps.instance_id status
        (record { clear_lease = clear_lease; last_error = last_error }))

  -- The rollback and the status that ends it.
  unfoldable pub roll_back : ClaimedOrder → Bool → Exec (World R) OrderStatus
  unfolding compensate save_status
  roll_back order force = do
    status ← compensate order force
    save_status order.order_id status true none
    pure status

  -- What follows the forward phase.
  unfoldable pub conclude : ClaimedOrder → List StepOutcome → Exec (World R) OrderStatus
  unfolding save_status roll_back
  conclude order [] = save_status order.order_id placed true none >> pure placed
  conclude order (o ∷ os) = do
    save_status order.order_id compensating false o.error
    roll_back (record order { status = compensating }) false

  unfoldable pub run_forward : ClaimedOrder → Exec (World R) OrderStatus
  unfolding query update_steps run_concurrently conclude
  run_forward order = do
    update_steps (λ now. init_steps order.order_id (map forward forward_steps))
    existing ← query (λ now db. (get_step_statuses order.order_id db.steps, db))
    outcomes ← run_steps order (pending_steps existing) false
    conclude order (failures outcomes)

  unfoldable pub run_saga : ClaimedOrder → Exec (World R) OrderStatus
  unfolding roll_back run_forward
  run_saga order w =
      let u = record w { timer = some order.order_id } in
      stop_timer (elim (status_eq order.status compensating) [
        | true ↦ roll_back order false u
        | false ↦ run_forward order u
      ])

  unfoldable pub retry_compensation : ClaimedOrder → Exec (World R) OrderStatus
  unfolding roll_back
  retry_compensation order = roll_back order true
