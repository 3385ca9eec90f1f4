-- ===== src/Coordinator/Saga/Returns.antt =====
-- Lemmas about the parts of a saga while the coordinator's own queries succeed.
use order_saga.Prelude.{
  ℕ, ◌≡◌, refl, String, Bool, false, Option, none, some, List, [], ◌∷◌, drop, All, arith,
}
use order_saga.Shared.Types.{
  Step, CompensationStep, compensation, StepStatus, succeeded, failed, skipped,
}
use order_saga.Shared.Errors.{Thrown, is_abort}
use order_saga.Shared.Exec.{
  Result, ok, err, Exec, Ends, Ends-then, Ends-catch, Ends-of_state, state-bind, state-catch, pure,
  ◌>>=◌,
}
use order_saga.Shared.Retry.{AttemptInfo}
use order_saga.Shared.Retry.Rule.{with_retry-keeps}
use order_saga.Shared.Http.{
  call_step, timed_fetch, read_response, fetch_step, step_request, retry_options,
}
use order_saga.Coordinator.Repository.{
  SagaDb, ClaimedOrder, mark_step_running, mark_step_result, record_attempt, StepTable,
}
use order_saga.Coordinator.Saga.{
  Tick, World, SagaDeps, next_tick, answer, elapse, query, update_steps, on_attempt, lift,
  world_platform, step_options, mark_result, try_step, fail_step, execute_step, run_concurrently,
  skip_steps,
}

-- None of the queries to come fails.
abbrev pub IsFaultless : {R : Type 0} → World R → Type 0
IsFaultless w = All (λ t. t.fault ≡ none) w.ticks

next_fine : (ts : List Tick) → All (λ t. t.fault ≡ none) ts → (next_tick ts).fault ≡ none
next_fine [] h = refl
next_fine (t ∷ ts) h = h.0

rest_fine : (ts : List Tick) → All (λ t. t.fault ≡ none) ts → All (λ t. t.fault ≡ none) (drop 1 ts)
rest_fine [] h = tt
rest_fine (t ∷ ts) h = h.1

module _ {R : Type 0} (deps : SagaDeps R) where
  -- The action returns, and the queries after it succeed too.
  abbrev pub Returns : {A : Type 0} → Result A × World R → Type 0
  Returns r = Ends (λ _ u. IsFaultless u) (λ _ _. ⊥) r

  pub query-Returns :
      {A : Type 0} (f : ℕ → SagaDb → A × SagaDb) (w : World R)
      → IsFaultless w
      → Returns (query deps f w)
  unfolding query elapse
  query-Returns f w h = rw (next_fine w.ticks h, answer) (rest_fine w.ticks h)

  pub update_steps-Returns :
      (f : ℕ → StepTable → StepTable) (w : World R)
      → IsFaultless w
      → Returns (update_steps deps f w)
  unfolding update_steps
  update_steps-Returns f w h =
      query-Returns (λ now db. (tt, record db { steps = f now db.steps })) w h

  then-Returns :
      {A B : Type 0} (m : Exec (World R) A) (f : A → Exec (World R) B) (w : World R)
      → Returns (m w)
      → ((a : A) (u : World R) → IsFaultless u → Returns (f a u))
      → Returns ((m >>= f) w)
  then-Returns m f w h k =
      Ends-then (λ _ u. IsFaultless u) (λ _ u. IsFaultless u) (λ _ _. ⊥) m f w h k

  returned-state : {A : Type 0} (r : Result A × World R) → Returns r → IsFaultless r.1
  returned-state (ok a, u) h = h
  returned-state (err e, u) h = absurd h

  mark_result-Returns :
      (o : String) (step : Step) (st : StepStatus) (e : Option Thrown) (w : World R)
      → IsFaultless w
      → Returns (mark_result deps o step st e w)
  unfolding mark_result
  mark_result-Returns o step st e w h =
      update_steps-Returns (λ now. mark_step_result now o step st w.attempts e) w h

  on_attempt-keeps :
      (o : String) (step : Step) (i : AttemptInfo) (w : World R)
      → IsFaultless w
      → IsFaultless (on_attempt deps o step i w).1
  unfolding on_attempt
  on_attempt-keeps o step i w h = returned-state _ (
      query-Returns (λ now db. (tt, record db { attempts = record_attempt o step i db.attempts }))
        (record w { attempts = i.attempt }) h)

  call_step-keeps :
      (order : ClaimedOrder) (step : Step) (force : Bool) (w : World R)
      → IsFaultless w
      → IsFaultless (call_step (world_platform deps) (step_options deps order step force) w).1
  unfolding call_step fetch_step timed_fetch lift
  call_step-keeps order step force w h =
      let platform = world_platform deps in
      let options = step_options deps order step force in
      with_retry-keeps (fetch_step platform options) (retry_options platform options) IsFaultless
        (λ n u g.
          state-bind IsFaultless (timed_fetch platform options u) _
            (state-catch IsFaultless (platform.fetch (step_request platform options) u) _ g
              (λ e v g'. unfold is_abort in ground (arith, g')))
            (λ r v g'. unfold read_response in ground (arith, g')))
        (λ i u g. on_attempt-keeps order.order_id step i u g) (λ n u g. g) (λ u g. g) w h

  module _ (order : ClaimedOrder) where
    fail_step-Returns :
        (step : Step) (e : Thrown) (w : World R)
        → IsFaultless w
        → Returns (fail_step deps order step e w)
    unfolding fail_step
    fail_step-Returns step e w h =
        then-Returns (mark_result deps order.order_id step failed (some e))
          (λ _. pure (record { step = step; ok = false; error = some e })) w
          (mark_result-Returns order.order_id step failed (some e) w h) (λ _ u g. g)

    try_step-keeps :
        (step : Step) (force : Bool) (w : World R)
        → IsFaultless w
        → IsFaultless (try_step deps order step force w).1
    unfolding try_step
    try_step-keeps step force w h =
        state-bind IsFaultless
          (update_steps deps (λ now. mark_step_running now order.order_id step) w) _
          (returned-state _
            (update_steps-Returns (λ now. mark_step_running now order.order_id step) w h))
          (λ _ u g.
            state-bind IsFaultless
              (call_step (world_platform deps) (step_options deps order step force) u) _
              (call_step-keeps order step force u g)
              (λ _ v g'.
                state-bind IsFaultless (mark_result deps order.order_id step succeeded none v) _
                  (returned-state _ (mark_result-Returns order.order_id step succeeded none v g'))
                  (λ _ x g''. g'')))

    execute_step-Returns :
        (step : Step) (force : Bool) (w : World R)
        → IsFaultless w
        → Returns (execute_step deps order step force w)
    unfolding execute_step
    execute_step-Returns step force w h =
        Ends-catch (λ _ u. IsFaultless u) (λ _ u. IsFaultless u) (λ _ _. ⊥)
          (try_step deps order step force (record w { attempts = 0 })) (fail_step deps order step)
          (Ends-of_state IsFaultless (try_step deps order step force (record w { attempts = 0 }))
            (try_step-keeps step force (record w { attempts = 0 }) h))
          (λ e u g. fail_step-Returns step e u g)

    pub run_concurrently-keeps :
        (steps : List Step) (force : Bool) (w : World R)
        → IsFaultless w
        → IsFaultless (run_concurrently deps order steps force w).1
    unfolding run_concurrently
    run_concurrently-keeps [] force w h = h
    run_concurrently-keeps (step ∷ steps) force w h =
        run_concurrently-keeps steps force (execute_step deps order step force w).1 (
          returned-state (execute_step deps order step force w)
            (execute_step-Returns step force w h))

    pub skip_steps-Returns :
        (cs : List CompensationStep) (w : World R)
        → IsFaultless w
        → Returns (skip_steps deps order.order_id cs w)
    unfolding skip_steps
    skip_steps-Returns [] w h = h
    skip_steps-Returns (c ∷ cs) w h =
        then-Returns
          (update_steps deps
            (λ now. mark_step_result now order.order_id (compensation c) skipped 0 none))
          (λ _. skip_steps deps order.order_id cs) w
          (update_steps-Returns
            (λ now. mark_step_result now order.order_id (compensation c) skipped 0 none) w h)
          (λ _ u g. skip_steps-Returns cs u g)
