-- ===== src/Coordinator/Saga/Steps.antt =====
-- Lemmas about one step of a saga and the rows of `saga_steps`.
use order_saga.Prelude.{
  ℕ, ◌≡◌, refl, sym, subst, ◌∙◌, String, Bool, true, false, Option, none, some, arith,
}
use order_saga.Shared.Types.{Step}
use order_saga.Shared.Errors.{Thrown, is_abort}
use order_saga.Shared.Exec.{Ends, state-of_Ends, state-bind, state-catch}
use order_saga.Shared.Retry.{AttemptInfo}
use order_saga.Shared.Retry.Rule.{with_retry-keeps}
use order_saga.Shared.Http.{
  call_step, timed_fetch, read_response, fetch_step, step_request, retry_options,
}
use order_saga.Coordinator.Repository.{SagaDb, StepTable, ClaimedOrder, renew_lease, record_attempt}
use order_saga.Coordinator.Saga.{
  World, SagaDeps, next_tick, answer, heartbeat_turn, elapse, query, update_steps, on_attempt, lift,
  world_platform, step_options,
}

module _ {R : Type 0} (deps : SagaDeps R) where
  heartbeat_turn-steps :
      (b : Bool) (timer : Option String) (now : ℕ) (db : SagaDb)
      → (heartbeat_turn deps b timer now db).steps ≡ db.steps
  unfolding heartbeat_turn renew_lease
  heartbeat_turn-steps false timer now db = refl
  heartbeat_turn-steps true none now db = refl
  heartbeat_turn-steps true (some o) now db = refl

  answer-Ends {κ} :
      {A : Type 0} (P : StepTable → Type κ) (Q : A → StepTable → Type κ)
      (f : ℕ → SagaDb → A × SagaDb) (fault : Option Thrown) (u : World R)
      → P u.db.steps
      → Q (f u.clock u.db).0 (f u.clock u.db).1.steps
      → Ends (λ a v. Q a v.db.steps) (λ _ v. P v.db.steps) (answer f fault u)
  answer-Ends P Q f none u h k = k
  answer-Ends P Q f (some e) u h k = h

  -- A query that fails leaves the steps alone, and one that succeeds does what it does to them.
  pub query-Ends {κ} :
      {A : Type 0} (P : StepTable → Type κ) (Q : A → StepTable → Type κ)
      (f : ℕ → SagaDb → A × SagaDb) (w : World R)
      → P w.db.steps
      → ((now : ℕ) (db : SagaDb) → db.steps ≡ w.db.steps → Q (f now db).0 (f now db).1.steps)
      → Ends (λ a u. Q a u.db.steps) (λ _ u. P u.db.steps) (query deps f w)
  unfolding query elapse
  query-Ends P Q f w h k =
      let t = next_tick w.ticks in
      let u = elapse deps t w in
      let same : u.db.steps ≡ w.db.steps = heartbeat_turn-steps t.heartbeat w.timer _ w.db in
      answer-Ends P Q f t.fault u (subst P (sym same) h) (k u.clock u.db same)

  pub update_steps-Ends {κ} :
      (P Q : StepTable → Type κ) (f : ℕ → StepTable → StepTable) (w : World R)
      → P w.db.steps
      → ((now : ℕ) → Q (f now w.db.steps))
      → Ends (λ _ u. Q u.db.steps) (λ _ u. P u.db.steps) (update_steps deps f w)
  unfolding update_steps
  update_steps-Ends P Q f w h k =
      query-Ends P (λ _. Q) (λ now db. (tt, record db { steps = f now db.steps })) w h
        (λ now db same. subst (λ t. Q (f now t)) (sym same) (k now))

  pub query-keeps {κ} :
      {A : Type 0} (P : StepTable → Type κ) (f : ℕ → SagaDb → A × SagaDb) (w : World R)
      → ((now : ℕ) (db : SagaDb) → (f now db).1.steps ≡ db.steps)
      → P w.db.steps
      → P (query deps f w).1.db.steps
  query-keeps P f w k h =
      state-of_Ends (λ u. P u.db.steps) (query deps f w)
        (query-Ends P (λ _. P) f w h (λ now db same. subst P (sym (k now db ∙ same)) h))

  on_attempt-keeps {κ} :
      (P : StepTable → Type κ) (o : String) (step : Step) (i : AttemptInfo) (u : World R)
      → P u.db.steps
      → P (on_attempt deps o step i u).1.db.steps
  unfolding on_attempt
  on_attempt-keeps P o step i u g =
      query-keeps P (λ now db. (tt, record db { attempts = record_attempt o step i db.attempts }))
        (record u { attempts = i.attempt }) (λ now db. refl) g

  -- A call, with all its attempts and their records, leaves `saga_steps` alone.
  pub call_step-keeps {κ} :
      (P : StepTable → Type κ) (order : ClaimedOrder) (step : Step) (force : Bool) (w : World R)
      → P w.db.steps
      → P (call_step (world_platform deps) (step_options deps order step force) w).1.db.steps
  unfolding call_step fetch_step timed_fetch read_response lift on_attempt
  call_step-keeps P order step force w h =
      let platform = world_platform deps in
      let options = step_options deps order step force in
      with_retry-keeps (fetch_step platform options) (retry_options platform options)
        (λ u. P u.db.steps)
        (λ n u g.
          state-bind (λ v. P v.db.steps) (timed_fetch platform options u) _
            (state-catch (λ v. P v.db.steps) (platform.fetch (step_request platform options) u) _ g
              (λ e v g'. unfold is_abort in ground (arith, g')))
            (λ r v g'. unfold read_response in ground (arith, g')))
        (λ i u g. on_attempt-keeps P order.order_id step i u g) (λ n u g. g) (λ u g. g) w h
