-- ===== src/Coordinator/Saga/Turns.antt =====
-- `executeStep` of services/coordinator/src/saga.ts cut at its awaits, and the steps that
-- `runConcurrently` starts together, interleaved in any order. A call is left open: how many
-- attempts it records, and how it ends.
pub mod Rows
pub mod Orders
pub mod Verdicts
pub mod Sequence
pub mod Together
use order_saga.Prelude.{
  ℕ, ◌≡◌, String, Bool, true, false, Option, none, some, List, any, if◌then◌else◌,
}
use order_saga.Shared.Types.{Step, step_eq, StepStatus, succeeded, failed}
use order_saga.Shared.Errors.{Thrown}
use order_saga.Shared.Retry.{AttemptInfo}
use order_saga.Coordinator.Repository.{
  SagaDb, StepTable, mark_step_running, mark_step_result, record_attempt, renew_lease,
}
use order_saga.Coordinator.Saga.{StepOutcome}

-- Where a step stands, with its `attempts` and what it has caught.
pub data Phase : Type 0 where
  ready : Phase
  calling : ℕ → Phase
  returned : ℕ → Phase
  thrown : ℕ → Thrown → Phase
  finished : StepOutcome → Phase

abbrev pub with_steps : (StepTable → StepTable) → SagaDb → SagaDb
with_steps f db = record db { steps = f db.steps }

abbrev pub mark : ℕ → String → Step → StepStatus → ℕ → Option Thrown → SagaDb → SagaDb
mark now o step status n e = with_steps (mark_step_result now o step status n e)

-- One turn of one step: a query that succeeds or fails, the end of the call, or the heartbeat.
pub data Turn (o : String) (step : Step) (db : SagaDb) : Phase → SagaDb → Phase → Type 0 where
  start :
      {db' : SagaDb} (now : ℕ)
      → db' ≡ with_steps (mark_step_running now o step) db
      → Turn o step db ready db' (calling 0)
  start_fails : {db' : SagaDb} (e : Thrown) → db' ≡ db → Turn o step db ready db' (thrown 0 e)
  record_try :
      {db' : SagaDb} {n m : ℕ} (info : AttemptInfo)
      → db' ≡ record db { attempts = record_attempt o step info db.attempts }
      → m ≡ info.attempt
      → Turn o step db (calling n) db' (calling m)
  record_fails :
      {db' : SagaDb} {n : ℕ} (m : ℕ) → db' ≡ db → Turn o step db (calling n) db' (calling m)
  call_returns : {db' : SagaDb} {n : ℕ} → db' ≡ db → Turn o step db (calling n) db' (returned n)
  call_throws :
      {db' : SagaDb} {n : ℕ} (e : Thrown) → db' ≡ db → Turn o step db (calling n) db' (thrown n e)
  succeed :
      {db' : SagaDb} {n : ℕ} {out : StepOutcome} (now : ℕ)
      → db' ≡ mark now o step succeeded n none db
      → out ≡ record { step = step; ok = true; error = none }
      → Turn o step db (returned n) db' (finished out)
  succeed_fails :
      {db' : SagaDb} {n : ℕ} (e : Thrown) → db' ≡ db → Turn o step db (returned n) db' (thrown n e)
  fail :
      {db' : SagaDb} {n : ℕ} {e : Thrown} {out : StepOutcome} (now : ℕ)
      → db' ≡ mark now o step failed n (some e) db
      → out ≡ record { step = step; ok = false; error = some e }
      → Turn o step db (thrown n e) db' (finished out)
  -- the bookkeeping itself failed: the step's promise is rejected
  reject :
      {db' : SagaDb} {n : ℕ} {e : Thrown} {out : StepOutcome} (e' : Thrown)
      → db' ≡ db
      → out ≡ record { step = step; ok = false; error = some e' }
      → Turn o step db (thrown n e) db' (finished out)
  beat :
      {db' : SagaDb} {p : Phase} (now ttl : ℕ) (o' i : String)
      → db' ≡ (renew_lease now o' i ttl db).1
      → Turn o step db p db' p

-- The steps of a group over the coordinator's tables. A step outside the group stays `ready`.
pub record Group : Type 0 where
  pub db : SagaDb
  pub phase : Step → Phase

abbrev pub move : Step → Phase → (Step → Phase) → Step → Phase
move step p phase s = if step_eq s step then p else phase s

abbrev pub starting : SagaDb → Group
starting db = record { db = db; phase = λ _. ready }

-- What any interleaving of the steps reaches.
pub data Reach (o : String) (steps : List Step) (db : SagaDb) : Group → Type 0 where
  here : {g : Group} → g ≡ starting db → Reach o steps db g
  later :
      {g g' : Group} {db' : SagaDb} {p : Phase} (s : Step)
      → Reach o steps db g
      → any (λ x. step_eq s x) steps ≡ true
      → Turn o s g.db (g.phase s) db' p
      → g' ≡ record { db = db'; phase = move s p g.phase }
      → Reach o steps db g'
