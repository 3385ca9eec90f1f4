-- ===== src/Coordinator/Worker.antt =====
-- The claim loop (services/coordinator/src/worker.ts): the pool of workers that share a cursor, and
-- the loop around it, as steps between awaits.
pub mod Slots
pub mod Concurrency
pub mod Stopping
use order_saga.Prelude.{
  ℕ, zero, suc, min, ◌≡◌, ◌≢◌, String, Bool, true, false, Option, none, some, List, [], ◌∷◌, ◌++◌,
  length, get_elem?, repeat, all, ltb, if◌then◌else◌,
}
use order_saga.Coordinator.Repository.{SagaDb, ClaimedOrder, claim_batch}

-- A worker of `mapWithConcurrency`: at the test of its loop, in `fn`, or past the loop.
pub data Slot (A : Type 0) : Type 0 where
  free : Slot A
  busy : A → Slot A
  ended : Slot A

-- `done` are the items whose `fn` has ended, newest first.
pub record Pool (A : Type 0) : Type 0 where
  pub cursor : ℕ
  pub slots : List (Slot A)
  pub done : List A

module _ {A : Type 0} where
  unfoldable pub start_pool : List A → ℕ → Pool A
  start_pool items limit = record {
    cursor = 0;
    slots = repeat (min limit (length items)) free;
    done = [];
  }

  -- The test of the loop, and the item that the worker takes then.
  unfoldable pub next_slot : List A → ℕ → Slot A × ℕ
  next_slot items cursor =
      if ltb cursor (length items)
      then (elim (get_elem? items cursor) [ none ↦ free | some x ↦ busy x ], suc cursor)
      else (ended, cursor)

  -- One worker goes on; `processOne` catches what its order throws, so `fn` always ends.
  pub data SlotTurn (items : List A) (cursor : ℕ) (done : List A)
      : Slot A → Slot A → ℕ → List A → Type 0 where
    pick :
        {s : Slot A} {c : ℕ} {d : List A}
        → (s, c) ≡ next_slot items cursor
        → d ≡ done
        → SlotTurn items cursor done free s c d
    finish :
        {x : A} {s : Slot A} {c : ℕ} {d : List A}
        → s ≡ free
        → c ≡ cursor
        → d ≡ x ∷ done
        → SlotTurn items cursor done (busy x) s c d

  pub data PoolTurn (items : List A) (p : Pool A) : Pool A → Type 0 where
    turn :
        {p' : Pool A} {s s' : Slot A} {c : ℕ} {d : List A} (before after : List (Slot A))
        → p.slots ≡ before ++ s ∷ after
        → SlotTurn items p.cursor p.done s s' c d
        → p' ≡ record { cursor = c; slots = before ++ s' ∷ after; done = d }
        → PoolTurn items p p'

  -- The pools that `n` turns reach.
  pub data PoolRun (items : List A) (limit : ℕ) : ℕ → Pool A → Type 0 where
    start : {n : ℕ} {p : Pool A} → n ≡ 0 → p ≡ start_pool items limit → PoolRun items limit n p
    step :
        {n m : ℕ} {p p' : Pool A}
        → PoolRun items limit n p
        → PoolTurn items p p'
        → m ≡ suc n
        → PoolRun items limit m p'

  abbrev pub is_ended : Slot A → Bool
  is_ended ended = true
  is_ended _ = false

  -- The items whose `fn` runs.
  abbrev pub in_flight : List (Slot A) → List A
  in_flight [] = []
  in_flight (busy x ∷ slots) = x ∷ in_flight slots
  in_flight (free ∷ slots) = in_flight slots
  in_flight (ended ∷ slots) = in_flight slots

pub record WorkerOptions : Type 0 where
  pub batch_size : ℕ
  pub concurrency : ℕ
  pub poll_interval_ms : ℕ
  pub lease_ttl_ms : ℕ

-- Where `loop` awaits.
pub data LoopPhase : Type 0 where
  claiming : LoopPhase
  sleeping : LoopPhase
  working : List ClaimedOrder → Pool ClaimedOrder → LoopPhase
  stopped : LoopPhase

pub record Loop : Type 0 where
  pub running : Bool
  pub phase : LoopPhase

-- `while (running)`
unfoldable pub at_test : Bool → LoopPhase
at_test running = if running then claiming else stopped

-- One turn of the loop over the tables. The last index tells whether a batch was claimed.
pub data LoopTurn (instance_id : String) (options : WorkerOptions) (l : Loop) (db : SagaDb)
    : Loop → SagaDb → Bool → Type 0 where
  claim :
      {l' : Loop} {db' : SagaDb} {b : Bool} {batch : List ClaimedOrder} (locked : ℕ → Bool)
      (now : ℕ)
      → l.phase ≡ claiming
      → claim_batch locked now instance_id options.batch_size options.lease_ttl_ms db ≡ (batch, db')
      → batch ≢ []
      → l' ≡ record l { phase = working batch (start_pool batch options.concurrency) }
      → b ≡ true
      → LoopTurn instance_id options l db l' db' b
  nothing :
      {l' : Loop} {db' : SagaDb} {b : Bool} (locked : ℕ → Bool) (now : ℕ)
      → l.phase ≡ claiming
      → claim_batch locked now instance_id options.batch_size options.lease_ttl_ms db ≡ ([], db')
      → l' ≡ record l { phase = sleeping }
      → b ≡ false
      → LoopTurn instance_id options l db l' db' b
  claim_fails :
      {l' : Loop} {db' : SagaDb} {b : Bool}
      → l.phase ≡ claiming
      → db' ≡ db
      → l' ≡ record l { phase = sleeping }
      → b ≡ false
      → LoopTurn instance_id options l db l' db' b
  wake :
      {l' : Loop} {db' : SagaDb} {b : Bool}
      → l.phase ≡ sleeping
      → db' ≡ db
      → l' ≡ record l { phase = at_test l.running }
      → b ≡ false
      → LoopTurn instance_id options l db l' db' b
  -- an order of the batch goes on, and with it the tables
  process :
      {l' : Loop} {db' : SagaDb} {b : Bool} {batch : List ClaimedOrder} {p p' : Pool ClaimedOrder}
      → l.phase ≡ working batch p
      → PoolTurn batch p p'
      → l' ≡ record l { phase = working batch p' }
      → b ≡ false
      → LoopTurn instance_id options l db l' db' b
  drained :
      {l' : Loop} {db' : SagaDb} {b : Bool} {batch : List ClaimedOrder} {p : Pool ClaimedOrder}
      → l.phase ≡ working batch p
      → all is_ended p.slots ≡ true
      → db' ≡ db
      → l' ≡ record l { phase = at_test l.running }
      → b ≡ false
      → LoopTurn instance_id options l db l' db' b
  stop :
      {l' : Loop} {db' : SagaDb} {b : Bool}
      → db' ≡ db
      → l' ≡ record l { running = false }
      → b ≡ false
      → LoopTurn instance_id options l db l' db' b
  -- another process writes
  elsewhere :
      {l' : Loop} {db' : SagaDb} {b : Bool}
      → l' ≡ l
      → b ≡ false
      → LoopTurn instance_id options l db l' db' b
