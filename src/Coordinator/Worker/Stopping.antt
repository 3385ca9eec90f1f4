-- ===== src/Coordinator/Worker/Stopping.antt =====
-- Proofs about the loop: its batches, and what it claims once it has been told to stop.
use order_saga.Prelude.{
  ℕ, suc, ◌+◌, ◌≤◌, ◌≡◌, ◌≢◌, refl, String, Bool, true, false, arith, if◌then◌else◌,
}
use order_saga.Coordinator.Repository.{SagaDb}
use order_saga.Coordinator.Worker.{
  WorkerOptions, LoopPhase, claiming, sleeping, working, stopped, Loop, at_test, LoopTurn, claim,
  nothing, claim_fails, wake, process, drained, stop, elsewhere, PoolRun,
}

-- A run of the loop, with the number of batches that it has claimed.
pub data LoopRun (instance_id : String) (options : WorkerOptions) (l : Loop) (db : SagaDb)
    : Loop → SagaDb → ℕ → Type 0 where
  at_first :
      {l' : Loop} {db' : SagaDb} {n : ℕ}
      → l' ≡ l
      → db' ≡ db
      → n ≡ 0
      → LoopRun instance_id options l db l' db' n
  next :
      {l1 l' : Loop} {db1 db' : SagaDb} {n m : ℕ} {b : Bool}
      → LoopRun instance_id options l db l1 db1 n
      → LoopTurn instance_id options l1 db1 l' db' b
      → m ≡ (if b then suc n else n)
      → LoopRun instance_id options l db l' db' m

abbrev is_claiming : LoopPhase → Bool
is_claiming claiming = true
is_claiming _ = false

abbrev claims_left : LoopPhase → ℕ
claims_left p = if is_claiming p then 1 else 0

-- A loop that is told to stop never enters a claim.
at_test-stopped : (running : Bool) → running ≡ false → claims_left (at_test running) ≡ 0
unfolding at_test
at_test-stopped running h = ground arith

LoopTurn-stopped :
    {instance_id : String} {options : WorkerOptions} (l : Loop) (db : SagaDb) {l' : Loop}
    {db' : SagaDb} {b : Bool}
    → LoopTurn instance_id options l db l' db' b
    → l.running ≡ false
    → (l'.running ≡ false) × ((if b then 1 else 0) + claims_left l'.phase ≤ claims_left l.phase)
LoopTurn-stopped l db (claim locked now p e some_order f g) h = rw (f, g, p) (h, omega arith)
LoopTurn-stopped l db (nothing locked now p e f g) h = rw (f, g, p) (h, omega arith)
LoopTurn-stopped l db (claim_fails p e f g) h = rw (f, g, p) (h, omega arith)
LoopTurn-stopped l db (wake p e f g) h = rw (f, g, p, at_test-stopped l.running h) (h, omega arith)
LoopTurn-stopped l db (process p t f g) h = rw (f, g, p) (h, omega arith)
LoopTurn-stopped l db (drained p over e f g) h =
    rw (f, g, p, at_test-stopped l.running h) (h, omega arith)
LoopTurn-stopped l db (stop e f g) h = rw (f, g) (refl, omega arith)
LoopTurn-stopped l db (elsewhere f g) h = rw (f, g) (h, omega arith)

LoopRun-stopped :
    {instance_id : String} {options : WorkerOptions} (l : Loop) (db : SagaDb) {l' : Loop}
    {db' : SagaDb} {n : ℕ}
    → LoopRun instance_id options l db l' db' n
    → l.running ≡ false
    → (l'.running ≡ false) × (n + claims_left l'.phase ≤ claims_left l.phase)
LoopRun-stopped l db (at_first e f g) h = rw (e, g) (h, omega arith)
LoopRun-stopped l db (next {l1 = l1} {db1 = db1} {n = n} {b = b} run turn e) h =
    let before = LoopRun-stopped l db run h in
    let after = LoopTurn-stopped l1 db1 turn before.0 in
    (after.0, ground (arith, e, before.1, after.1))

-- After `stop` the loop claims at most one more batch, and none unless a claim was under way then.
pub stop-claims :
    {instance_id : String} {options : WorkerOptions} (l : Loop) (db : SagaDb) {l' : Loop}
    {db' : SagaDb} {n : ℕ}
    → LoopRun instance_id options (record l { running = false }) db l' db' n
    → (n ≤ 1) × (l.phase ≢ claiming → n ≡ 0)
stop-claims l db run =
    let h = LoopRun-stopped (record l { running = false }) db run refl in
    (ground (arith, h.1), λ other. ground (arith, h.1, not_claiming l.phase other))
  where
    not_claiming : (p : LoopPhase) → p ≢ claiming → claims_left p ≡ 0
    not_claiming claiming other = absurd (other refl)
    not_claiming sleeping other = refl
    not_claiming (working b p) other = refl
    not_claiming stopped other = refl

-- The pool of a batch has run from its start.
abbrev IsPool : WorkerOptions → LoopPhase → Type 0
IsPool options (working batch p) = (n : ℕ) × PoolRun batch options.concurrency n p
IsPool options _ = Unit {0}
