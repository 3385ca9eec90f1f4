-- ===== src/Shared/Idempotency/Together.antt =====
-- Calls of one operation at the same time: `runIdempotent` of packages/shared/src/idempotency.ts cut
-- at its awaits, and the calls interleaved in any order. The work and the record of it are one turn,
-- the commit: until then nobody sees what the transaction wrote.
pub mod Row
pub mod Moves
pub mod Once
use order_saga.Prelude.{
  ℕ, ◌+◌, ◌*◌, ◌≡◌, Bool, true, false, Option, none, some, ltb, nat_eq, if◌then◌else◌,
}
use order_saga.Shared.Types.{Data}
use order_saga.Shared.Errors.{Thrown, operation_in_progress}
use order_saga.Shared.Exec.{Result, ok, err, Exec}
use order_saga.Shared.Db.{is_duplicate_key_error}
use order_saga.Shared.Cache.{cache_get, idempotency_cache_key}
use order_saga.Shared.Idempotency.{
  Service, IdempotencyContext, IdempotencyOptions, IdempotentResult, Faults, insert_record,
  take_over, warm_cache, mark_completed, release_claim, stale_seconds,
}
use order_saga.Shared.Idempotency.Outcome.{stored_response}
use order_saga.Shared.Idempotency.Retries.{advance}

-- Where a call stands.
pub data CallPhase : Type 0 where
  begun : CallPhase
  inserting : CallPhase
  checking : CallPhase
  waiting : CallPhase
  -- the claim is ours since this time, and the transaction runs
  working : ℕ → CallPhase
  -- rolled back, and the claim is about to be released
  failing : ℕ → Thrown → CallPhase
  warming : IdempotentResult → CallPhase
  answered : Result IdempotentResult → CallPhase
  crashed : CallPhase

module _ {D : Type 0} (ctx : IdempotencyContext) (options : IdempotencyOptions)
    (work : Exec D Data) where
  -- One turn of one call, up to its next await.
  pub data CallTurn (s : Service D) : CallPhase → Service D → CallPhase → Type 0 where
    hit :
        {s' : Service D} {p : CallPhase} (d : Data)
        → cache_get s.cache s.clock false (idempotency_cache_key ctx.key) ≡ some d
        → s' ≡ s
        → p ≡ answered (ok (record { result = d; replayed = true }))
        → CallTurn s begun s' p
    -- the cache has nothing, or does not answer
    miss : {s' : Service D} → s' ≡ s → CallTurn s begun s' inserting
    insert :
        {s' : Service D} {p : CallPhase} (faults : Faults)
        → insert_record ctx options faults s ≡ (ok tt, s')
        → p ≡ working s.clock
        → CallTurn s inserting s' p
    duplicate :
        {s' : Service D} (faults : Faults) (e : Thrown)
        → insert_record ctx options faults s ≡ (err e, s')
        → is_duplicate_key_error e ≡ true
        → CallTurn s inserting s' checking
    read_completed :
        {s' : Service D} {p : CallPhase} (d : Data)
        → stored_response ctx.key s ≡ some d
        → s' ≡ s
        → p ≡ warming (record { result = d; replayed = true })
        → CallTurn s checking s' p
    read_open :
        {s' : Service D}
        → stored_response ctx.key s ≡ none
        → s' ≡ s
        → CallTurn s checking s' waiting
    take :
        {s' : Service D} {p : CallPhase} (faults : Faults)
        → take_over ctx options faults s ≡ (ok 1, s')
        → p ≡ working s.clock
        → CallTurn s waiting s' p
    wait_longer :
        {s' : Service D} {p : CallPhase} (faults : Faults)
        → take_over ctx options faults s ≡ (ok 0, s')
        → p ≡ answered (err (operation_in_progress ctx.key))
        → CallTurn s waiting s' p
    commit :
        {s' : Service D} {p : CallPhase} {t : ℕ} (faults : Faults) (r : Data) (d : D)
        → work s.domain ≡ (ok r, d)
        → s' ≡ mark_completed ctx options faults r (record s { domain = d })
        → p ≡ warming (record { result = r; replayed = false })
        → CallTurn s (working t) s' p
    -- applied by the server, and reported as failed
    commit_lost :
        {s' : Service D} {t : ℕ} (faults : Faults) (r : Data) (d : D) (e : Thrown)
        → work s.domain ≡ (ok r, d)
        → s' ≡ mark_completed ctx options faults r (record s { domain = d })
        → CallTurn s (working t) s' (failing t e)
    -- the work or a statement of the transaction throws
    fail : {s' : Service D} {t : ℕ} (e : Thrown) → s' ≡ s → CallTurn s (working t) s' (failing t e)
    release :
        {s' : Service D} {p : CallPhase} {t : ℕ} {e : Thrown} (faults : Faults)
        → s' ≡ release_claim ctx options faults s
        → p ≡ answered (err e)
        → CallTurn s (failing t e) s' p
    warm :
        {s' : Service D} {p : CallPhase} {r : IdempotentResult} (faults : Faults)
        → s' ≡ warm_cache ctx options faults r.result s
        → p ≡ answered (ok r)
        → CallTurn s (warming r) s' p
    -- a query before the claim is ours fails, or the process dies
    stop : {s' : Service D} {p p' : CallPhase} → s' ≡ s → p' ≡ crashed → CallTurn s p s' p'

  -- The calls with the key, as many as one likes, on one or several instances of the service.
  pub record Calls : Type 0 where
    pub service : Service D
    pub phase : ℕ → CallPhase

  abbrev pub move_call : ℕ → CallPhase → (ℕ → CallPhase) → ℕ → CallPhase
  move_call n p phase m = if nat_eq m n then p else phase m

  -- A call with the claim is no older than a claim that others may take over.
  abbrev pub IsInTime : ℕ → CallPhase → Type 0
  IsInTime now (working t) = ltb (t + stale_seconds options * 1000) now ≡ false
  IsInTime now (failing t e) = ltb (t + stale_seconds options * 1000) now ≡ false
  IsInTime now _ = Unit {0}

  abbrev pub AllInTime : Calls → Type 0
  AllInTime c = (n : ℕ) → IsInTime c.service.clock (c.phase n)

  -- What the calls reach from `s0` through states that satisfy `P`.
  pub data Interleave (P : Calls → Type 0) (s0 : Service D) : Calls → Type 0 where
    at_first : {c : Calls} → c ≡ record { service = s0; phase = λ _. begun } → Interleave P s0 c
    turn :
        {c c' : Calls} {s' : Service D} {p : CallPhase} (n : ℕ)
        → Interleave P s0 c
        → P c
        → CallTurn c.service (c.phase n) s' p
        → c' ≡ record { service = s'; phase = move_call n p c.phase }
        → Interleave P s0 c'
    time :
        {c c' : Calls} (ms : ℕ)
        → Interleave P s0 c
        → P c
        → c' ≡ record { service = advance ms c.service; phase = c.phase }
        → Interleave P s0 c'
