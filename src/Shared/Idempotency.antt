-- ===== src/Shared/Idempotency.antt =====
-- Service-side idempotency (packages/shared/src/idempotency.ts). `D` is the state of the service's
-- own tables, which the work changes in the transaction that completes the record.
pub mod Outcome
pub mod Growth
pub mod Replay
pub mod Retries
pub mod Progress
pub mod Together
use order_saga.Prelude.{
  ℕ, ◌+◌, ◌*◌, ◌/◌, max, String, Bool, true, false, not, ◌&&◌, Option, none, some, Table, store,
  ltb, nat_eq, if◌then◌else◌,
}
use order_saga.Shared.Types.{Step, Data}
use order_saga.Shared.Errors.{Thrown, driver_error, operation_in_progress}
use order_saga.Shared.Exec.{Result, ok, err, Exec, pure, throw, catch, ◌>>=◌, ◌>>◌}
use order_saga.Shared.Db.{is_duplicate_key_error}
use order_saga.Shared.Cache.{Cache, cache_get, cache_set, idempotency_cache_key}

-- A row of `idempotency_records`. The statement that sets the status COMPLETED sets the response
-- too, so the two columns are one value.
pub data RecordStatus : Type 0 where
  claimed : RecordStatus
  completed : Data → RecordStatus

pub record IdempotencyRecord : Type 0 where
  pub idempotency_key : String
  pub operation : Step
  pub order_id : String
  pub status : RecordStatus
  pub created_at : ℕ
  pub completed_at : Option ℕ

pub record Service (D : Type 0) : Type 0 where
  pub records : Table IdempotencyRecord
  pub domain : D
  pub cache : Cache
  pub clock : ℕ

pub record IdempotencyContext : Type 0 where
  pub key : String
  pub operation : Step
  pub order_id : String

pub record IdempotentResult : Type 0 where
  pub result : Data
  pub replayed : Bool

pub record IdempotencyOptions : Type 0 where
  pub stale_ms : ℕ
  pub cache_ttl_seconds : ℕ

abbrev pub default_options : IdempotencyOptions
default_options = record { stale_ms = 60000; cache_ttl_seconds = 3600 }

-- What goes wrong beside the code during one call: the error of each statement that fails, whether
-- a commit that fails was applied, and the cache operations that fail.
pub record Faults : Type 0 where
  pub connect : Option Thrown
  pub insert : Option Thrown
  pub read : Option Thrown
  pub takeover : Option Thrown
  pub begin : Option Thrown
  pub complete : Option Thrown
  pub commit : Option Thrown
  pub commit_applied : Bool
  pub release : Option Thrown
  pub cache_get : Bool
  pub cache_set : Bool

abbrev pub no_faults : Faults
no_faults = record {
  connect = none;
  insert = none;
  read = none;
  takeover = none;
  begin = none;
  complete = none;
  commit = none;
  commit_applied = false;
  release = none;
  cache_get = false;
  cache_set = false;
}

abbrev pub is_claimed : RecordStatus → Bool
is_claimed claimed = true
is_claimed (completed _) = false

-- The test of a statement on the row of its key, which may be missing.
abbrev pub matches : (IdempotencyRecord → Bool) → Option IdempotencyRecord → Bool
matches test none = false
matches test (some r) = test r

abbrev pub changed :
    (IdempotencyRecord → IdempotencyRecord) → Option IdempotencyRecord → Option IdempotencyRecord
changed f none = none
changed f (some r) = some (f r)

-- A statement of the connection that may fail.
abbrev pub statement : {S A : Type 0} → Option Thrown → Exec S A → Exec S A
statement none m s = m s
statement (some e) m s = (err e, s)

unfoldable pub stale_seconds : IdempotencyOptions → ℕ
stale_seconds o = max 1 ((o.stale_ms + 999) / 1000)

-- What phase 1 finds: the key is ours, or its response is stored.
pub data Claim : Type 0 where
  ours : Claim
  replay : Data → Claim

-- Fresh or stale is decided in the statement that takes over.
unfoldable pub is_stale : IdempotencyOptions → ℕ → IdempotencyRecord → Bool
unfolding stale_seconds
is_stale options now r =
    is_claimed r.status && ltb (r.created_at + stale_seconds options * 1000) now

abbrev pub new_record : IdempotencyContext → ℕ → IdempotencyRecord
new_record ctx now = record {
  idempotency_key = ctx.key;
  operation = ctx.operation;
  order_id = ctx.order_id;
  status = claimed;
  created_at = now;
  completed_at = none;
}

module _ {D : Type 0} (ctx : IdempotencyContext) (options : IdempotencyOptions)
    (faults : Faults) where
  unfoldable pub insert_record : Exec (Service D) (Unit {0})
  insert_record s = elim (s.records ctx.key) [
    | some _ ↦ (err (driver_error "Duplicate entry" "ER_DUP_ENTRY" 1062), s)
    | none ↦ (ok tt, record s { records = store ctx.key (some (new_record ctx s.clock)) s.records })
  ]

  -- The number of rows that the take-over changes.
  unfoldable pub take_over : Exec (Service D) ℕ
  unfolding is_stale
  take_over s =
      if matches (is_stale options s.clock) (s.records ctx.key)
      then (
        ok 1,
        record s {
          records =
              store ctx.key (changed (λ r. record r { created_at = s.clock }) (s.records ctx.key))
                s.records;
        },
      )
      else (ok 0, s)

  abbrev pub warm_cache : Data → Service D → Service D
  warm_cache d s = record s {
    cache =
        cache_set s.cache s.clock faults.cache_set (idempotency_cache_key ctx.key) d
          options.cache_ttl_seconds;
  }

  unfoldable pub take_over_or_wait : Exec (Service D) Claim
  unfolding take_over
  take_over_or_wait = do
    affected_rows ← statement faults.takeover take_over
    if nat_eq affected_rows 0 then throw (operation_in_progress ctx.key) else pure ours

  unfoldable pub resolve_status : Option IdempotencyRecord → Exec (Service D) Claim
  unfolding take_over_or_wait
  resolve_status none s = take_over_or_wait s
  resolve_status (some r) s = elim r.status [
    | completed d ↦ (ok (replay d), warm_cache d s)
    | claimed ↦ take_over_or_wait s
  ]

  unfoldable pub resolve_duplicate : Exec (Service D) Claim
  unfolding resolve_status
  resolve_duplicate = statement faults.read (λ s. resolve_status (s.records ctx.key) s)

  unfoldable pub claim_key : Exec (Service D) Claim
  unfolding insert_record resolve_duplicate is_duplicate_key_error
  claim_key =
      catch (statement faults.insert insert_record >> pure ours)
        (λ e. if is_duplicate_key_error e then resolve_duplicate else throw e)

  -- The best-effort release of the claim, after the rollback.
  unfoldable pub release_claim : Service D → Service D
  release_claim s = elim faults.release [
    | some _ ↦ s
    | none ↦
        if matches (λ r. is_claimed r.status) (s.records ctx.key)
        then record s { records = store ctx.key none s.records }
        else s
  ]

  abbrev pub mark_completed : Data → Service D → Service D
  mark_completed d s = record s {
    records =
        store ctx.key
          (changed (λ r. record r { status = completed d; completed_at = some s.clock })
            (s.records ctx.key))
          s.records;
  }

  -- The end of the transaction that began over `s`, once the work has left its tables as `d`.
  unfoldable pub finish_work : Service D → Result Data × D → Result IdempotentResult × Service D
  unfolding release_claim
  finish_work s (err e, d) = (err e, release_claim s)
  finish_work s (ok r, d) = elim faults.complete [
    | some e ↦ (err e, release_claim s)
    | none ↦
        let s' = mark_completed r (record s { domain = d }) in
        elim faults.commit [
          | some e ↦ (err e, release_claim (if faults.commit_applied then s' else s))
          | none ↦ (ok (record { result = r; replayed = false }), warm_cache r s')
        ]
  ]

  unfoldable pub perform : Exec D Data → Exec (Service D) IdempotentResult
  unfolding finish_work
  perform work s = elim faults.begin [
    | some e ↦ (err e, release_claim s)
    | none ↦ finish_work s (work s.domain)
  ]

  abbrev pub after_claim : Exec D Data → Claim → Exec (Service D) IdempotentResult
  after_claim work ours = perform work
  after_claim work (replay d) = pure (record { result = d; replayed = true })

  -- The fast path, then the two phases on a connection.
  unfoldable pub run_idempotent : Exec D Data → Exec (Service D) IdempotentResult
  unfolding claim_key perform
  run_idempotent work s =
      elim (cache_get s.cache s.clock faults.cache_get (idempotency_cache_key ctx.key)) [
        | some hit ↦ (ok (record { result = hit; replayed = true }), s)
        | none ↦ statement faults.connect (claim_key >>= after_claim work) s
      ]
