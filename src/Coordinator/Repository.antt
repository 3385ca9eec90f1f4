-- ===== src/Coordinator/Repository.antt =====
-- The statements of services/coordinator/src/repository.ts over the tables of db/01-saga.sql.
-- `now` is the server's clock, in milliseconds.
pub mod Claims
pub mod Oldest
pub mod Leases
pub mod Arming
use order_saga.Prelude.{
  ℕ, ◌+◌, ℤ, max, String, Bool, true, false, not, ◌&&◌, ◌||◌, Option, none, some, List, [], ◌∷◌,
  ◌++◌, map, select, any, take, find, update_where, count_where, ltb, nat_eq, ◌==◌, if◌then◌else◌,
}
use order_saga.Shared.Types.{
  Step, ForwardStep, StepKind, forward, forward_kind, compensation_kind, forward_steps, step_eq,
  step_kind, idempotency_key, OrderStatus, pending, in_progress, compensating, status_eq,
  StepStatus, waiting, running, succeeded, is_succeeded, AttemptOutcome,
}
use order_saga.Shared.Errors.{Thrown}
use order_saga.Shared.Retry.{AttemptInfo}

-- A row of `saga_orders`. Of an error the whole value is kept, of which a table holds the first
-- 1000 characters of the message.
pub record OrderRow : Type 0 where
  pub id : ℕ
  pub order_id : String
  pub sku : String
  pub qty : ℤ
  pub amount : String
  pub fail_at : Option String
  pub comp_fail_at : Option String
  pub status : OrderStatus
  pub attempt_count : ℕ
  pub lease_owner : Option String
  pub lease_expires_at : Option ℕ
  pub last_error : Option Thrown
  pub source_batch : Option String

-- A row of `saga_steps`; its order and step are its key.
pub record StepRow : Type 0 where
  pub kind : StepKind
  pub status : StepStatus
  pub attempts : ℕ
  pub idempotency_key : String
  pub last_error : Option Thrown
  pub started_at : Option ℕ
  pub finished_at : Option ℕ

-- A row of `saga_step_attempts`.
pub record AttemptRow : Type 0 where
  pub order_id : String
  pub step : Step
  pub attempt_no : ℕ
  pub outcome : AttemptOutcome
  pub error : Option Thrown
  pub duration_ms : ℕ
  pub started_at : ℕ
  pub finished_at : ℕ

-- `saga_steps` by its unique key (order_id, step).
abbrev pub StepTable : Type 0
StepTable = String → Step → Option StepRow

-- `orders` stands in the order of the ids.
pub record SagaDb : Type 0 where
  pub orders : List OrderRow
  pub steps : StepTable
  pub attempts : List AttemptRow

pub record ClaimedOrder : Type 0 where
  pub id : ℕ
  pub order_id : String
  pub sku : String
  pub qty : ℤ
  pub amount : String
  pub fail_at : Option String
  pub comp_fail_at : Option String
  pub status : OrderStatus

abbrev pub to_claimed_order : OrderRow → ClaimedOrder
to_claimed_order r = record {
  id = r.id;
  order_id = r.order_id;
  sku = r.sku;
  qty = r.qty;
  amount = r.amount;
  fail_at = r.fail_at;
  comp_fail_at = r.comp_fail_at;
  status = r.status;
}

-- `lease_expires_at < NOW(3)`, which no missing value satisfies.
abbrev pub is_past : ℕ → Option ℕ → Bool
is_past now none = false
is_past now (some t) = ltb t now

-- The WHERE clause of the claim query.
unfoldable pub is_claimable : ℕ → OrderRow → Bool
is_claimable now r =
    status_eq r.status pending
    || (status_eq r.status in_progress || status_eq r.status compensating)
      && is_past now r.lease_expires_at

abbrev pub claimed_status : OrderStatus → OrderStatus
claimed_status compensating = compensating
claimed_status _ = in_progress

unfoldable pub stamp_claim : String → ℕ → ℕ → OrderRow → OrderRow
stamp_claim instance_id now ttl_ms r = record r {
  status = claimed_status r.status;
  lease_owner = some instance_id;
  lease_expires_at = some (now + ttl_ms);
  attempt_count = r.attempt_count + 1;
}

-- The rows that `SELECT … ORDER BY id LIMIT ? FOR UPDATE SKIP LOCKED` returns; `locked` tells the
-- ids that other transactions have locked.
unfoldable pub claim_rows : (ℕ → Bool) → ℕ → ℕ → List OrderRow → List OrderRow
unfolding is_claimable
claim_rows locked now batch_size orders =
    take batch_size (select (λ r. is_claimable now r && not (locked r.id)) orders)

unfoldable pub claim_batch : (ℕ → Bool) → ℕ → String → ℕ → ℕ → SagaDb → List ClaimedOrder × SagaDb
unfolding claim_rows stamp_claim
claim_batch locked now instance_id batch_size lease_ttl_ms db =
    let rows = claim_rows locked now batch_size db.orders in
    (
      map to_claimed_order rows,
      record db {
        orders =
            update_where (λ r. any (λ x. nat_eq x.id r.id) rows)
              (stamp_claim instance_id now lease_ttl_ms) db.orders;
      },
    )

-- `lease_owner = ?`
abbrev pub owns : String → Option String → Bool
owns instance_id none = false
owns instance_id (some owner) = owner == instance_id

-- The fence: `WHERE order_id = ? AND lease_owner = ?`.
abbrev pub is_held : String → String → OrderRow → Bool
is_held order_id instance_id r = r.order_id == order_id && owns instance_id r.lease_owner

unfoldable pub renew_lease : ℕ → String → String → ℕ → SagaDb → Bool × SagaDb
renew_lease now order_id instance_id lease_ttl_ms db = (
  nat_eq (count_where (is_held order_id instance_id) db.orders) 1,
  record db {
    orders =
        update_where (is_held order_id instance_id)
          (λ r. record r { lease_expires_at = some (now + lease_ttl_ms) }) db.orders;
  },
)

-- `options` of `setOrderStatus`
pub record StatusOptions : Type 0 where
  pub clear_lease : Bool
  pub last_error : Option Thrown

abbrev pub write_status : OrderStatus → StatusOptions → OrderRow → OrderRow
write_status status options r = record r {
  status = status;
  last_error = options.last_error;
  lease_owner = if options.clear_lease then none else r.lease_owner;
  lease_expires_at = if options.clear_lease then none else r.lease_expires_at;
}

unfoldable pub set_order_status :
    String → String → OrderStatus → StatusOptions → SagaDb → Bool × SagaDb
set_order_status order_id instance_id status options db = (
  nat_eq (count_where (is_held order_id instance_id) db.orders) 1,
  record db {
    orders = update_where (is_held order_id instance_id) (write_status status options) db.orders;
  },
)

-- The table with the row of one key replaced.
unfoldable pub put_step : String → Step → Option StepRow → StepTable → StepTable
put_step order_id step row t o s = if o == order_id && step_eq s step then row else t o s

abbrev pub changed_row : (StepRow → StepRow) → Option StepRow → Option StepRow
changed_row f none = none
changed_row f (some r) = some (f r)

-- `INSERT … ON DUPLICATE KEY UPDATE status = IF(status = 'SUCCEEDED', 'SUCCEEDED', 'PENDING')`
unfoldable pub armed_row : String → Step → Option StepRow → StepRow
unfolding step_kind idempotency_key
armed_row order_id step none = record {
  kind = step_kind step;
  status = waiting;
  attempts = 0;
  idempotency_key = idempotency_key order_id step;
  last_error = none;
  started_at = none;
  finished_at = none;
}
armed_row order_id step (some r) = record r {
  status = if is_succeeded r.status then succeeded else waiting;
}

unfoldable pub init_steps : String → List Step → StepTable → StepTable
unfolding armed_row put_step
init_steps order_id [] t = t
init_steps order_id (step ∷ steps) t =
    init_steps order_id steps
      (put_step order_id step (some (armed_row order_id step (t order_id step))) t)

abbrev pub first_start : ℕ → Option ℕ → Option ℕ
first_start now none = some now
first_start now (some t) = some t

unfoldable pub mark_step_running : ℕ → String → Step → StepTable → StepTable
unfolding put_step
mark_step_running now order_id step t =
    put_step order_id step
      (changed_row
        (λ r.
          if is_succeeded r.status
          then r
          else record r { status = running; started_at = first_start now r.started_at })
        (t order_id step))
      t

unfoldable pub mark_step_result :
    ℕ → String → Step → StepStatus → ℕ → Option Thrown → StepTable → StepTable
unfolding put_step
mark_step_result now order_id step status attempts last_error t =
    put_step order_id step
      (changed_row
        (λ r. record r {
          status = status;
          attempts = max r.attempts attempts;
          last_error = last_error;
          finished_at = some now;
        })
        (t order_id step))
      t

unfoldable pub record_attempt : String → Step → AttemptInfo → List AttemptRow → List AttemptRow
record_attempt order_id step info rows =
    rows
    ++ record {
      order_id = order_id;
      step = step;
      attempt_no = info.attempt;
      outcome = info.outcome;
      error = info.error;
      duration_ms = info.duration_ms;
      started_at = info.started_at;
      finished_at = info.finished_at;
    }
      ∷ []

-- `kind = 'FORWARD' AND status = 'SUCCEEDED'`
abbrev pub is_forward_kind : StepKind → Bool
is_forward_kind forward_kind = true
is_forward_kind compensation_kind = false

abbrev pub is_done_row : Option StepRow → Bool
is_done_row none = false
is_done_row (some r) = is_forward_kind r.kind && is_succeeded r.status

unfoldable pub get_succeeded_forward_steps : String → StepTable → List ForwardStep
get_succeeded_forward_steps order_id t =
    select (λ f. is_done_row (t order_id (forward f))) forward_steps

abbrev pub row_status : Option StepRow → Option StepStatus
row_status none = none
row_status (some r) = some r.status

-- A map from the steps of the order that have a row to their status.
unfoldable pub get_step_statuses : String → StepTable → Step → Option StepStatus
get_step_statuses order_id t step = row_status (t order_id step)
