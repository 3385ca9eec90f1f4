-- ===== src/Notification.antt =====
-- The notification job (services/notification/src/notifier.ts) over its table `notifications`, in the
-- order of the ids.
pub mod Once
pub mod Fetch
pub mod Process
use order_saga.Prelude.{
  ℕ, zero, suc, ◌+◌, ◌*◌, ◌/◌, max, String, Bool, true, false, ◌&&◌, ◌||◌, Option, none, some, List,
  [], ◌∷◌, ◌++◌, map, any, select, take, length, update_where, count_where, ltb, leb, nat_eq, ◌==◌,
  if◌then◌else◌,
}
use order_saga.Shared.Errors.{Thrown, plain}
use order_saga.Shared.Exec.{Result, ok, err, Exec, pure, ◌>>=◌}

pub data NotificationStatus : Type 0 where
  claimed sent failed : NotificationStatus

pub record NotificationRow : Type 0 where
  pub order_id : String
  pub status : NotificationStatus
  pub claimed_by : Option String
  pub claimed_at : Option ℕ
  pub sent_at : Option ℕ
  pub attempts : ℕ

abbrev pub Notifications : Type 0
Notifications = List NotificationRow

pub record NotifierDeps : Type 0 where
  pub instance_id : String
  pub batch_size : ℕ
  pub stale_ms : ℕ

pub record JobResult : Type 0 where
  pub shipped_seen : ℕ
  pub reclaimed : ℕ
  pub claimed : ℕ
  pub sent : ℕ
  pub already_handled : ℕ
  pub failed : ℕ

abbrev pub is_claimed : NotificationStatus → Bool
is_claimed claimed = true
is_claimed _ = false

-- A page of the coordinator's answer.
pub record OrderListResponse : Type 0 where
  pub items : List String
  pub total : ℕ
  pub page_size : ℕ

-- The pages from `page` on; `pages` is what the coordinator answers, and the fuel bounds their number.
unfoldable pub fetch_shipped_order_ids :
    (ℕ → Result OrderListResponse) → ℕ → ℕ → Result (List String)
fetch_shipped_order_ids pages zero page = ok []
fetch_shipped_order_ids pages (suc fuel) page =
    let rest = fetch_shipped_order_ids pages fuel (suc page) in
    elim (pages page) [
      | err e ↦ err e
      | ok body ↦
          if leb body.total (page * body.page_size) || nat_eq (length body.items) 0
          then ok body.items
          else elim rest [ err e ↦ err e | ok ids ↦ ok (body.items ++ ids) ]
    ]

abbrev pub is_past : ℕ → ℕ → Option ℕ → Bool
is_past now seconds none = false
is_past now seconds (some t) = ltb (t + seconds * 1000) now

abbrev pub is_mine : String → Option String → Bool
is_mine instance_id none = false
is_mine instance_id (some i) = i == instance_id

-- `UPDATE … WHERE p LIMIT n`
abbrev pub update_first :
    ℕ
    → (NotificationRow → Bool)
    → (NotificationRow → NotificationRow)
    → Notifications
    → Notifications
update_first zero p f rows = rows
update_first (suc n) p f [] = []
update_first (suc n) p f (r ∷ rows) =
    let hit = f r ∷ update_first n p f rows in
    let miss = r ∷ update_first (suc n) p f rows in if p r then hit else miss

-- A statement that throws, and whether the database has applied it nevertheless.
pub record StatementFault : Type 0 where
  pub error : Thrown
  pub applied : Bool

-- What fails during a job beside the fetch: the two statements of `reclaimStale`, and the claim and the
-- send of each order.
pub record JobFaults : Type 0 where
  pub takeover : Option StatementFault
  pub read : Option StatementFault
  pub claim : String → Option StatementFault
  pub send : String → Option StatementFault

abbrev pub attempt :
    {A : Type 0}
    → Option StatementFault
    → (Notifications → A × Notifications)
    → Exec Notifications A
attempt none query rows = (ok (query rows).0, (query rows).1)
attempt (some f) query rows = (err f.error, if f.applied then (query rows).1 else rows)

-- The UPDATE of `reclaimStale`.
unfoldable pub take_over_stale : NotifierDeps → ℕ → Notifications → Unit {0} × Notifications
take_over_stale deps now rows =
    let stale_seconds = max 1 ((deps.stale_ms + 999) / 1000) in
    (
      tt,
      update_first deps.batch_size
          (λ r. is_claimed r.status && is_past now stale_seconds r.claimed_at)
          (λ r. record r { claimed_by = some deps.instance_id; claimed_at = some now }) rows,
    )

-- Its SELECT.
unfoldable pub claimed_ids : NotifierDeps → Notifications → List String × Notifications
claimed_ids deps rows = (
  map (λ r. r.order_id)
      (take deps.batch_size
        (select (λ r. is_claimed r.status && is_mine deps.instance_id r.claimed_by) rows)),
  rows,
)

unfoldable pub reclaim_stale : NotifierDeps → ℕ → JobFaults → Exec Notifications (List String)
unfolding take_over_stale claimed_ids
reclaim_stale deps now faults = do
  _ ← attempt faults.takeover (take_over_stale deps now)
  attempt faults.read (claimed_ids deps)

-- `INSERT IGNORE INTO notifications`
unfoldable pub claim : NotifierDeps → ℕ → String → Notifications → Bool × Notifications
claim deps now order_id rows = if any (λ r. r.order_id == order_id) rows then (false, rows) else (
  true,
  rows
      ++ record {
        order_id = order_id;
        status = claimed;
        claimed_by = some deps.instance_id;
        claimed_at = some now;
        sent_at = none;
        attempts = 0;
      }
        ∷ [],
)

abbrev pub is_sendable : NotifierDeps → String → NotificationRow → Bool
is_sendable deps order_id r =
    r.order_id == order_id && (is_claimed r.status && is_mine deps.instance_id r.claimed_by)

unfoldable pub send : NotifierDeps → ℕ → String → Notifications → Bool × Notifications
send deps now order_id rows = (
  nat_eq (count_where (is_sendable deps order_id) rows) 1,
  update_where (is_sendable deps order_id)
      (λ r. record r { status = sent; sent_at = some now; attempts = r.attempts + 1 }) rows,
)

-- The loop of the claims, with the orders that are ours and the number of those that are not; a claim
-- that throws ends it.
unfoldable pub claim_loop :
    NotifierDeps → ℕ → JobFaults → List String → Exec Notifications (List String × ℕ)
unfolding claim
claim_loop deps now faults [] rows = (ok ([], 0), rows)
claim_loop deps now faults (order_id ∷ ids) rows =
    (do
      won ← attempt (faults.claim order_id) (claim deps now order_id)
      rest ← claim_loop deps now faults ids
      pure (if won then (order_id ∷ rest.0, rest.1) else (rest.0, suc rest.1)))
      rows

-- One more send among those sent and those failed.
abbrev pub tally : Result Bool → ℕ × ℕ → ℕ × ℕ
tally (ok true) (done, broken) = (suc done, broken)
tally (ok false) (done, broken) = (done, broken)
tally (err e) (done, broken) = (done, suc broken)

-- The loop of the sends, which goes on after one that throws.
unfoldable pub send_loop :
    NotifierDeps → ℕ → JobFaults → List String → Notifications → (ℕ × ℕ) × Notifications
unfolding send
send_loop deps now faults [] rows = ((0, 0), rows)
send_loop deps now faults (order_id ∷ ids) rows =
    let one = attempt (faults.send order_id) (send deps now order_id) rows in
    let after = send_loop deps now faults ids one.1 in (tally one.0 after.0, after.1)

-- The sends, and the report of the job.
unfoldable pub finish_job :
    NotifierDeps
    → ℕ
    → JobFaults
    → List String
    → List String
    → List String × ℕ
    → Exec Notifications JobResult
unfolding send_loop
finish_job deps now faults reclaimed shipped claims rows =
    let sends = send_loop deps now faults (reclaimed ++ claims.0) rows in
    (
      ok (record {
        shipped_seen = length shipped;
        reclaimed = length reclaimed;
        claimed = length claims.0;
        sent = sends.0.0;
        already_handled = claims.1;
        failed = sends.0.1;
      }),
      sends.1,
    )

-- The job, given what the fetch returns or throws.
unfoldable pub run_notification_job :
    NotifierDeps → ℕ → JobFaults → Result (List String) → Exec Notifications JobResult
unfolding reclaim_stale claim_loop finish_job
run_notification_job deps now faults fetched = do
  reclaimed ← reclaim_stale deps now faults
  shipped ← λ rows. (fetched, rows)
  claims ← claim_loop deps now faults shipped
  finish_job deps now faults reclaimed shipped claims
