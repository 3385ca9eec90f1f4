-- ===== src/Notification/Process.antt =====
-- The process of the notifier (services/notification/src/index.ts): the schedule, the route that runs
-- the job, and the flag `running` that keeps them apart, as handlers between awaits.
use order_saga.Prelude.{
  ℕ, ◌≤◌, ◌≡◌, refl, sym, subst, Bool, true, false, Option, none, some, List, [], ◌∷◌, ◌++◌, ap,
  length, length-append, arith, if◌then◌else◌, ℤ, pos_part, min, max, take, reverse, String,
}
use order_saga.Shared.Errors.{Thrown}
use order_saga.Shared.Exec.{Result, ok, err}
use order_saga.Shared.Params.{read_number}
use order_saga.Notification.{JobResult, Notifications, NotificationRow}

pub data Trigger : Type 0 where
  cron request : Trigger

-- `jobs` are the calls of `runNotificationJob` that have not ended.
pub record Process : Type 0 where
  pub running : Bool
  pub jobs : List Trigger

abbrev pub started : Process
started = record { running = false; jobs = [] }

pub data RunAnswer : Type 0 where
  refused : RunAnswer
  completed : JobResult → RunAnswer
  broken : Thrown → RunAnswer

pub record RunResponse : Type 0 where
  pub status : ℕ
  pub answer : RunAnswer

-- The start of `tick`: a run that is under way makes it a no-op.
unfoldable pub tick : Process → Process
tick p = if p.running then p else record { running = true; jobs = cron ∷ p.jobs }

-- `POST /api/notifications/run` up to the await; a run that is under way is refused.
unfoldable pub run_route : Process → Option RunResponse × Process
run_route p =
    if p.running
    then (some (record { status = 409; answer = refused }), p)
    else (none, record { running = true; jobs = request ∷ p.jobs })

-- The answer of the route once the job has ended.
unfoldable pub run_answer : Result JobResult → RunResponse
run_answer (ok r) = record { status = 200; answer = completed r }
run_answer (err e) = record { status = 500; answer = broken e }

-- The `finally` block, after which the job is over.
unfoldable pub job_ends : List Trigger → List Trigger → Process
job_ends before after = record { running = false; jobs = before ++ after }

-- `GET /api/notifications`: the newest rows, at most 500.
unfoldable pub parse_limit : (String → Option ℤ) → Option String → ℕ
unfolding read_number
parse_limit number raw = min 500 (max 1 (pos_part (read_number number 50 raw)))

unfoldable pub notifications_route :
    (String → Option ℤ)
    → Option String
    → Option Thrown
    → Notifications
    → Result (List NotificationRow)
unfolding parse_limit
notifications_route number raw (some e) rows = err e
notifications_route number raw none rows = ok (take (parse_limit number raw) (reverse rows))

-- What the process reaches.
pub data ProcessRun : Process → Type 0 where
  launched : {p : Process} → p ≡ started → ProcessRun p
  on_tick : {p p' : Process} → ProcessRun p → p' ≡ tick p → ProcessRun p'
  on_request : {p p' : Process} → ProcessRun p → p' ≡ (run_route p).1 → ProcessRun p'
  on_end :
      {p p' : Process} (t : Trigger) (before after : List Trigger)
      → ProcessRun p
      → p.jobs ≡ before ++ t ∷ after
      → p' ≡ job_ends before after
      → ProcessRun p'

-- At most one job is under way, and the flag tells whether one is.
abbrev IsExclusive : Process → Type 0
IsExclusive p = length p.jobs ≡ (if p.running then 1 else 0)

tick-IsExclusive : (p : Process) → IsExclusive p → IsExclusive (tick p)
unfolding tick
tick-IsExclusive p h = ground arith

run_route-IsExclusive : (p : Process) → IsExclusive p → IsExclusive (run_route p).1
unfolding run_route
run_route-IsExclusive p h = ground arith

at_most_one : (b : Bool) → (if b then 1 else 0) ≤ 1
at_most_one b = ground arith

none_left :
    (p : Process) (t : Trigger) (before after : List Trigger)
    → p.jobs ≡ before ++ t ∷ after
    → IsExclusive p
    → length (before ++ after) ≡ 0
none_left p t before after e h = omega (
  arith,
  length-append before after,
  length-append before (t ∷ after),
  ap length e,
  h,
  at_most_one p.running,
)

-- Whatever the order of the schedule, the requests and the ends of jobs, one process runs at most one
-- notification job at a time, and its flag is set exactly while one runs.
pub one_job : {p : Process} → ProcessRun p → length p.jobs ≡ (if p.running then 1 else 0)
unfolding job_ends
one_job (launched e) = subst IsExclusive (sym e) refl
one_job (on_tick {p} run e) = subst IsExclusive (sym e) (tick-IsExclusive p (one_job run))
one_job (on_request {p} run e) = subst IsExclusive (sym e) (run_route-IsExclusive p (one_job run))
one_job (on_end {p} t before after run e f) =
    subst IsExclusive (sym f) (none_left p t before after e (one_job run))
