-- ===== src/Examples/Interleaved.antt =====
-- Interleavings at concrete values: calls of one operation, a saga's steps, and the worker.
use order_saga.Prelude.{
  ℕ, ◌≡◌, refl, inl, inr, true, false, none, some, List, [], ◌∷◌, map, nat_eq, Bool-cases, IsUnique,
  store,
}
use order_saga.Shared.Types.{
  Data, flag, forward, forward_steps, step_eq, ForwardStep, in_progress, placed, cancelled,
  succeeded,
}
use order_saga.Shared.Exec.{ok}
use order_saga.Shared.Errors.{driver_error}
use order_saga.Shared.Idempotency.{
  Service, IdempotentResult, default_options, no_faults, insert_record, mark_completed, new_record,
  stale_seconds,
}
use order_saga.Shared.Cache.{cache_get}
use order_saga.Shared.Db.{is_duplicate_key_error}
use order_saga.Shared.Idempotency.Outcome.{stored_response}
use order_saga.Shared.Idempotency.Growth.{IsCacheSound}
use order_saga.Shared.Idempotency.Retries.{IsOneRun}
use order_saga.Shared.Idempotency.Together.{
  CallPhase, begun, inserting, checking, working, warming, answered, Calls, move_call, IsInTime,
  AllInTime, Interleave, at_first, turn, miss, insert, duplicate, commit, read_completed,
}
use order_saga.Shared.Idempotency.Together.Row.{has_claim}
use order_saga.Shared.Idempotency.Together.Once.{calls_together-at_most_once}
use order_saga.Coordinator.Saga.Undoing.{IsUndone}
use order_saga.Shared.Http.{call_step}
use order_saga.Shared.Retry.{with_retry}
use order_saga.Coordinator.Saga.Turns.{Group, Reach}
use order_saga.Coordinator.Saga.Turns.Orders.{IsSettled, Runs, places, ForwardPhase}
use order_saga.Coordinator.Saga.Turns.Verdicts.{Runs-told}
use order_saga.Coordinator.Saga.Turns.Together.{run_concurrently-Reach}
use order_saga.Coordinator.Repository.{init_steps, get_step_statuses}
use order_saga.Coordinator.Saga.{World, StepOutcome, run_concurrently}
use order_saga.Examples.Values.{
  charge_key, count_up, fresh, held_row, db_of, order_1, instance_a, quiet,
}

fresh-IsCacheSound : IsCacheSound fresh
unfolding cache_get
fresh-IsCacheSound = record { hits = λ k d h. absurd (cc) }

abbrev TwoCalls : Type 0
TwoCalls = Calls charge_key default_options count_up

-- Call `n` moves.
abbrev after : ℕ → Service ℕ → CallPhase → TwoCalls → TwoCalls
after n s p c = record {
  service = s;
  phase = move_call charge_key default_options count_up n p c.phase;
}

in_time :
    (n : ℕ) (s : Service ℕ) (p : CallPhase) (c : TwoCalls)
    → ((m : ℕ) → IsInTime charge_key default_options count_up s.clock (c.phase m))
    → IsInTime charge_key default_options count_up s.clock p
    → AllInTime charge_key default_options count_up (after n s p c)
in_time n s p c old new m = elim (Bool-cases (nat_eq m n)) [
  | inl same ↦ rw same new
  | inr other ↦ rw other (old m)
]

abbrev calls_0 : TwoCalls
calls_0 = record { service = fresh; phase = λ _. begun }

abbrev response : Data
response = ("done", flag true) ∷ []

abbrev claimed_once : Service ℕ
claimed_once = record fresh {
  records = store charge_key.key (some (new_record charge_key 100)) fresh.records;
}

abbrev done_once : Service ℕ
done_once =
    mark_completed charge_key default_options no_faults response
      (record claimed_once { domain = 1 })

-- Both miss the cache, the first inserts, the second meets it, the first commits, the second reads.
abbrev calls_2 : TwoCalls
calls_2 = after 1 fresh inserting (after 0 fresh inserting calls_0)

abbrev calls_3 : TwoCalls
calls_3 = after 0 claimed_once (working 100) calls_2

abbrev calls_4 : TwoCalls
calls_4 = after 1 claimed_once checking calls_3

abbrev calls_5 : TwoCalls
calls_5 = after 0 done_once (warming (record { result = response; replayed = false })) calls_4

abbrev calls_6 : TwoCalls
calls_6 = after 1 done_once (warming (record { result = response; replayed = true })) calls_5

in_time_1 : AllInTime charge_key default_options count_up (after 0 fresh inserting calls_0)
in_time_1 = in_time 0 fresh inserting calls_0 (λ m. tt) tt

in_time_2 : AllInTime charge_key default_options count_up calls_2
in_time_2 = in_time 1 fresh inserting (after 0 fresh inserting calls_0) in_time_1 tt

in_time_3 : AllInTime charge_key default_options count_up calls_3
unfolding stale_seconds
in_time_3 = in_time 0 claimed_once (working 100) calls_2 in_time_2 refl

in_time_4 : AllInTime charge_key default_options count_up calls_4
in_time_4 = in_time 1 claimed_once checking calls_3 in_time_3 tt

in_time_5 : AllInTime charge_key default_options count_up calls_5
in_time_5 =
    in_time 0 done_once (warming (record { result = response; replayed = false })) calls_4 in_time_4
      tt

two_calls :
    Interleave charge_key default_options count_up
      (AllInTime charge_key default_options count_up)
      fresh
      calls_6
unfolding insert_record is_duplicate_key_error
two_calls =
    turn 1
      (turn 0
        (turn 1
          (turn 0
            (turn 1 (turn 0 (at_first refl) (λ m. tt) (miss refl) refl) in_time_1 (miss refl) refl)
            in_time_2 (insert no_faults refl refl) refl)
          in_time_3
          (duplicate no_faults (driver_error "Duplicate entry" "ER_DUP_ENTRY" 1062) refl refl) refl)
        in_time_4 (commit no_faults response 1 refl refl refl) refl)
      in_time_5 (read_completed response refl refl refl) refl

calls_together-at_most_once_example :
    IsOneRun charge_key default_options count_up fresh done_once
    × ((n : ℕ) (r : IdempotentResult)
        → calls_6.phase n ≡ answered (ok r)
        → stored_response charge_key.key done_once ≡ some r.result)
    × ((n m : ℕ)
        → stored_response charge_key.key done_once ≡ none
        → has_claim (calls_6.phase n) ≡ true
        → has_claim (calls_6.phase m) ≡ true
        → n ≡ m)
calls_together-at_most_once_example =
    calls_together-at_most_once charge_key default_options count_up fresh {c = calls_6}
      fresh-IsCacheSound two_calls

-- The forward phase of an armed order on services that answer 200.
abbrev armed : World ℕ
armed = record quiet {
  db = record (db_of (held_row ∷ [])) {
    steps = init_steps "o-1" (map forward forward_steps) (λ _ _. none);
  };
}

abbrev forward_run : List StepOutcome × World ℕ
forward_run =
    run_concurrently (instance_a 200) (order_1 in_progress) (map forward forward_steps) false armed

forward-IsUnique : IsUnique step_eq (map forward forward_steps)
forward-IsUnique = ((refl, (refl, (refl, tt))), ((refl, (refl, tt)), ((refl, tt), (tt, tt))))

run_concurrently-Reach_example :
    (g : Group) × Reach "o-1" (map forward forward_steps) armed.db g
    × (g.db ≡ forward_run.1.db)
    × IsSettled (map forward forward_steps) g.phase forward_run.0
run_concurrently-Reach_example =
    run_concurrently-Reach (instance_a 200) (order_1 in_progress) (map forward forward_steps) false
      armed forward-IsUnique

-- One of the interleavings of the forward phase, which succeeds.
forward_group :
    (g : Group) × Reach "o-1" (map forward forward_steps) armed.db g
    × (g.db ≡ forward_run.1.db)
    × IsSettled (map forward forward_steps) g.phase forward_run.0
forward_group =
    run_concurrently-Reach (instance_a 200) (order_1 in_progress) (map forward forward_steps) false
      armed forward-IsUnique

forward_phase : ForwardPhase "o-1" (db_of (held_row ∷ [])) forward_group.0 forward_run.0
unfolding init_steps get_step_statuses
forward_phase = record {
  armed = armed.db;
  arming = refl;
  reach = forward_group.1;
  settled = forward_group.3;
}

placed_run : Runs "o-1" in_progress (db_of (held_row ∷ [])) placed forward_group.0.db
unfolding run_concurrently call_step with_retry
placed_run = places forward_group.0 forward_run.0 (λ e. absurd (cc)) forward_phase refl refl refl

Runs-told_example :
    (placed ≡ placed
      → (f : ForwardStep)
      → get_step_statuses "o-1" forward_group.0.db.steps (forward f) ≡ some succeeded)
    × (placed ≡ cancelled → IsUndone "o-1" forward_group.0.db.steps)
Runs-told_example = Runs-told "o-1" placed_run
