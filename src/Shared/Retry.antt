-- ===== src/Shared/Retry.antt =====
-- Retry with exponential backoff and full jitter (packages/shared/src/retry.ts).
pub mod Bounds
pub mod Rule
use order_saga.Prelude.{
  ℕ, zero, suc, ◌+◌, ◌-◌, ◌*◌, ◌/◌, ◌^◌, min, Bool, true, false, ◌&&◌, Option, none, some, ltb,
  if◌then◌else◌,
}
use order_saga.Shared.Types.{AttemptOutcome, outcome_succeeded, outcome_failed, outcome_timeout}
use order_saga.Shared.Errors.{Thrown, step_timeout, value, is_abort}
use order_saga.Shared.Exec.{Result, ok, err, Exec, throw, pure, catch, gets, ◌>>=◌, ◌>>◌}

pub record AttemptInfo : Type 0 where
  pub attempt : ℕ
  pub started_at : ℕ
  pub finished_at : ℕ
  pub duration_ms : ℕ
  pub outcome : AttemptOutcome
  pub error : Option Thrown
  pub will_retry : Bool

-- A number that `random` returns: the fraction `numerator / denominator` of [0, 1).
pub record Draw : Type 0 where
  pub numerator : ℕ
  pub denominator : ℕ

-- `now` is the clock that `new Date()` reads.
pub record RetryOptions (S : Type 0) : Type 0 where
  pub max_attempts : ℕ
  pub base_delay_ms : ℕ
  pub max_delay_ms : ℕ
  pub is_retryable : Thrown → Bool
  pub on_attempt : AttemptInfo → Exec S (Unit {0})
  pub sleep : ℕ → Exec S (Unit {0})
  pub random : Exec S Draw
  pub now : S → ℕ

unfoldable pub delay_cap : ℕ → ℕ → ℕ → ℕ
delay_cap attempt base_delay_ms max_delay_ms = min max_delay_ms (base_delay_ms * 2 ^ (attempt - 1))

unfoldable pub backoff_delay : ℕ → ℕ → ℕ → Draw → ℕ
unfolding delay_cap
backoff_delay attempt base_delay_ms max_delay_ms draw =
    draw.numerator * delay_cap attempt base_delay_ms max_delay_ms / draw.denominator

unfoldable pub attempt_outcome : Thrown → AttemptOutcome
unfolding is_abort
attempt_outcome (step_timeout _) = outcome_timeout
attempt_outcome e = if is_abort e then outcome_timeout else outcome_failed

module _ {S : Type 0} {A : Type 0} (fn : ℕ → Exec S A) (options : RetryOptions S) where
  -- The `try` block of one round: the call, then the record of its success.
  unfoldable pub try_attempt : ℕ → ℕ → Exec S A
  try_attempt attempt started = do
    result ← fn attempt
    finished ← gets options.now
    options.on_attempt (record {
      attempt = attempt;
      started_at = started;
      finished_at = finished;
      duration_ms = finished - started;
      outcome = outcome_succeeded;
      error = none;
      will_retry = false;
    })
    pure result

  unfoldable pub will_retry : ℕ → Thrown → Bool
  will_retry attempt e = ltb attempt options.max_attempts && options.is_retryable e

  -- The record of a failed round.
  unfoldable pub report_failure : ℕ → ℕ → Thrown → Exec S (Unit {0})
  unfolding will_retry attempt_outcome
  report_failure attempt started e = do
    finished ← gets options.now
    options.on_attempt (record {
      attempt = attempt;
      started_at = started;
      finished_at = finished;
      duration_ms = finished - started;
      outcome = attempt_outcome e;
      error = some e;
      will_retry = will_retry attempt e;
    })

  unfoldable pub back_off : ℕ → Exec S (Unit {0})
  unfolding backoff_delay
  back_off attempt = do
    draw ← options.random
    options.sleep (backoff_delay attempt options.base_delay_ms options.max_delay_ms draw)

  -- The `for` loop with the rounds that are left, and `lastError`.
  unfoldable pub attempt_loop : ℕ → ℕ → Thrown → Exec S A
  unfolding try_attempt report_failure back_off will_retry
  attempt_loop zero attempt last_error s = throw last_error s
  attempt_loop (suc left) attempt last_error s =
      catch (try_attempt attempt (options.now s))
        (λ e. do
          report_failure attempt (options.now s) e
          elim (will_retry attempt e) [
            | true ↦ back_off attempt >> attempt_loop left (attempt + 1) e
            | false ↦ throw e
          ])
        s

  -- `lastError` is undefined before the first round.
  unfoldable pub with_retry : Exec S A
  unfolding attempt_loop
  with_retry = attempt_loop options.max_attempts 1 (value none)
