-- ===== src/Shared/Http.antt =====
-- The coordinator's call of a service (packages/shared/src/http.ts): one step, with a time limit for
-- each attempt, retries and the key of the step. `fetch` is the platform's.
use order_saga.Prelude.{ℕ, String, Bool, ◌&&◌, List, [], ◌∷◌, ◌++◌, leb, ltb, nat_eq, if◌then◌else◌}
use order_saga.Shared.Types.{
  Step, StepRequestBody, StepResponseBody, codes, step_path, step_name, idempotency_key,
}
use order_saga.Shared.Errors.{http_error, step_timeout, is_abort, is_retryable_error}
use order_saga.Shared.Exec.{Result, err, Exec, throw, catch, ◌>>=◌}
use order_saga.Shared.Retry.{AttemptInfo, Draw, RetryOptions, with_retry}

pub record HttpRequest : Type 0 where
  pub url : List ℕ
  pub idempotency_key : String
  pub body : StepRequestBody
  pub timeout_ms : ℕ

-- `json` is what reading the body as JSON gives, or throws.
pub record HttpResponse : Type 0 where
  pub status : ℕ
  pub json : Result StepResponseBody

-- `baseUrl.replace(/\/$/, '')`
unfoldable pub strip_slash : List ℕ → List ℕ
strip_slash [] = []
strip_slash (c ∷ []) = if nat_eq c b'/' then [] else c ∷ []
strip_slash (c ∷ d ∷ cs) = c ∷ strip_slash (d ∷ cs)

pub record CallStepOptions (S : Type 0) : Type 0 where
  pub base_url : String
  pub step : Step
  pub body : StepRequestBody
  pub timeout_ms : ℕ
  pub max_attempts : ℕ
  pub base_delay_ms : ℕ
  pub max_delay_ms : ℕ
  pub on_attempt : AttemptInfo → Exec S (Unit {0})

-- What the platform does for a call: `fetch`, the timer, `Math.random` and the clock.
pub record Platform (S : Type 0) : Type 0 where
  pub fetch : HttpRequest → Exec S HttpResponse
  pub sleep : ℕ → Exec S (Unit {0})
  pub random : Exec S Draw
  pub now : S → ℕ

abbrev pub is_ok_status : ℕ → Bool
is_ok_status status = leb 200 status && ltb status 300

module _ {S : Type 0} (platform : Platform S) (options : CallStepOptions S) where
  unfoldable pub step_request : HttpRequest
  unfolding strip_slash step_path idempotency_key
  step_request = record {
    url = strip_slash (codes options.base_url) ++ step_path options.step;
    idempotency_key = idempotency_key options.body.order_id options.step;
    body = options.body;
    timeout_ms = options.timeout_ms;
  }

  unfoldable pub timed_fetch : Exec S HttpResponse
  unfolding step_request is_abort
  timed_fetch =
      catch (platform.fetch step_request)
        (λ e. if is_abort e then throw (step_timeout options.timeout_ms) else throw e)

  unfoldable pub read_response : HttpResponse → Exec S StepResponseBody
  read_response r s =
      if is_ok_status r.status
      then (r.json, s)
      else (err (http_error r.status (step_name options.step)), s)

  unfoldable pub fetch_step : ℕ → Exec S StepResponseBody
  unfolding timed_fetch read_response
  fetch_step attempt = timed_fetch >>= read_response

  abbrev pub retry_options : RetryOptions S
  retry_options = record {
    max_attempts = options.max_attempts;
    base_delay_ms = options.base_delay_ms;
    max_delay_ms = options.max_delay_ms;
    is_retryable = is_retryable_error;
    on_attempt = options.on_attempt;
    sleep = platform.sleep;
    random = platform.random;
    now = platform.now;
  }

  unfoldable pub call_step : Exec S StepResponseBody
  unfolding fetch_step
  call_step = with_retry fetch_step retry_options
