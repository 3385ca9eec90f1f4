-- ===== src/Shared/Errors.antt =====
-- Error values and which of them are worth a retry (packages/shared/src/errors.ts, and the classes
-- of packages/shared/src/service.ts).
pub mod Classes
use order_saga.Prelude.{
  ℕ, String, Bool, true, false, ◌||◌, Option, none, some, List, [], ◌∷◌, any, leb, nat_eq, ◌==◌,
  if◌then◌else◌,
}
use order_saga.Shared.Types.{Step}

-- A thrown value. `plain` is an `Error` of no class of the program, with its `name`, `message`,
-- `code` if that is a text, `errno`, and the `code` of its `cause`; `value` is no `Error`.
pub data Thrown : Type 0 where
  http_error : ℕ → String → Thrown
  step_timeout : ℕ → Thrown
  operation_in_progress : String → Thrown
  injected_failure : Step → Thrown
  business_rule : String → Thrown
  plain : String → String → Option String → Option ℕ → Option (Option String) → Thrown
  value : Option String → Thrown

-- A failure of the database driver: an `Error` with a code and a number.
abbrev pub driver_error : String → String → ℕ → Thrown
driver_error message code errno = plain "Error" message (some code) (some errno) none

abbrev pub retryable_network_codes : List String
retryable_network_codes =
    "ECONNREFUSED" ∷ "ECONNRESET" ∷ "ETIMEDOUT" ∷ "EPIPE" ∷ "EAI_AGAIN" ∷ "UND_ERR_SOCKET"
    ∷ "UND_ERR_CONNECT_TIMEOUT" ∷ []

-- The test `code && RETRYABLE_NETWORK_CODES.has(code)`.
unfoldable pub is_retryable_code : Option String → Bool
is_retryable_code none = false
is_retryable_code (some code) = any (λ c. c == code) retryable_network_codes

-- The code one level down; an absent `cause` has none.
abbrev pub cause_code : Option (Option String) → Option String
cause_code none = none
cause_code (some code) = code

-- `TimeoutError` and `AbortError`, the names of an aborted `fetch`.
unfoldable pub is_abort : Thrown → Bool
is_abort (plain name _ _ _ _) = name == "TimeoutError" || name == "AbortError"
is_abort _ = false

unfoldable pub is_retryable_status : ℕ → Bool
is_retryable_status status = leb 500 status || nat_eq status 429 || nat_eq status 409

unfoldable pub is_retryable_error : Thrown → Bool
unfolding is_retryable_code is_abort is_retryable_status
is_retryable_error (step_timeout _) = true
is_retryable_error (operation_in_progress _) = true
is_retryable_error (http_error status _) = is_retryable_status status
is_retryable_error (plain name message code errno cause) =
    is_abort (plain name message code errno cause)
    || is_retryable_code code
    || is_retryable_code (cause_code cause)
is_retryable_error (value code) = is_retryable_code code
is_retryable_error (injected_failure _) = false
is_retryable_error (business_rule _) = false
