-- ===== src/Shared/Errors/Classes.antt =====
-- Lemmas about the classification of HTTP statuses and of network failures.
use order_saga.Prelude.{ℕ, ◌≤◌, ◌≡◌, ◌↔◌, ◌⊎◌, String, true, some, none, arith}
use order_saga.Shared.Errors.{http_error, plain, is_retryable_error, is_retryable_code}

-- An HTTP error is retried exactly when its status is at least 500, or is 429 or 409.
pub retryable_status_iff :
    (status : ℕ) (message : String)
    → (is_retryable_error (http_error status message) ≡ true)
      ↔ ((500 ≤ status) ⊎ (status ≡ 429) ⊎ (status ≡ 409))
unfolding is_retryable_error
retryable_status_iff status message = ground arith

-- A network failure that `fetch` hides in `cause` is retried like the bare one.
pub retryable_cause :
    (name message : String) (code : String)
    → is_retryable_code (some code) ≡ true
    → is_retryable_error (plain name message none none (some (some code))) ≡ true
unfolding is_retryable_error
retryable_cause name message code h = ground arith
