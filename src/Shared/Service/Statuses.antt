-- ===== src/Shared/Service/Statuses.antt =====
-- Proofs about the statuses that a service answers with and the coordinator's retry test.
use order_saga.Prelude.{◌≡◌, refl, ◌↔◌, String, false}
use order_saga.Shared.Errors.{Thrown, business_rule, http_error, is_retryable_error}
use order_saga.Shared.Service.{error_middleware}

-- Of the statuses that the middleware sends for a thrown value, the coordinator does not retry
-- exactly the one of a business-rule error.
pub middleware_retry :
    (e : Thrown) (text : String)
    → (is_retryable_error (http_error (error_middleware e).status text) ≡ false)
      ↔ ((m : String) × (e ≡ business_rule m))
unfolding is_retryable_error error_middleware
middleware_retry (business_rule m) text = (λ h. (m, refl), λ h. refl)
middleware_retry e text = (λ h. absurd (cc), λ h. absurd (cc (h.1)))
