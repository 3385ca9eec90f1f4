-- ===== src/Shared/Retry/Bounds.antt =====
-- Proofs about the waits and the calls of a retried operation.
use native.Mathlib.Nat.{div-le_of_le-mul, div-lt_iff_lt-mul}
use order_saga.Prelude.{ℕ, zero, suc, ◌+◌, ◌-◌, ◌*◌, ◌/◌, ◌^◌, ◌≤◌, ◌<◌, ◌≡◌, refl, arith}
use order_saga.Shared.Errors.{Thrown}
use order_saga.Shared.Exec.{Exec, Ends-mono, Ends-bind, Ends-of_state, state-of_Ends}
use order_saga.Shared.Retry.{
  Draw, RetryOptions, AttemptInfo, delay_cap, backoff_delay, back_off, attempt_loop, with_retry,
}
use order_saga.Shared.Retry.Rule.{counted-Ends}

div-le : (n c d : ℕ) → n < d → n * c / d ≤ c
div-le n c d h = div-le_of_le-mul d (grind arith)

div-lt : (n c d : ℕ) → n < d → 0 < c → n * c / d < c
div-lt n c d h p = (div-lt_iff_lt-mul {k = d} (omega arith)).1 (grind arith)

-- For a draw below 1, a delay is at most the maximum and at most the doubled base, and less than
-- the smaller of them if that is not zero.
pub backoff_delay_bounds :
    (attempt base max_delay : ℕ) (draw : Draw)
    → draw.numerator < draw.denominator
    → (backoff_delay attempt base max_delay draw ≤ max_delay)
      × (backoff_delay attempt base max_delay draw ≤ base * 2 ^ (attempt - 1))
      × (0 < delay_cap attempt base max_delay
          → backoff_delay attempt base max_delay draw < delay_cap attempt base max_delay)
unfolding backoff_delay
backoff_delay_bounds attempt base max_delay draw h =
    let l = div-le draw.numerator (delay_cap attempt base max_delay) draw.denominator h in
    (
      unfold delay_cap in omega (arith, l),
      unfold delay_cap in omega (arith, l),
      div-lt draw.numerator (delay_cap attempt base max_delay) draw.denominator h,
    )

module _ {S A : Type 0} (fn : ℕ → Exec S A) (options : RetryOptions S) (cost : S → ℕ)
    (calls : (n : ℕ) (s : S) → cost (fn n s).1 ≤ cost s + 1)
    (records : (i : AttemptInfo) (s : S) → cost (options.on_attempt i s).1 ≤ cost s)
    (sleeps : (n : ℕ) (s : S) → cost (options.sleep n s).1 ≤ cost s)
    (draws : (s : S) → cost (options.random s).1 ≤ cost s) where
  back_off-cost : (n : ℕ) (s : S) → cost (back_off fn options n s).1 ≤ cost s
  unfolding back_off
  back_off-cost n s =
      state-of_Ends (λ t. cost t ≤ cost s) _
        (Ends-bind (λ _ t. cost t ≤ cost s) (λ _ t. cost t ≤ cost s) (λ _ t. cost t ≤ cost s)
          (options.random s) _ (Ends-of_state (λ t. cost t ≤ cost s) (options.random s) (draws s))
          (λ d t h.
            Ends-of_state (λ u. cost u ≤ cost s) (options.sleep _ t)
              (omega (
                arith,
                sleeps (backoff_delay n options.base_delay_ms options.max_delay_ms d) t,
                h,
              ))))

  rounds-cost :
      (rounds : ℕ) (e : Thrown) (s : S)
      → rounds ≡ options.max_attempts
      → cost (attempt_loop fn options rounds 1 e s).1 ≤ cost s + options.max_attempts
  rounds-cost zero e s m = unfold attempt_loop in omega arith
  rounds-cost (suc k) e s m =
      state-of_Ends (λ t. cost t ≤ cost s + options.max_attempts) _
        (Ends-mono (λ _ t. (n : ℕ) × (n ≤ options.max_attempts) × (cost t ≤ cost s + n))
          (λ _ t. cost t ≤ cost s + options.max_attempts)
          (λ _ t. (n : ℕ) × (n ≤ options.max_attempts) × (cost t ≤ cost s + n))
          (λ _ t. cost t ≤ cost s + options.max_attempts) _
          (counted-Ends fn options (λ n t. cost t + 1 ≤ cost s + n) (λ n _ t. cost t ≤ cost s + n)
            (λ n t. cost t ≤ cost s + n)
            (λ n t h. Ends-of_state (λ u. cost u ≤ cost s + n) (fn n t) (omega (arith, calls n t)))
            (λ n a i t h.
              Ends-of_state (λ u. cost u ≤ cost s + n) (options.on_attempt i t)
                (omega (arith, records i t)))
            (λ n i t h.
              Ends-of_state (λ u. cost u ≤ cost s + n) (options.on_attempt i t)
                (omega (arith, records i t)))
            (λ n t h.
              Ends-mono (λ _ u. cost u ≤ cost s + n) (λ _ u. cost u + 1 ≤ cost s + (n + 1))
                (λ _ u. cost u ≤ cost s + n) (λ _ u. cost u ≤ cost s + n) _
                (Ends-of_state (λ u. cost u ≤ cost s + n) (back_off fn options n t)
                  (omega (arith, back_off-cost n t)))
                (λ _ u g. omega arith) (λ _ u g. g))
            (suc k) e s m (omega arith) (omega arith))
          (λ a t h. omega (arith, h.1, h.2)) (λ e' t h. omega (arith, h.1, h.2)))

  -- However its rounds end, a retried operation calls `fn` at most `max_attempts` times: a cost
  -- that one call raises by at most one, and nothing else raises, rises by at most that number.
  pub with_retry-calls : (s : S) → cost (with_retry fn options s).1 ≤ cost s + options.max_attempts
  unfolding with_retry
  with_retry-calls s = rounds-cost options.max_attempts _ s refl
