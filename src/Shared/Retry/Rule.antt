-- ===== src/Shared/Retry/Rule.antt =====
-- The proof rule of a retried operation.
use order_saga.Prelude.{ℕ, zero, suc, none, ◌+◌, ◌≤◌, true, arith, ◌≡◌, inl, inr, Bool-cases}
use order_saga.Shared.Exec.{Exec, Ends, Ends-bind, Ends-catch, Ends-mono, state-bind, state-catch}
use order_saga.Shared.Errors.{Thrown, value}
use order_saga.Shared.Retry.{
  AttemptInfo, RetryOptions, try_attempt, report_failure, back_off, will_retry, attempt_loop,
  with_retry,
}

-- `Ready n` holds before round n, `Good n` when its call and its record succeed, and `Failed n`
-- from any throw in the round until the next one begins.
module _ {ℓ} {S A : Type 0} (fn : ℕ → Exec S A) (options : RetryOptions S) (Ready : ℕ → S → Type ℓ)
    (Good : ℕ → A → S → Type ℓ) (Failed : ℕ → S → Type ℓ)
    (calls : (n : ℕ) (s : S) → Ready n s → Ends (Good n) (λ _. Failed n) (fn n s))
    (records : (n : ℕ) (a : A) (i : AttemptInfo) (s : S)
      → Good n a s
      → Ends (λ _. Good n a) (λ _. Failed n) (options.on_attempt i s))
    (reports : (n : ℕ) (i : AttemptInfo) (s : S)
      → Failed n s
      → Ends (λ _. Failed n) (λ _. Failed n) (options.on_attempt i s))
    (waits : (n : ℕ) (s : S)
      → Failed n s
      → Ends (λ _. Ready (n + 1)) (λ _. Failed n) (back_off fn options n s)) where
  try_attempt-Ends :
      (n started : ℕ) (s : S)
      → Ready n s
      → Ends (Good n) (λ _. Failed n) (try_attempt fn options n started s)
  unfolding try_attempt
  try_attempt-Ends n started s h =
      Ends-bind (Good n) (Good n) (λ _. Failed n) (fn n s) _ (calls n s h)
        (λ a t g.
          Ends-bind (λ _. Good n a) (Good n) (λ _. Failed n) (options.on_attempt _ t) _
            (records n a _ t g) (λ _ u g'. g'))

  -- The result comes from some round n, and so does the throw.
  Returned : A → S → Type ℓ
  Returned a s = (n : ℕ) × (n ≤ options.max_attempts) × Good n a s

  ThrownAfter : Thrown → S → Type ℓ
  ThrownAfter e s = (n : ℕ) × (n ≤ options.max_attempts) × Failed n s

  -- One round, given what the next one does if it is reached.
  round-Ends :
      (left n : ℕ) (e : Thrown) (s : S)
      → n ≤ options.max_attempts
      → ((e' : Thrown) (t : S)
          → will_retry fn options n e' ≡ true
          → Ready (n + 1) t
          → Ends Returned ThrownAfter (attempt_loop fn options left (n + 1) e' t))
      → Ready n s
      → Ends Returned ThrownAfter (attempt_loop fn options (suc left) n e s)
  unfolding attempt_loop Returned ThrownAfter
  round-Ends left n e s le next h =
      Ends-catch Returned (λ _. Failed n) ThrownAfter _ _
        (Ends-mono (Good n) Returned (λ _. Failed n) (λ _. Failed n) _
          (try_attempt-Ends n (options.now s) s h) (λ a t g. (n, le, g)) (λ _ t b. b))
        (λ e' t b.
          Ends-bind (λ _. Failed n) Returned ThrownAfter
            (report_failure fn options n (options.now s) e' t) _
            (Ends-mono (λ _. Failed n) (λ _. Failed n) (λ _. Failed n) ThrownAfter _
              (unfold report_failure in reports n _ t b) (λ _ _ g. g) (λ _ _ g. (n, le, g)))
            (λ _ u b'. elim (Bool-cases (will_retry fn options n e')) [
              | inl again ↦ rw again (
                  Ends-bind (λ _. Ready (n + 1)) Returned ThrownAfter (back_off fn options n u) _
                    (Ends-mono (λ _. Ready (n + 1)) (λ _. Ready (n + 1)) (λ _. Failed n) ThrownAfter
                      _ (waits n u b') (λ _ _ g. g) (λ _ _ g. (n, le, g)))
                    (λ _ v r. next e' v again r))
              | inr stop ↦ rw stop (n, le, b')
            ]))

  attempt_loop-Ends :
      (left n : ℕ) (e : Thrown) (s : S)
      → n + left ≡ options.max_attempts
      → Ready n s
      → Ends Returned ThrownAfter (attempt_loop fn options (suc left) n e s)
  attempt_loop-Ends zero n e s m h =
      round-Ends zero n e s (omega arith)
        (λ e' t again r. absurd (unfold will_retry in ground arith)) h
  attempt_loop-Ends (suc left) n e s m h =
      round-Ends (suc left) n e s (omega arith)
        (λ e' t again r. attempt_loop-Ends left (n + 1) e' t (omega arith) r) h

  pub counted-Ends :
      (rounds : ℕ) (e : Thrown) (s : S)
      → rounds ≡ options.max_attempts
      → 1 ≤ rounds
      → Ready 1 s
      → Ends
          (λ a t. (n : ℕ) × (n ≤ options.max_attempts) × Good n a t)
          (λ e' t. (n : ℕ) × (n ≤ options.max_attempts) × Failed n t)
          (attempt_loop fn options rounds 1 e s)
  unfolding Returned ThrownAfter
  counted-Ends zero e s m le h = absurd (omega arith)
  counted-Ends (suc left) e s m le h = attempt_loop-Ends left 1 e s (omega arith) h

-- What the call, the callback, the wait and the draw all keep, the whole keeps.
module _ {ℓ} {S A : Type 0} (fn : ℕ → Exec S A) (options : RetryOptions S) (P : S → Type ℓ)
    (calls : (n : ℕ) (s : S) → P s → P (fn n s).1)
    (records : (i : AttemptInfo) (s : S) → P s → P (options.on_attempt i s).1)
    (sleeps : (n : ℕ) (s : S) → P s → P (options.sleep n s).1)
    (draws : (s : S) → P s → P (options.random s).1) where
  attempt_loop-keeps :
      (left n : ℕ) (e : Thrown) (s : S) → P s → P (attempt_loop fn options left n e s).1
  unfolding attempt_loop try_attempt report_failure back_off
  attempt_loop-keeps zero n e s h = h
  attempt_loop-keeps (suc left) n e s h =
      state-catch P (try_attempt fn options n (options.now s) s) _
        (state-bind P (fn n s) _ (calls n s h)
          (λ a t g. state-bind P (options.on_attempt _ t) _ (records _ t g) (λ _ u g'. g')))
        (λ e' t g.
          state-bind P (report_failure fn options n (options.now s) e' t) _ (records _ t g)
            (λ _ u g'. elim (Bool-cases (will_retry fn options n e')) [
              | inl again ↦ rw again (
                  state-bind P (back_off fn options n u) _
                    (state-bind P (options.random u) _ (draws u g') (λ d v g''. sleeps _ v g''))
                    (λ _ v g''. attempt_loop-keeps left (n + 1) e' v g''))
              | inr stop ↦ rw stop g'
            ]))

  pub with_retry-keeps : (s : S) → P s → P (with_retry fn options s).1
  unfolding with_retry
  with_retry-keeps s h = attempt_loop-keeps options.max_attempts 1 (value none) s h
