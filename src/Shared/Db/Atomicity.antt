-- ===== src/Shared/Db/Atomicity.antt =====
-- Proofs about transactions over all their attempts.
use order_saga.Prelude.{
  ℕ, zero, suc, ◌+◌, ◌≤◌, ◌<◌, ◌≡◌, refl, ◌⊎◌, inl, inr, Bool, true, false, Option, none, some,
  arith, Bool-cases, Option-cases, ltb, ◌&&◌,
}
use order_saga.Shared.Errors.{Thrown}
use order_saga.Shared.Exec.{Result, ok, err, Exec, Ends}
use order_saga.Shared.Db.{
  Connection, transaction_attempt, transaction_next, transaction_loop, with_transaction,
  is_deadlock_error, settle, commit_work,
}

module _ {S A : Type 0} (fn : Exec S A) where
  -- The tables are as before, or as `fn` left them when it returned.
  abbrev Atomic : S → S → Type 0
  Atomic s t = (t ≡ s) ⊎ ((a : A) × (fn s ≡ (ok a, t)))

  -- An attempt that throws leaves the tables as they were, unless it was a commit that was applied.
  abbrev Tried : Connection → S → Thrown → S → Type 0
  Tried c s e t =
      (t ≡ s) ⊎ ((a : A) × (fn s ≡ (ok a, t)) × (c.commit ≡ some e) × (c.commit_applied ≡ true))

  settle-Tried :
      (c : Connection) (s : S) (r : Result A × S)
      → fn s ≡ r
      → Ends (λ a t. fn s ≡ (ok a, t)) (Tried c s) (settle c s r)
  unfolding commit_work
  settle-Tried c s (ok a, t) e = commit (c.commit) (c.commit_applied) refl refl
    where
      commit :
          (o : Option Thrown) (b : Bool)
          → c.commit ≡ o
          → c.commit_applied ≡ b
          → Ends (λ a t. fn s ≡ (ok a, t)) (Tried c s) (commit_work c s a t)
      commit none b p q = rw (p, commit_work) e
      commit (some x) true p q = rw (p, q, commit_work) (inr (a, e, refl, refl))
      commit (some x) false p q = rw (p, q, commit_work) (inl refl)
  settle-Tried c s (err x, t) e = inl refl

  attempt-Tried :
      (c : Connection) (s : S)
      → Ends (λ a t. fn s ≡ (ok a, t)) (Tried c s) (transaction_attempt fn c s)
  unfolding transaction_attempt
  attempt-Tried c s = elim (Option-cases c.begin) [
    | inl e ↦ rw e (settle-Tried c s (fn s) refl)
    | inr (x, e) ↦ rw e (inl refl)
  ]

  module _ (connections : ℕ → Connection)
      (rolled_back : (n : ℕ) (e : Thrown)
        → (connections n).commit ≡ some e
        → (connections n).commit_applied ≡ true
        → is_deadlock_error e ≡ false) where
    next-Atomic :
        (max n : ℕ) (s : S) (again : ℕ → Exec S A) (r : Result A × S)
        → Ends (λ a t. fn s ≡ (ok a, t)) (Tried (connections n) s) r
        → Ends (λ a t. fn s ≡ (ok a, t)) (λ _. Atomic s) (again (n + 1) s)
        → Ends (λ a t. fn s ≡ (ok a, t)) (λ _. Atomic s) (transaction_next max n again r)
    next-Atomic max n s again (ok a, t) h k = h
    next-Atomic max n s again (err e, t) (inl same) k =
        elim (Bool-cases (is_deadlock_error e && ltb n max)) [
          | inl y ↦ rw (y, transaction_next) (rw same k)
          | inr z ↦ rw (z, transaction_next) (inl same)
        ]
    next-Atomic max n s again (err e, t) (inr (a, w, c, d)) k =
        rw (rolled_back n e c d, transaction_next) (inr (a, w))

    loop-Atomic :
        (max fuel n : ℕ) (s : S)
        → Ends
            (λ a t. fn s ≡ (ok a, t))
            (λ _. Atomic s)
            (transaction_loop fn max connections fuel n s)
    unfolding transaction_loop
    loop-Atomic max zero n s = inl refl
    loop-Atomic max (suc fuel) n s = elim (Option-cases (connections n).connect) [
      | inl e ↦
          rw (e, transaction_loop)
            (next-Atomic max n s (transaction_loop fn max connections fuel) _
              (attempt-Tried (connections n) s) (loop-Atomic max fuel (n + 1) s))
      | inr (x, e) ↦ rw (e, transaction_loop) (inl refl)
    ]

    -- If a commit that was applied is never reported as a deadlock, a transaction that returns has
    -- made exactly the changes of one run of `fn` over the tables that it found, and one that
    -- throws has made those or none, however many attempts it took.
    pub with_transaction-Atomic :
        (max : ℕ) (s : S)
        → Ends
            (λ a t. fn s ≡ (ok a, t))
            (λ _ t. (t ≡ s) ⊎ ((a : A) × (fn s ≡ (ok a, t))))
            (with_transaction fn max connections s)
    unfolding with_transaction
    with_transaction-Atomic max s = loop-Atomic max (suc max) 1 s

  next-fuel :
      (max n : ℕ) (again again' : ℕ → Exec S A) (r : Result A × S)
      → (n < max → (s : S) → again (n + 1) s ≡ again' (n + 1) s)
      → transaction_next max n again r ≡ transaction_next max n again' r
  next-fuel max n again again' (ok a, t) h = refl
  next-fuel max n again again' (err e, t) h = elim (Bool-cases (is_deadlock_error e && ltb n max)) [
    | inl y ↦ rw (y, transaction_next) (h (ground arith) t)
    | inr z ↦ rw (z, transaction_next)
  ]

  loop-fuel :
      (connections : ℕ → Connection) (max fuel fuel' n : ℕ) (s : S)
      → 1 ≤ fuel
      → 1 ≤ fuel'
      → max + 1 ≤ n + fuel
      → max + 1 ≤ n + fuel'
      → transaction_loop fn max connections fuel n s ≡ transaction_loop fn max connections fuel' n s
  unfolding transaction_loop
  loop-fuel connections max zero fuel' n s p q h k = absurd (omega arith)
  loop-fuel connections max (suc fuel) zero n s p q h k = absurd (omega arith)
  loop-fuel connections max (suc fuel) (suc fuel') n s p q h k =
      elim (Option-cases (connections n).connect) [
        | inl e ↦
            rw (e, transaction_loop)
              (next-fuel max n (transaction_loop fn max connections fuel)
                (transaction_loop fn max connections fuel')
                (transaction_attempt fn (connections n) s)
                (λ lt t.
                  loop-fuel connections max fuel fuel' (n + 1) t (omega arith) (omega arith)
                    (omega arith) (omega arith)))
        | inr (x, e) ↦ rw (e, transaction_loop)
      ]

  -- The loop of a transaction ends by its own test: with any number of rounds from one more than
  -- the maximum on, it does the same.
  pub with_transaction-ends :
      (connections : ℕ → Connection) (max rounds : ℕ) (s : S)
      → suc max ≤ rounds
      → transaction_loop fn max connections rounds 1 s ≡ with_transaction fn max connections s
  unfolding with_transaction
  with_transaction-ends connections max rounds s h =
      loop-fuel connections max rounds (suc max) 1 s (omega arith) (omega arith) (omega arith)
        (omega arith)
