-- ===== src/Shared/Db.antt =====
-- Transactions and the driver's errors (packages/shared/src/db.ts).
pub mod Atomicity
use order_saga.Prelude.{
  ℕ, zero, suc, ◌+◌, String, Bool, true, false, ◌||◌, ◌&&◌, Option, none, some, ltb, nat_eq, ◌==◌,
  if◌then◌else◌,
}
use order_saga.Shared.Errors.{Thrown, plain, value}
use order_saga.Shared.Exec.{Result, ok, err, Exec}

-- `e.errno === n`, and `e.code === c`.
abbrev pub has_errno : ℕ → Thrown → Bool
has_errno n (plain _ _ _ (some errno) _) = nat_eq errno n
has_errno n _ = false

abbrev pub has_code : String → Thrown → Bool
has_code c (plain _ _ (some code) _ _) = code == c
has_code c (value (some code)) = code == c
has_code c _ = false

unfoldable pub is_duplicate_key_error : Thrown → Bool
is_duplicate_key_error e = has_errno 1062 e || has_code "ER_DUP_ENTRY" e

unfoldable pub is_deadlock_error : Thrown → Bool
is_deadlock_error e =
    has_errno 1213 e
    || has_errno 1205 e
    || has_code "ER_LOCK_DEADLOCK" e
    || has_code "ER_LOCK_WAIT_TIMEOUT" e

-- What the connection does on one attempt, beside the statements of `fn`: `connect`, `begin` and
-- `commit` fail with an error or do not. A commit that fails may have been applied all the same.
pub record Connection : Type 0 where
  pub connect : Option Thrown
  pub begin : Option Thrown
  pub commit : Option Thrown
  pub commit_applied : Bool

-- A commit of `s'` over the tables `s`. A rollback that fails is ignored by the code, and the
-- server discards the transaction with the connection.
unfoldable pub commit_work : {S A : Type 0} → Connection → S → A → S → Result A × S
commit_work c s a s' = elim c.commit [
  | none ↦ (ok a, s')
  | some e ↦ (err e, if c.commit_applied then s' else s)
]

abbrev pub settle : {S A : Type 0} → Connection → S → Result A × S → Result A × S
settle c s (ok a, s') = commit_work c s a s'
settle c s (err e, s') = (err e, s)

-- One turn of the loop of `withTransaction`.
unfoldable pub transaction_attempt : {S A : Type 0} → Exec S A → Connection → Exec S A
unfolding commit_work
transaction_attempt fn c s = elim c.begin [ some e ↦ (err e, s) | none ↦ settle c s (fn s) ]

-- The loop: attempt n uses `connections n`. An attempt that meets a deadlock is repeated while n is
-- below the maximum; a failure to connect leaves the loop at once.
abbrev pub transaction_next : {S A : Type 0} → ℕ → ℕ → (ℕ → Exec S A) → Result A × S → Result A × S
transaction_next max_retries n again (ok a, s) = (ok a, s)
transaction_next max_retries n again (err e, s) = elim (is_deadlock_error e && ltb n max_retries) [
  | true ↦ again (n + 1) s
  | false ↦ (err e, s)
]

unfoldable pub transaction_loop :
    {S A : Type 0} → Exec S A → ℕ → (ℕ → Connection) → ℕ → ℕ → Exec S A
unfolding transaction_attempt is_deadlock_error
transaction_loop fn max_retries connections zero n s = (err (value none), s)
transaction_loop fn max_retries connections (suc fuel) n s = elim (connections n).connect [
  | some e ↦ (err e, s)
  | none ↦
      transaction_next max_retries n (transaction_loop fn max_retries connections fuel)
        (transaction_attempt fn (connections n) s)
]

-- The loop ends by its own test before the fuel does: see `Atomicity`.
unfoldable pub with_transaction : {S A : Type 0} → Exec S A → ℕ → (ℕ → Connection) → Exec S A
unfolding transaction_loop
with_transaction fn max_deadlock_retries connections =
    transaction_loop fn max_deadlock_retries connections (suc max_deadlock_retries) 1
