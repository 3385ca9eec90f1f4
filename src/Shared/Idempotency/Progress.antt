-- ===== src/Shared/Idempotency/Progress.antt =====
-- Proofs about one call of `runIdempotent`: a first call, work that throws, and a key that another
-- call holds.
use order_saga.Prelude.{
  ℕ, ◌+◌, ◌*◌, ◌≤◌, ◌<◌, ◌≡◌, ◌≢◌, ◌∙◌, refl, Bool, true, false, Option, some, none, arith, eq_refl,
  Option-cases, Bool-cases, if◌then◌else◌, inl, inr,
}
use order_saga.Shared.Types.{Data}
use order_saga.Shared.Errors.{Thrown, operation_in_progress}
use order_saga.Shared.Db.{is_duplicate_key_error}
use order_saga.Shared.Exec.{
  ok, err, Exec, Result, Ends, Ends-catch, Ends-mono, Ends-then, ◌>>◌, pure, throw,
}
use order_saga.Shared.Cache.{cache_get, idempotency_cache_key}
use order_saga.Shared.Idempotency.{
  Service, IdempotencyRecord, claimed, IdempotencyContext, IdempotencyOptions, IdempotentResult,
  Claim, Faults, no_faults, new_record, run_idempotent, stale_seconds, claim_key, take_over_or_wait,
  resolve_duplicate, insert_record, statement, after_claim, ours,
}
use order_saga.Shared.Idempotency.Outcome.{
  stored_response, CallDone, CallFailed, run_idempotent-outcome,
}

module _ {D : Type 0} (ctx : IdempotencyContext) (options : IdempotencyOptions) (work : Exec D Data)
    (s : Service D)
    (miss : cache_get s.cache s.clock false (idempotency_cache_key ctx.key) ≡ none) where
  -- When the answer is not cached, the key has no record and nothing fails beside the code, a call
  -- does the work, answers with its result as not replayed, and leaves the service's tables as the
  -- work did.
  pub first_call :
      (r : Data) (d : D)
      → s.records ctx.key ≡ none
      → work s.domain ≡ (ok r, d)
      → let call = run_idempotent ctx options no_faults work s in
        (call.0 ≡ ok (record { result = r; replayed = false })) × (call.1.domain ≡ d)
  unfolding run_idempotent
  first_call r d free w = ground (arith, eq_refl ctx.key)

  -- A look-up that fails is a miss too.
  miss_always :
      (broken : Bool) → cache_get s.cache s.clock broken (idempotency_cache_key ctx.key) ≡ none
  unfolding cache_get
  miss_always false = miss
  miss_always true = ground arith

  -- Phase 1 on a key that another claim holds.
  Refused : {A : Type 0} → Result A × Service D → Type 0
  Refused r = Ends (λ _ _. ⊥) (λ _ t. t ≡ s) r

  statement-Refused :
      {A : Type 0} (c : Option Thrown) (m : Exec (Service D) A)
      → Refused (m s)
      → Refused (statement c m s)
  unfolding Refused
  statement-Refused none m h = h
  statement-Refused (some x) m h = refl

  module _ (row : IdempotencyRecord) (faults : Faults) (held : s.records ctx.key ≡ some row)
      (open_ : row.status ≡ claimed)
      (le : s.clock ≤ row.created_at + stale_seconds options * 1000) where
    wait-Refused : Refused (take_over_or_wait ctx options faults s)
    unfolding take_over_or_wait Refused
    wait-Refused = ground arith

    resolve-Refused : Refused (resolve_duplicate ctx options faults s)
    unfolding resolve_duplicate Refused
    resolve-Refused = elim (Option-cases faults.read) [
      | inl e ↦ rw (e, statement, held, open_) wait-Refused
      | inr (x, e) ↦ rw (e, statement) refl
    ]

    insertion-Refused :
        Refused ((statement faults.insert (insert_record ctx options faults) >> pure ours) s)
    unfolding insert_record Refused
    insertion-Refused = ground arith

    duplicate-Refused :
        (e : Thrown)
        → Refused
            ((if is_duplicate_key_error e then resolve_duplicate ctx options faults else throw e) s)
    unfolding Refused
    duplicate-Refused e = elim (Bool-cases (is_duplicate_key_error e)) [
      | inl d ↦ rw d resolve-Refused
      | inr n ↦ rw n refl
    ]

    claim_key-Refused : Refused (claim_key ctx options faults s)
    unfolding claim_key Refused
    claim_key-Refused =
        Ends-catch {A = Claim} (λ _ _. ⊥) (λ _ t. t ≡ s) (λ _ t. t ≡ s) _ _ insertion-Refused
          (λ e t same. rw same (duplicate-Refused e))

    call-Refused : Refused (run_idempotent ctx options faults work s)
    unfolding run_idempotent Refused
    call-Refused =
        rw (miss_always faults.cache_get, run_idempotent)
          (statement-Refused faults.connect _ (
            Ends-then {B = IdempotentResult} (λ _ _. ⊥) (λ _ _. ⊥) (λ _ t. t ≡ s)
              (claim_key ctx options faults) (after_claim ctx options faults work) s
              claim_key-Refused (λ a t h. absurd h)))

  refused : {A : Type 0} (r : Result A × Service D) → Refused r → (e : Thrown) × (r ≡ (err e, s))
  unfolding Refused
  refused (ok a, t) h = absurd h
  refused (err e, t) h = (e, rw h refl)

  -- A call whose work throws.
  work_fails :
      (e : Thrown) (d : D) (faults : Faults)
      → s.records ctx.key ≡ none
      → work s.domain ≡ (err e, d)
      → Ends
          (λ _ _. ⊥)
          (λ _ t. (t.domain ≡ s.domain) × (stored_response ctx.key t ≡ none))
          (run_idempotent ctx options faults work s)
  work_fails e d faults free w =
      Ends-mono (CallDone ctx options faults work s) _ (CallFailed ctx options faults work s) _ _
        (run_idempotent-outcome ctx options faults work s
          (λ r h. absurd (ground (arith, miss_always faults.cache_get, h))))
        (λ r t h. ground (arith, free, w, h)) (λ x t h. not_performed t x h)
    where
      not_performed :
          (t : Service D) (x : Thrown)
          → CallFailed ctx options faults work s x t
          → (t.domain ≡ s.domain) × (stored_response ctx.key t ≡ none)
      not_performed t x (inl g) = (g.0, g.1 ∙ rw free refl)
      not_performed t x (inr g) = absurd (ground (arith, w, g.1.1))

  -- When the answer is not cached, the key has no record and the work throws: whatever else fails,
  -- the call throws, the service's tables are as before and no response is stored. If nothing else
  -- fails, it throws the work's error and the key has no record again; if only the release of the
  -- claim fails, it throws the work's error too and the key keeps the claim of this call.
  pub failed_work :
      (e release : Thrown) (d : D) (faults : Faults)
      → s.records ctx.key ≡ none
      → work s.domain ≡ (err e, d)
      → let call = run_idempotent ctx options faults work s in
        let quiet = run_idempotent ctx options no_faults work s in
        let kept =
          run_idempotent ctx options (record no_faults { release = some release }) work s in
        ((r : IdempotentResult) → call.0 ≢ ok r)
        × (call.1.domain ≡ s.domain)
        × (stored_response ctx.key call.1 ≡ none)
        × (quiet.0 ≡ err e)
        × (quiet.1.records ctx.key ≡ none)
        × (kept.0 ≡ err e)
        × (kept.1.records ctx.key ≡ some (new_record ctx s.clock))
  unfolding run_idempotent
  failed_work e release d faults free w =
      let general =
        fails_as (run_idempotent ctx options faults work s) (work_fails e d faults free w) in
      (
        general.0,
        general.1,
        general.2,
        ground (arith, eq_refl ctx.key),
        ground (arith, eq_refl ctx.key),
        ground (arith, eq_refl ctx.key),
        ground (arith, eq_refl ctx.key),
      )
    where
      fails_as :
          (c : Result IdempotentResult × Service D)
          → Ends (λ _ _. ⊥) (λ _ t. (t.domain ≡ s.domain) × (stored_response ctx.key t ≡ none)) c
          → ((r : IdempotentResult) → c.0 ≢ ok r)
            × (c.1.domain ≡ s.domain)
            × (stored_response ctx.key c.1 ≡ none)
      fails_as (ok r, t) h = absurd h
      fails_as (err x, t) h = (λ r p. absurd (cc), h.0, h.1)

  -- When the answer is not cached and another call's claim holds the key. Until that claim is stale
  -- a call throws and changes nothing, whatever fails; if nothing fails, it throws that the operation
  -- is in progress. A call after that time, if its answer is not cached and nothing fails beside the
  -- code, does work that succeeds, answers with its result as not replayed and leaves the service's
  -- tables as the work did.
  pub held_key :
      (row : IdempotencyRecord) (faults : Faults) (later : ℕ) (r : Data) (d : D)
      → s.records ctx.key ≡ some row
      → row.status ≡ claimed
      → s.clock ≤ row.created_at + stale_seconds options * 1000
      → row.created_at + stale_seconds options * 1000 < later
      → cache_get s.cache later false (idempotency_cache_key ctx.key) ≡ none
      → work s.domain ≡ (ok r, d)
      → let after = run_idempotent ctx options no_faults work (record s { clock = later }) in
        ((e : Thrown) × (run_idempotent ctx options faults work s ≡ (err e, s)))
        × (run_idempotent ctx options no_faults work s ≡ (err (operation_in_progress ctx.key), s))
        × (after.0 ≡ ok (record { result = r; replayed = false }))
        × (after.1.domain ≡ d)
  unfolding run_idempotent
  held_key row faults later r d held open_ le lt miss_later w = (
    refused _ (call-Refused row faults held open_ le),
    ground (arith, eq_refl ctx.key),
    ground (arith, eq_refl ctx.key),
    ground (arith, eq_refl ctx.key),
  )
