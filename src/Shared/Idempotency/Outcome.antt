-- ===== src/Shared/Idempotency/Outcome.antt =====
-- Lemmas about one call: its result, the service's tables and the record of its key.
use order_saga.Prelude.{
  ◌≡◌, refl, sym, subst, ◌∙◌, ◌⊎◌, inl, inr, String, true, false, Option, some, none, arith,
  eq_refl, Option-cases, Bool-cases, if◌then◌else◌,
}
use order_saga.Shared.Types.{Data}
use order_saga.Shared.Errors.{Thrown}
use order_saga.Shared.Exec.{
  Result, ok, err, Exec, Ends, Ends-catch, Ends-mono, continue, pure, throw, ◌>>◌, ◌>>=◌,
}
use order_saga.Shared.Cache.{cache_get, idempotency_cache_key}
use order_saga.Shared.Db.{is_duplicate_key_error}
use order_saga.Shared.Idempotency.{
  Service, IdempotencyRecord, RecordStatus, claimed, completed, IdempotencyContext,
  IdempotencyOptions, IdempotentResult, Faults, Claim, ours, replay, claim_key, perform,
  run_idempotent, finish_work, release_claim, insert_record, take_over_or_wait, resolve_status,
  resolve_duplicate, statement, after_claim,
}

-- The stored response of a key.
abbrev pub response_of_row : Option IdempotencyRecord → Option Data
response_of_row none = none
response_of_row (some r) = elim r.status [ claimed ↦ none | completed d ↦ some d ]

abbrev pub status_of_row : Option IdempotencyRecord → Option RecordStatus
status_of_row none = none
status_of_row (some r) = some r.status

abbrev pub stored_response : {D : Type 0} → String → Service D → Option Data
stored_response key s = response_of_row (s.records key)

pub claimed-response :
    (row : Option IdempotencyRecord) → status_of_row row ≡ some claimed → response_of_row row ≡ none
claimed-response none h = refl
claimed-response (some r) h = ground arith

module _ {D : Type 0} (ctx : IdempotencyContext) (options : IdempotencyOptions)
    (faults : Faults) where
  -- What phase 1 has found, and that it leaves the service's tables and every response alone.
  abbrev pub ClaimOutcome : Service D → Claim → Service D → Type 0
  ClaimOutcome s ours t =
      (t.domain ≡ s.domain)
      × (stored_response ctx.key s ≡ none)
      × (status_of_row (t.records ctx.key) ≡ some claimed)
  ClaimOutcome s (replay d) t =
      (t.domain ≡ s.domain)
      × (stored_response ctx.key s ≡ some d)
      × (stored_response ctx.key t ≡ some d)

  abbrev pub Unchanged : Service D → Service D → Type 0
  Unchanged s t = (t.domain ≡ s.domain) × (stored_response ctx.key t ≡ stored_response ctx.key s)

  take_over_or_wait-outcome :
      (s : Service D)
      → stored_response ctx.key s ≡ none
      → Ends (ClaimOutcome s) (λ _. Unchanged s) (take_over_or_wait ctx options faults s)
  unfolding take_over_or_wait
  take_over_or_wait-outcome s h = ground (arith, eq_refl ctx.key)

  resolve_status-outcome :
      (s : Service D) (row : Option IdempotencyRecord)
      → s.records ctx.key ≡ row
      → Ends (ClaimOutcome s) (λ _. Unchanged s) (resolve_status ctx options faults row s)
  unfolding resolve_status
  resolve_status-outcome s none e = take_over_or_wait-outcome s (rw e refl)
  resolve_status-outcome s (some r) e = by_status r.status refl
    where
      by_status :
          (st : RecordStatus)
          → r.status ≡ st
          → Ends (ClaimOutcome s) (λ _. Unchanged s) (resolve_status ctx options faults (some r) s)
      by_status claimed p = rw (p, resolve_status) (take_over_or_wait-outcome s (rw (e, p) refl))
      by_status (completed d) p = rw (p, resolve_status) (refl, rw (e, p) refl, rw (e, p) refl)

  resolve_duplicate-outcome :
      (s : Service D)
      → Ends (ClaimOutcome s) (λ _. Unchanged s) (resolve_duplicate ctx options faults s)
  unfolding resolve_duplicate
  resolve_duplicate-outcome s = elim (Option-cases faults.read) [
    | inl e ↦ rw (e, statement) (resolve_status-outcome s (s.records ctx.key) refl)
    | inr (x, e) ↦ rw (e, statement) (refl, refl)
  ]

  duplicate-outcome :
      (e : Thrown) (s : Service D)
      → Ends
          (ClaimOutcome s)
          (λ _. Unchanged s)
          ((if is_duplicate_key_error e then resolve_duplicate ctx options faults else throw e) s)
  duplicate-outcome e s = elim (Bool-cases (is_duplicate_key_error e)) [
    | inl d ↦ rw d (resolve_duplicate-outcome s)
    | inr n ↦ rw n (refl, refl)
  ]

  insertion-outcome :
      (s : Service D)
      → Ends
          (ClaimOutcome s)
          (λ _ t. t ≡ s)
          ((statement faults.insert (insert_record ctx options faults) >> pure ours) s)
  unfolding insert_record
  insertion-outcome s = ground (arith, eq_refl ctx.key)

  -- Phase 1 leaves the service's tables alone. It hands out the key only while no response is
  -- stored, and replays only the stored response.
  pub claim_key-outcome :
      (s : Service D) → Ends (ClaimOutcome s) (λ _. Unchanged s) (claim_key ctx options faults s)
  unfolding claim_key
  claim_key-outcome s =
      Ends-catch (ClaimOutcome s) (λ _ t. t ≡ s) (λ _. Unchanged s) _ _ (insertion-outcome s)
        (λ e t same. rw same (duplicate-outcome e s))

  -- The tables and the record after a call whose key was ours.
  abbrev pub Performed : Exec D Data → Service D → Service D → Type 0
  Performed work s t =
      (r : Data) × (work s.domain ≡ (ok r, t.domain)) × (stored_response ctx.key t ≡ some r)

  Done : Exec D Data → Service D → IdempotentResult → Service D → Type 0
  Done work s r t =
      (r.replayed ≡ false)
      × (work s.domain ≡ (ok r.result, t.domain))
      × (stored_response ctx.key t ≡ some r.result)

  Undone : Exec D Data → Service D → Thrown → Service D → Type 0
  Undone work s e t = Unchanged s t ⊎ Performed work s t

  finish_work-outcome :
      (work : Exec D Data) (s : Service D) (w : Result Data × D)
      → work s.domain ≡ w
      → status_of_row (s.records ctx.key) ≡ some claimed
      → Ends (Done work s) (Undone work s) (finish_work ctx options faults s w)
  unfolding finish_work Done Undone
  finish_work-outcome work s (err e, d) p h = ground (arith, eq_refl ctx.key)
  finish_work-outcome work s (ok r, d) p h = ground (arith, eq_refl ctx.key)

  perform-outcome :
      (work : Exec D Data) (s : Service D)
      → status_of_row (s.records ctx.key) ≡ some claimed
      → Ends (Done work s) (Undone work s) (perform ctx options faults work s)
  unfolding perform Done Undone
  perform-outcome work s h = elim (Option-cases faults.begin) [
    | inl e ↦ rw (e, perform) (finish_work-outcome work s (work s.domain) refl h)
    | inr (x, e) ↦ rw (e, perform) (unfold Undone release_claim in ground (arith, eq_refl ctx.key))
  ]

  -- A call that returns has replayed the stored response, or has done the work and stored its
  -- response; one that throws has done neither, or both although its commit was reported lost.
  abbrev pub CallDone : Exec D Data → Service D → IdempotentResult → Service D → Type 0
  CallDone work s r t =
      ((r.replayed ≡ true)
        × (t.domain ≡ s.domain)
        × (stored_response ctx.key s ≡ some r.result)
        × (stored_response ctx.key t ≡ some r.result))
      ⊎ ((r.replayed ≡ false)
          × (stored_response ctx.key s ≡ none)
          × (work s.domain ≡ (ok r.result, t.domain))
          × (stored_response ctx.key t ≡ some r.result))

  abbrev pub CallFailed : Exec D Data → Service D → Thrown → Service D → Type 0
  CallFailed work s e t = Unchanged s t ⊎ ((stored_response ctx.key s ≡ none) × Performed work s t)

  failed-after_claim :
      (work : Exec D Data) (s t : Service D) (e : Thrown) (u : Service D)
      → ClaimOutcome s ours t
      → Undone work t e u
      → CallFailed work s e u
  unfolding Undone
  failed-after_claim work s t e u h (inl g) =
      inl (g.0 ∙ h.0, g.1 ∙ claimed-response (t.records ctx.key) h.2 ∙ sym h.1)
  failed-after_claim work s t e u h (inr g) =
      inr (h.1, (g.0, subst (λ d. work d ≡ (ok g.0, u.domain)) h.0 g.1, g.2))

  after_claim-outcome :
      (work : Exec D Data) (s : Service D) (r : Result Claim × Service D)
      → Ends (ClaimOutcome s) (λ _. Unchanged s) r
      → Ends
          (CallDone work s)
          (CallFailed work s)
          (continue (after_claim ctx options faults work) r)
  unfolding Done
  after_claim-outcome work s (ok ours, t) h =
      Ends-mono (Done work t) (CallDone work s) (Undone work t) (CallFailed work s) _
        (perform-outcome work t h.2)
        (λ r u g. inr (g.0, h.1, subst (λ d. work d ≡ (ok r.result, u.domain)) h.0 g.1, g.2))
        (λ e u g. failed-after_claim work s t e u h g)
  after_claim-outcome work s (ok (replay d), t) h = inl (refl, h.0, h.1, h.2)
  after_claim-outcome work s (err e, t) h = inl h

  -- A cache hit is the stored response.
  abbrev pub HitIsStored : Service D → Type 0
  HitIsStored s =
      (d : Data)
      → cache_get s.cache s.clock faults.cache_get (idempotency_cache_key ctx.key) ≡ some d
      → stored_response ctx.key s ≡ some d

  -- Whatever fails during a call: if it returns, it has replayed the stored response and left the
  -- service's tables alone, or no response was stored, and it has done the work once and stored
  -- its response; if it throws, tables and response are as before, or the work was done and its
  -- response stored, both, by a commit that was reported lost.
  pub run_idempotent-outcome :
      (work : Exec D Data) (s : Service D)
      → HitIsStored s
      → Ends (CallDone work s) (CallFailed work s) (run_idempotent ctx options faults work s)
  unfolding run_idempotent
  run_idempotent-outcome work s sound =
      by_hit (cache_get s.cache s.clock faults.cache_get (idempotency_cache_key ctx.key)) refl
    where
      by_hit :
          (o : Option Data)
          → cache_get s.cache s.clock faults.cache_get (idempotency_cache_key ctx.key) ≡ o
          → Ends (CallDone work s) (CallFailed work s) (run_idempotent ctx options faults work s)
      by_hit (some d) e = rw (e, run_idempotent) (inl (refl, refl, sound d e, sound d e))
      by_hit none e = rw (e, run_idempotent) (connected faults.connect refl)
        where
          connected :
              (c : Option Thrown)
              → faults.connect ≡ c
              → Ends (CallDone work s) (CallFailed work s) (
                  statement faults.connect
                    (claim_key ctx options faults >>= after_claim ctx options faults work)
                    s)
          connected none p = rw (p, statement) (after_claim-outcome work s _ (claim_key-outcome s))
          connected (some x) p = rw (p, statement) (inl (refl, refl))
