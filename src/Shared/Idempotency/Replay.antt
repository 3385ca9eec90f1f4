-- ===== src/Shared/Idempotency/Replay.antt =====
-- Proofs about the cache and the stored responses after one call.
use order_saga.Prelude.{
  ◌≡◌, refl, inl, inr, String, Bool, true, false, Option, some, none, arith, eq_refl, Option-cases,
}
use order_saga.Shared.Types.{Data}
use order_saga.Shared.Errors.{Thrown}
use order_saga.Shared.Exec.{Result, ok, err, Exec, Ends, Ends-mono, continue}
use order_saga.Shared.Cache.{cache_get, idempotency_cache_key}
use order_saga.Shared.Idempotency.{
  Service, IdempotencyContext, IdempotencyOptions, Faults, Claim, ours, replay, claim_key, perform,
  run_idempotent, finish_work, statement, after_claim, mark_completed, claimed,
}
use order_saga.Shared.Idempotency.Outcome.{
  stored_response, status_of_row, claimed-response, ClaimOutcome, claim_key-outcome,
}
use order_saga.Shared.Idempotency.Growth.{
  Grows, IsCacheSound, Grows-refl, Grows-trans, Grows-IsCacheSound, warm-Grows, store-Grows,
  claim_key-Grows, release_claim-Grows,
}

module _ {D : Type 0} (ctx : IdempotencyContext) (options : IdempotencyOptions)
    (faults : Faults) where
  completed-Grows :
      (r : Data) (d : D) (s : Service D)
      → stored_response ctx.key s ≡ none
      → Grows s (mark_completed ctx options faults r (record s { domain = d }))
  completed-Grows r d s h = store-Grows ctx options faults _ d s (λ x e. absurd (cc))

  finish_work-Grows :
      (s : Service D) (w : Result Data × D)
      → status_of_row (s.records ctx.key) ≡ some claimed
      → Grows s (finish_work ctx options faults s w).1
  unfolding finish_work
  finish_work-Grows s (err e, d) h = release_claim-Grows ctx options faults s
  finish_work-Grows s (ok r, d) h =
      committed faults.complete faults.commit faults.commit_applied refl refl refl
    where
      free : stored_response ctx.key s ≡ none
      free = claimed-response (s.records ctx.key) h

      s' : Service D
      s' = mark_completed ctx options faults r (record s { domain = d })

      committed :
          (complete commit : Option Thrown) (applied : Bool)
          → faults.complete ≡ complete
          → faults.commit ≡ commit
          → faults.commit_applied ≡ applied
          → Grows s (finish_work ctx options faults s (ok r, d)).1
      committed (some e) commit applied p q b =
          rw (p, finish_work) (release_claim-Grows ctx options faults s)
      committed none none applied p q b =
          rw (p, q, finish_work)
            (Grows-trans s s' _ (completed-Grows r d s free)
              (warm-Grows ctx options faults r s' (ground (arith, eq_refl ctx.key))))
      committed none (some e) true p q b =
          rw (p, q, b, finish_work)
            (Grows-trans s s' _ (completed-Grows r d s free)
              (release_claim-Grows ctx options faults s'))
      committed none (some e) false p q b =
          rw (p, q, b, finish_work) (release_claim-Grows ctx options faults s)

  perform-Grows :
      (work : Exec D Data) (s : Service D)
      → status_of_row (s.records ctx.key) ≡ some claimed
      → Grows s (perform ctx options faults work s).1
  unfolding perform
  perform-Grows work s h = elim (Option-cases faults.begin) [
    | inl e ↦ rw (e, perform) (finish_work-Grows s (work s.domain) h)
    | inr (x, e) ↦ rw (e, perform) (release_claim-Grows ctx options faults s)
  ]

  after_claim-Grows :
      (work : Exec D Data) (s : Service D) (r : Result Claim × Service D)
      → Grows s r.1
      → Ends (ClaimOutcome ctx options faults s) (λ _ _. Unit {0}) r
      → Grows s (continue (after_claim ctx options faults work) r).1
  after_claim-Grows work s (ok ours, t) g h = Grows-trans s t _ g (perform-Grows work t h.2)
  after_claim-Grows work s (ok (replay d), t) g h = g
  after_claim-Grows work s (err e, t) g h = g

  run_idempotent-Grows :
      (work : Exec D Data) (s : Service D) → Grows s (run_idempotent ctx options faults work s).1
  unfolding run_idempotent
  run_idempotent-Grows work s =
      elim (Option-cases
        (cache_get s.cache s.clock faults.cache_get (idempotency_cache_key ctx.key))) [
          | inr (d, e) ↦ rw (e, run_idempotent) (Grows-refl s)
          | inl e ↦
              rw (e, run_idempotent)
                (elim (Option-cases faults.connect) [
                  | inr (x, p) ↦ rw (p, statement) (Grows-refl s)
                  | inl p ↦
                      rw (p, statement)
                        (after_claim-Grows work s (claim_key ctx options faults s)
                          (claim_key-Grows ctx options faults s)
                          (Ends-mono (ClaimOutcome ctx options faults s)
                            (ClaimOutcome ctx options faults s) _ (λ _ _. Unit {0})
                            (claim_key ctx options faults s)
                            (claim_key-outcome ctx options faults s) (λ _ _ h. h) (λ _ _ _. tt)))
                ])
        ]

  -- If the cache agrees with the records, a call, whatever fails during it, keeps that so and
  -- loses no stored response of any key.
  pub run_idempotent-IsCacheSound :
      (work : Exec D Data) (s : Service D)
      → IsCacheSound s
      → IsCacheSound (run_idempotent ctx options faults work s).1
        × ((key : String) (d : Data)
            → stored_response key s ≡ some d
            → stored_response key (run_idempotent ctx options faults work s).1 ≡ some d)
  run_idempotent-IsCacheSound work s h =
      (Grows-IsCacheSound s _ (run_idempotent-Grows work s) h, (run_idempotent-Grows work s).keeps)
