-- ===== src/Shared/Idempotency/Retries.antt =====
-- Proofs about calls of one operation, one after another.
use order_saga.Prelude.{
  ℕ, ◌+◌, ◌≡◌, refl, sym, subst, ◌∙◌, ◌⊎◌, inl, inr, String, Bool, false, Option, some, none, arith,
  List, [], ◌∷◌,
}
use order_saga.Shared.Types.{Data}
use order_saga.Shared.Exec.{Result, ok, err, Exec, Ends}
use order_saga.Shared.Cache.{Cache, cache_get, idempotency_cache_key}
use order_saga.Shared.Idempotency.{
  Service, IdempotencyContext, IdempotencyOptions, IdempotentResult, Faults, run_idempotent,
}
use order_saga.Shared.Idempotency.Outcome.{
  stored_response, run_idempotent-outcome, CallDone, CallFailed,
}
use order_saga.Shared.Idempotency.Growth.{IsCacheSound}
use order_saga.Shared.Idempotency.Replay.{run_idempotent-IsCacheSound}

abbrev pub advance : {D : Type 0} → ℕ → Service D → Service D
advance ms s = record s { clock = s.clock + ms }

live-earlier :
    (c : Cache) (now ms : ℕ) (key : String) (d : Data)
    → cache_get c (now + ms) false key ≡ some d
    → cache_get c now false key ≡ some d
unfolding cache_get
live-earlier c now ms key d h = ground arith

pub broken-hit :
    (c : Cache) (now : ℕ) (broken : Bool) (key : String) (d : Data)
    → cache_get c now broken key ≡ some d
    → cache_get c now false key ≡ some d
unfolding cache_get
broken-hit c now broken key d h = ground arith

pub advance-IsCacheSound :
    {D : Type 0} (ms : ℕ) (s : Service D) → IsCacheSound s → IsCacheSound (advance ms s)
advance-IsCacheSound ms s h = record {
  hits = λ k d e. h.hits k d (live-earlier s.cache s.clock ms (idempotency_cache_key k) d e);
}

module _ {D : Type 0} (ctx : IdempotencyContext) (options : IdempotencyOptions)
    (work : Exec D Data) where
  -- The same operation again and again: what fails during each call, and the wait before it.
  pub retry_calls : List (Faults × ℕ) → Service D → Service D
  retry_calls [] s = s
  retry_calls ((faults, ms) ∷ calls) s =
      retry_calls calls (run_idempotent ctx options faults work (advance ms s)).1

  -- The service's tables and the stored response are as they were, or no response was stored, the
  -- tables are what one run of the work made of them, and its response is stored.
  abbrev pub IsOneRun : Service D → Service D → Type 0
  IsOneRun s t =
      ((t.domain ≡ s.domain) × (stored_response ctx.key t ≡ stored_response ctx.key s))
      ⊎ ((stored_response ctx.key s ≡ none)
          × ((r : Data) × (work s.domain ≡ (ok r, t.domain))
              × (stored_response ctx.key t ≡ some r)))

  pub IsOneRun-trans : (s t u : Service D) → IsOneRun s t → IsOneRun t u → IsOneRun s u
  IsOneRun-trans s t u (inl same) (inl rest) = inl (rest.0 ∙ same.0, rest.1 ∙ same.1)
  IsOneRun-trans s t u (inl same) (inr (free, done)) = inr (
    sym same.1 ∙ free,
    (done.0, subst (λ d. work d ≡ (ok done.0, u.domain)) same.0 done.1, done.2),
  )
  IsOneRun-trans s t u (inr (free, done)) (inl rest) = inr (
    free,
    (done.0, subst (λ d. work s.domain ≡ (ok done.0, d)) (sym rest.0) done.1, rest.1 ∙ done.2),
  )
  IsOneRun-trans s t u (inr (free, done)) (inr (free', rest)) =
      absurd (stored_once (stored_response ctx.key t) free' done.0 done.2)
    where
      stored_once : (x : Option Data) → x ≡ none → (d : Data) → x ≡ some d → ⊥
      stored_once x p d q = absurd (cc)

  outcome-IsOneRun :
      (faults : Faults) (s : Service D) (r : Result IdempotentResult × Service D)
      → Ends (CallDone ctx options faults work s) (CallFailed ctx options faults work s) r
      → IsOneRun s r.1
  outcome-IsOneRun faults s (ok r, t) (inl h) = inl (h.1, h.3 ∙ sym h.2)
  outcome-IsOneRun faults s (ok r, t) (inr h) = inr (h.1, (r.result, h.2, h.3))
  outcome-IsOneRun faults s (err e, t) h = h

  pub call-IsOneRun :
      (faults : Faults) (s : Service D)
      → IsCacheSound s
      → IsOneRun s (run_idempotent ctx options faults work s).1
  call-IsOneRun faults s h = outcome-IsOneRun faults s _ (
      run_idempotent-outcome ctx options faults work s (λ d e.
        h.hits ctx.key d
          (broken-hit s.cache s.clock faults.cache_get (idempotency_cache_key ctx.key) d e)))

  -- If the cache agrees with the records at the start, then after any number of calls with one
  -- key, each with whatever failures and after whatever wait, either the service's tables and the
  -- stored response are as they were, or no response was stored at the start, the tables are what
  -- one run of the work made of them, and its response is stored.
  pub retry_calls-at_most_once :
      (calls : List (Faults × ℕ)) (s : Service D)
      → IsCacheSound s
      → let t = retry_calls calls s in
        ((t.domain ≡ s.domain) × (stored_response ctx.key t ≡ stored_response ctx.key s))
        ⊎ ((stored_response ctx.key s ≡ none)
            × ((r : Data) × (work s.domain ≡ (ok r, t.domain))
                × (stored_response ctx.key t ≡ some r)))
  unfolding retry_calls
  retry_calls-at_most_once [] s h = inl (refl, refl)
  retry_calls-at_most_once ((faults, ms) ∷ calls) s h =
      let h' = advance-IsCacheSound ms s h in
      let next = (run_idempotent ctx options faults work (advance ms s)).1 in
      IsOneRun-trans s next (retry_calls calls next) (call-IsOneRun faults (advance ms s) h') (
        retry_calls-at_most_once calls next
          (run_idempotent-IsCacheSound ctx options faults work (advance ms s) h').0)
