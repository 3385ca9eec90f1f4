-- ===== src/Shared/Idempotency/Growth.antt =====
-- Lemmas about one call and all records and cache entries.
use order_saga.Prelude.{
  ℕ, ◌≡◌, refl, ◌∙◌, ◌⊎◌, inl, inr, String, Bool, false, Option, some, none, arith, store, eq_iff,
  Option-cases, Bool-cases, if◌then◌else◌,
}
use order_saga.Shared.Types.{Data}
use order_saga.Shared.Exec.{Result, ok, err, handle, pure, throw, ◌>>◌}
use order_saga.Shared.Cache.{
  Cache, cache_get, cache_set, idempotency_cache_key, idempotency_cache_key_inj,
}
use order_saga.Shared.Db.{is_duplicate_key_error}
use order_saga.Shared.Idempotency.{
  Service, IdempotencyRecord, RecordStatus, claimed, completed, IdempotencyContext,
  IdempotencyOptions, Faults, Claim, ours, claim_key, warm_cache, release_claim, insert_record,
  take_over, take_over_or_wait, resolve_status, resolve_duplicate, statement, matches, changed,
  is_stale, is_claimed,
}
use order_saga.Shared.Idempotency.Outcome.{stored_response, response_of_row}

-- Whatever the cache answers is the stored response of its key.
pub record IsCacheSound {D : Type 0} (s : Service D) : Type 0 where
  pub hits :
      (key : String) (d : Data)
      → cache_get s.cache s.clock false (idempotency_cache_key key) ≡ some d
      → stored_response key s ≡ some d

-- No response is lost, and the cache is as it was or has one more stored response.
pub record Grows {D : Type 0} (s t : Service D) : Type 0 where
  pub keeps :
      (key : String) (d : Data) → stored_response key s ≡ some d → stored_response key t ≡ some d
  pub clock : t.clock ≡ s.clock
  pub cached :
      (key : String) (d : Data)
      → cache_get t.cache t.clock false (idempotency_cache_key key) ≡ some d
      → (stored_response key t ≡ some d)
        ⊎ (cache_get s.cache s.clock false (idempotency_cache_key key) ≡ some d)

cache_get-cache_set :
    (c : Cache) (now : ℕ) (broken : Bool) (key k : String) (d x : Data) (ttl : ℕ)
    → cache_get
        (cache_set c now broken (idempotency_cache_key key) d ttl)
        now
        false
        (idempotency_cache_key k)
      ≡ some x
    → ((k ≡ key) × (x ≡ d)) ⊎ (cache_get c now false (idempotency_cache_key k) ≡ some x)
unfolding cache_get cache_set
cache_get-cache_set c now broken key k d x ttl h = ground (
  arith,
  eq_iff (idempotency_cache_key key) (idempotency_cache_key k),
  idempotency_cache_key_inj key k,
)

module _ {D : Type 0} where
  pub Grows-refl : (s : Service D) → Grows s s
  Grows-refl s = record { keeps = λ k d h. h; clock = refl; cached = λ k d h. inr h }

  pub Grows-trans : (s t u : Service D) → Grows s t → Grows t u → Grows s u
  Grows-trans s t u g h = record {
    keeps = λ k d x. h.keeps k d (g.keeps k d x);
    clock = h.clock ∙ g.clock;
    cached = λ k d x. elim (h.cached k d x) [
      | inl y ↦ inl y
      | inr y ↦ elim (g.cached k d y) [ inl z ↦ inl (h.keeps k d z) | inr z ↦ inr z ]
    ];
  }

  pub Grows-IsCacheSound : (s t : Service D) → Grows s t → IsCacheSound s → IsCacheSound t
  Grows-IsCacheSound s t g h = record {
    hits = λ k d x. elim (g.cached k d x) [ inl y ↦ y | inr y ↦ g.keeps k d (h.hits k d y) ];
  }

module _ {D : Type 0} (ctx : IdempotencyContext) (options : IdempotencyOptions)
    (faults : Faults) where
  pub warm-Grows :
      (d : Data) (s : Service D)
      → stored_response ctx.key s ≡ some d
      → Grows s (warm_cache ctx options faults d s)
  warm-Grows d s h = record {
    keeps = λ k x e. e;
    clock = refl;
    cached = λ k x e.
        elim (cache_get-cache_set s.cache s.clock faults.cache_set ctx.key k d x _ e) [
          | inl (p, q) ↦ inl (rw (p, q) h)
          | inr y ↦ inr y
        ];
  }

  pub store-Grows :
      (row : Option IdempotencyRecord) (domain : D) (s : Service D)
      → ((d : Data) → stored_response ctx.key s ≡ some d → response_of_row row ≡ some d)
      → Grows s (record s { records = store ctx.key row s.records; domain = domain })
  store-Grows row domain s h = record {
    keeps = λ k d e. ground (arith, eq_iff k ctx.key, h d);
    clock = refl;
    cached = λ k d e. inr e;
  }

  take_over_or_wait-Grows : (s : Service D) → Grows s (take_over_or_wait ctx options faults s).1
  unfolding take_over_or_wait
  take_over_or_wait-Grows s = elim (Option-cases faults.takeover) [
    | inr (x, e) ↦ rw (e, statement) (Grows-refl s)
    | inl e ↦
        rw (e, statement)
          (elim (Bool-cases (matches (is_stale options s.clock) (s.records ctx.key))) [
            | inl y ↦ rw (y, take_over) (store-Grows _ s.domain s (taken s))
            | inr n ↦ rw (n, take_over) (Grows-refl s)
          ])
  ]
    where
      taken :
          (s : Service D) (d : Data)
          → stored_response ctx.key s ≡ some d
          → response_of_row (changed (λ r. record r { created_at = s.clock }) (s.records ctx.key))
            ≡ some d
      taken s d h = ground arith

  resolve_status-Grows :
      (row : Option IdempotencyRecord) (s : Service D)
      → s.records ctx.key ≡ row
      → Grows s (resolve_status ctx options faults row s).1
  unfolding resolve_status
  resolve_status-Grows none s e = take_over_or_wait-Grows s
  resolve_status-Grows (some r) s e = by_status r.status refl
    where
      by_status :
          (st : RecordStatus)
          → r.status ≡ st
          → Grows s (resolve_status ctx options faults (some r) s).1
      by_status claimed p = rw (p, resolve_status) (take_over_or_wait-Grows s)
      by_status (completed d) p = rw (p, resolve_status) (warm-Grows d s (rw (e, p) refl))

  resolve_duplicate-Grows : (s : Service D) → Grows s (resolve_duplicate ctx options faults s).1
  unfolding resolve_duplicate
  resolve_duplicate-Grows s = elim (Option-cases faults.read) [
    | inl e ↦ rw (e, statement) (resolve_status-Grows (s.records ctx.key) s refl)
    | inr (x, e) ↦ rw (e, statement) (Grows-refl s)
  ]

  handle_insertion-Grows :
      (s : Service D) (r : Result Claim × Service D)
      → Grows s r.1
      → Grows s
          (handle
            (λ e.
              if is_duplicate_key_error e then resolve_duplicate ctx options faults else throw e)
            r).1
  handle_insertion-Grows s (ok c, t) g = g
  handle_insertion-Grows s (err e, t) g = elim (Bool-cases (is_duplicate_key_error e)) [
    | inl y ↦ rw y (Grows-trans s t _ g (resolve_duplicate-Grows t))
    | inr n ↦ rw n g
  ]

  insertion-Grows :
      (s : Service D)
      → Grows s ((statement faults.insert (insert_record ctx options faults) >> pure ours) s).1
  unfolding insert_record
  insertion-Grows s = elim (Option-cases faults.insert) [
    | inr (x, e) ↦ rw (e, statement) (Grows-refl s)
    | inl e ↦
        rw (e, statement)
          (elim (Option-cases (s.records ctx.key)) [
            | inl free ↦ rw (free, insert_record) (store-Grows _ s.domain s (λ d h. absurd (cc)))
            | inr (r, taken) ↦ rw (taken, insert_record) (Grows-refl s)
          ])
  ]

  pub claim_key-Grows : (s : Service D) → Grows s (claim_key ctx options faults s).1
  unfolding claim_key
  claim_key-Grows s =
      handle_insertion-Grows s
        ((statement faults.insert (insert_record ctx options faults) >> pure ours) s)
        (insertion-Grows s)

  pub release_claim-Grows : (s : Service D) → Grows s (release_claim ctx options faults s)
  unfolding release_claim
  release_claim-Grows s = elim (Option-cases faults.release) [
    | inr (x, e) ↦ rw (e, release_claim) (Grows-refl s)
    | inl e ↦
        rw (e, release_claim)
          (elim (Bool-cases (matches (λ r. is_claimed r.status) (s.records ctx.key))) [
            | inl y ↦ rw y (store-Grows none s.domain s (λ d h. absurd (ground arith)))
            | inr n ↦ rw n (Grows-refl s)
          ])
  ]
