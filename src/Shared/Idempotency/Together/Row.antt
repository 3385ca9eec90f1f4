-- ===== src/Shared/Idempotency/Together/Row.antt =====
-- Lemmas about one turn of a call and the record of its key.
use order_saga.Prelude.{
  ℕ, ◌+◌, ◌*◌, ◌≡◌, refl, ◌⊎◌, inl, inr, Bool, true, false, Option, none, some, arith, ltb,
}
use order_saga.Shared.Types.{Data}
use order_saga.Shared.Exec.{ok, Exec}
use order_saga.Shared.Idempotency.{
  Service, IdempotencyRecord, RecordStatus, claimed, completed, IdempotencyContext,
  IdempotencyOptions, stale_seconds, is_stale, is_claimed, matches, changed,
}
use order_saga.Shared.Idempotency.Outcome.{response_of_row}
use order_saga.Shared.Idempotency.Growth.{IsCacheSound}
use order_saga.Shared.Idempotency.Retries.{IsOneRun}
use order_saga.Shared.Idempotency.Together.{
  CallPhase, begun, inserting, checking, waiting, working, failing, warming, answered, crashed,
  IsInTime,
}

-- The call has the claim.
abbrev pub has_claim : CallPhase → Bool
has_claim (working t) = true
has_claim (failing t e) = true
has_claim _ = false

abbrev pub IsClaimedAt : ℕ → Option IdempotencyRecord → Type 0
IsClaimedAt t row =
    (r : IdempotencyRecord) × (row ≡ some r) × (r.status ≡ claimed) × (r.created_at ≡ t)

-- What the record is while a call stands where it does.
abbrev pub Fits : Option IdempotencyRecord → CallPhase → Type 0
Fits row (working t) = IsClaimedAt t row
Fits row (failing t e) = IsClaimedAt t row ⊎ ((d : Data) × (response_of_row row ≡ some d))
Fits row (warming r) = response_of_row row ≡ some r.result
Fits row (answered (ok r)) = response_of_row row ≡ some r.result
Fits row _ = Unit {0}

module _ {D : Type 0} (ctx : IdempotencyContext) (options : IdempotencyOptions)
    (work : Exec D Data) where
  -- No call that fits the record and is in time has the claim.
  abbrev pub IsOpen : ℕ → Option IdempotencyRecord → Type 0
  IsOpen now row =
      (q : CallPhase) → Fits row q → IsInTime ctx options work now q → has_claim q ≡ false

  -- A turn leaves the record alone, or changes one without a response that no other call has claimed.
  abbrev pub Effect :
      ℕ → Option IdempotencyRecord → CallPhase → Option IdempotencyRecord → CallPhase → Type 0
  Effect now row p row' p' =
      ((row' ≡ row) × Fits row p' × (has_claim p' ≡ true → has_claim p ≡ true))
      ⊎ ((response_of_row row ≡ none) × Fits row' p' × ((has_claim p ≡ true) ⊎ IsOpen now row))

  -- What one turn does.
  abbrev pub Done : Service D → CallPhase → Service D → CallPhase → Type 0
  Done s p s' p' =
      Effect s.clock (s.records ctx.key) p (s'.records ctx.key) p'
      × IsOneRun ctx options work s s'
      × IsCacheSound s'

  -- No call has a claim on a record that is not there, or that is stale.
  pub missing-Open : (now : ℕ) (row : Option IdempotencyRecord) → row ≡ none → IsOpen now row
  missing-Open now row e (working t) (r, there, free, since) on_time = absurd (cc (e, there))
  missing-Open now row e (failing t x) (inl (r, there, free, since)) on_time =
      absurd (cc (e, there))
  missing-Open now row e (failing t x) (inr (d, stored)) on_time =
      absurd (no_response row e d stored)
    where
      no_response :
          (row : Option IdempotencyRecord)
          → row ≡ none
          → (d : Data) → response_of_row row ≡ some d
          → ⊥
      no_response none e d stored = absurd (cc)
      no_response (some r) e d stored = absurd (cc)
  missing-Open now row e begun fits on_time = refl
  missing-Open now row e inserting fits on_time = refl
  missing-Open now row e checking fits on_time = refl
  missing-Open now row e waiting fits on_time = refl
  missing-Open now row e (warming r) fits on_time = refl
  missing-Open now row e (answered r) fits on_time = refl
  missing-Open now row e crashed fits on_time = refl

  claim_expired :
      (now t : ℕ) (row : Option IdempotencyRecord)
      → matches (is_stale options now) row ≡ true
      → IsClaimedAt t row
      → ltb (t + stale_seconds options * 1000) now ≡ true
  unfolding is_stale
  claim_expired now t none e (r, there, free, since) = absurd (cc)
  claim_expired now t (some x) e (r, there, free, since) = ground (arith)

  pub stale-free :
      (now : ℕ) (row : Option IdempotencyRecord)
      → matches (is_stale options now) row ≡ true
      → response_of_row row ≡ none
  unfolding is_stale
  stale-free now none e = refl
  stale-free now (some r) e = ground (arith)

  pub renewed :
      (now : ℕ) (row : Option IdempotencyRecord)
      → matches (is_stale options now) row ≡ true
      → IsClaimedAt now (changed (λ r. record r { created_at = now }) row)
  unfolding is_stale
  renewed now none e = absurd (cc)
  renewed now (some r) e =
      (record r { created_at = now }, refl, claimed_status r.status (ground arith), refl)
    where
      claimed_status : (st : RecordStatus) → is_claimed st ≡ true → st ≡ claimed
      claimed_status claimed h = refl
      claimed_status (completed d) h = absurd (cc)

  pub renewed-free :
      (now : ℕ) (row : Option IdempotencyRecord)
      → matches (is_stale options now) row ≡ true
      → response_of_row (changed (λ r. record r { created_at = now }) row) ≡ none
  renewed-free now none e = refl
  renewed-free now (some r) e = stale-free now (some r) e

  pub stale-Open :
      (now : ℕ) (row : Option IdempotencyRecord)
      → matches (is_stale options now) row ≡ true
      → IsOpen now row
  stale-Open now row e (working t) fits on_time =
      absurd (cc (claim_expired now t row e fits, on_time))
  stale-Open now row e (failing t x) (inl fits) on_time =
      absurd (cc (claim_expired now t row e fits, on_time))
  stale-Open now row e (failing t x) (inr (d, stored)) on_time =
      absurd (cc (stale-free now row e, stored))
  stale-Open now row e begun fits on_time = refl
  stale-Open now row e inserting fits on_time = refl
  stale-Open now row e checking fits on_time = refl
  stale-Open now row e waiting fits on_time = refl
  stale-Open now row e (warming r) fits on_time = refl
  stale-Open now row e (answered r) fits on_time = refl
  stale-Open now row e crashed fits on_time = refl

  pub claimed_at-free :
      (t : ℕ) (row : Option IdempotencyRecord) → IsClaimedAt t row → response_of_row row ≡ none
  claimed_at-free t row (r, there, free, since) = rw (there, free) refl

  pub completed_response :
      (t now : ℕ) (d : Data) (row : Option IdempotencyRecord)
      → IsClaimedAt t row
      → response_of_row
          (changed (λ r. record r { status = completed d; completed_at = some now }) row)
        ≡ some d
  completed_response t now d row (r, there, free, since) = rw there refl
