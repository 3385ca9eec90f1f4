-- ===== src/Shared/Idempotency/Together/Once.antt =====
-- Proofs about the calls of one operation, interleaved in any order.
use order_saga.Prelude.{
  ℕ, ◌≡◌, refl, sym, subst, ◌∙◌, ap, ◌⊎◌, inl, inr, true, false, Option, none, some, nat_eq,
  nat_eq_iff, Bool-cases, if◌then◌else◌,
}
use order_saga.Shared.Types.{Data}
use order_saga.Shared.Exec.{ok, err, Exec}
use order_saga.Shared.Idempotency.{
  Service, IdempotencyRecord, IdempotencyContext, IdempotencyOptions, IdempotentResult,
}
use order_saga.Shared.Idempotency.Outcome.{stored_response, response_of_row}
use order_saga.Shared.Idempotency.Growth.{IsCacheSound}
use order_saga.Shared.Idempotency.Retries.{IsOneRun, IsOneRun-trans, advance-IsCacheSound}
use order_saga.Shared.Idempotency.Together.{
  CallPhase, begun, inserting, checking, waiting, working, failing, warming, answered, crashed,
  CallTurn, Calls, move_call, AllInTime, Interleave, at_first, turn, time,
}
use order_saga.Shared.Idempotency.Together.Row.{has_claim, Fits, IsOpen, Effect}
use order_saga.Shared.Idempotency.Together.Moves.{Turn-Done}

-- The record that a call may replace has no response and fits no other phase with a claim.
free_Fits :
    (row row' : Option IdempotencyRecord) (p : CallPhase)
    → response_of_row row ≡ none
    → has_claim p ≡ false
    → Fits row p
    → Fits row' p
free_Fits row row' begun free without fits = tt
free_Fits row row' inserting free without fits = tt
free_Fits row row' checking free without fits = tt
free_Fits row row' waiting free without fits = tt
free_Fits row row' (working t) free without fits = absurd (cc)
free_Fits row row' (failing t e) free without fits = absurd (cc)
free_Fits row row' (warming r) free without fits = absurd (cc)
free_Fits row row' (answered (ok r)) free without fits = absurd (cc)
free_Fits row row' (answered (err e)) free without fits = tt
free_Fits row row' crashed free without fits = tt

module _ {D : Type 0} (ctx : IdempotencyContext) (options : IdempotencyOptions) (work : Exec D Data)
    (s0 : Service D) where
  -- Every call fits the record, and at most one has a claim on a record without a response.
  record Inv (c : Calls ctx options work) : Type 0 where
    pub fits : (n : ℕ) → Fits (c.service.records ctx.key) (c.phase n)
    pub one :
        (n m : ℕ)
        → response_of_row (c.service.records ctx.key) ≡ none
        → has_claim (c.phase n) ≡ true
        → has_claim (c.phase m) ≡ true
        → n ≡ m
    pub once : IsOneRun ctx options work s0 c.service
    pub sound : IsCacheSound c.service

  -- While a call replaces the record, no other one has a claim.
  others :
      (c : Calls ctx options work) (n m : ℕ)
      → Inv c
      → AllInTime ctx options work c
      → response_of_row (c.service.records ctx.key) ≡ none
      → ((has_claim (c.phase n) ≡ true)
          ⊎ IsOpen ctx options work c.service.clock (c.service.records ctx.key))
      → nat_eq m n ≡ false
      → has_claim (c.phase m) ≡ false
  others c n m inv on_time free (inl mine) other = elim (Bool-cases (has_claim (c.phase m))) [
    | inl too ↦ absurd (cc ((nat_eq_iff m n).1 (inv.one m n free too mine), other))
    | inr without ↦ without
  ]
  others c n m inv on_time free (inr vacant) other = vacant (c.phase m) (inv.fits m) (on_time m)

  module _ (c : Calls ctx options work) (n : ℕ) (s' : Service D) (p : CallPhase) (inv : Inv c)
      (on_time : AllInTime ctx options work c) where
    abbrev moved : ℕ → CallPhase
    moved = move_call ctx options work n p c.phase

    abbrev row : Option IdempotencyRecord
    row = c.service.records ctx.key

    Effect-Fits :
        Effect ctx options work c.service.clock row (c.phase n) (s'.records ctx.key) p
        → (m : ℕ) → Fits (s'.records ctx.key) (moved m)
    Effect-Fits (inl (same, fits, k)) m = elim (Bool-cases (nat_eq m n)) [
      | inl e ↦ rw (e, same) fits
      | inr e ↦ rw (e, same) (inv.fits m)
    ]
    Effect-Fits (inr (free, fits, alone)) m = elim (Bool-cases (nat_eq m n)) [
      | inl e ↦ rw e fits
      | inr e ↦ rw e (
          free_Fits row (s'.records ctx.key) (c.phase m) free
            (others c n m inv on_time free alone e) (inv.fits m))
    ]

    -- A call with a claim had one before, or it is the one that moves.
    Effect-claim :
        Effect ctx options work c.service.clock row (c.phase n) (s'.records ctx.key) p
        → (i j : ℕ) → response_of_row (s'.records ctx.key) ≡ none
        → has_claim (moved i) ≡ true
        → has_claim (moved j) ≡ true
        → i ≡ j
    Effect-claim (inl (same, fits, k)) i j free hi hj =
        inv.one i j (sym (ap response_of_row same) ∙ free) (before i hi) (before j hj)
      where
        before : (i : ℕ) → has_claim (moved i) ≡ true → has_claim (c.phase i) ≡ true
        before i h = elim (Bool-cases (nat_eq i n)) [
          | inl e ↦ rw ((nat_eq_iff i n).0 e) (k (own i e h))
          | inr e ↦ other i e h
        ]
          where
            own : (i : ℕ) → nat_eq i n ≡ true → has_claim (moved i) ≡ true → has_claim p ≡ true
            own i e h = subst (λ b. has_claim (if b then p else c.phase i) ≡ true) e h

            other :
                (i : ℕ)
                → nat_eq i n ≡ false
                → has_claim (moved i) ≡ true
                → has_claim (c.phase i) ≡ true
            other i e h = subst (λ b. has_claim (if b then p else c.phase i) ≡ true) e h
    Effect-claim (inr (free, fits, alone)) i j free' hi hj = (mine i hi) ∙ sym (mine j hj)
      where
        mine : (i : ℕ) → has_claim (moved i) ≡ true → i ≡ n
        mine i h = elim (Bool-cases (nat_eq i n)) [
          | inl e ↦ (nat_eq_iff i n).0 e
          | inr e ↦ absurd (
              cc (
                others c n i inv on_time free alone e,
                subst (λ b. has_claim (if b then p else c.phase i) ≡ true) e h,
              ))
        ]

  turn-Inv :
      (c : Calls ctx options work) (n : ℕ) {s' : Service D} {p : CallPhase}
      → Inv c
      → AllInTime ctx options work c
      → CallTurn ctx options work c.service (c.phase n) s' p
      → Inv (record { service = s'; phase = move_call ctx options work n p c.phase })
  turn-Inv c n {s'} {p} inv on_time t =
      let done = Turn-Done ctx options work c.service t inv.sound (inv.fits n) in
      record {
        fits = Effect-Fits c n s' p inv on_time done.0;
        one = Effect-claim c n s' p inv on_time done.0;
        once = IsOneRun-trans ctx options work s0 c.service s' inv.once done.1;
        sound = done.2;
      }

  Interleave-Inv :
      {c : Calls ctx options work}
      → IsCacheSound s0
      → Interleave ctx options work (AllInTime ctx options work) s0 c
      → Inv c
  Interleave-Inv h (at_first e) = subst Inv (sym e) (record {
    fits = λ n. tt;
    one = λ n m free a b. absurd (cc);
    once = inl (refl, refl);
    sound = h;
  })
  Interleave-Inv h (turn {c = c} n r on_time t e) =
      subst Inv (sym e) (turn-Inv c n (Interleave-Inv h r) on_time t)
  Interleave-Inv h (time {c = c} ms r on_time e) =
      let inv = Interleave-Inv h r in
      subst Inv (sym e) (record {
        fits = inv.fits;
        one = inv.one;
        once = inv.once;
        sound = advance-IsCacheSound ms c.service inv.sound;
      })

  -- If the cache agrees with the records at the start, and no call that has the claim is ever so old
  -- that others may take it over: however calls of one operation interleave, fail and crash, either
  -- the service's tables and the stored response are as they were, or no response was stored at the
  -- start, the tables are what one run of the work made of them, and its response is stored; each
  -- call that returns a result returns the stored response; and while no response is stored, at most
  -- one call has the claim.
  pub calls_together-at_most_once :
      {c : Calls ctx options work}
      → IsCacheSound s0
      → Interleave ctx options work (AllInTime ctx options work) s0 c
      → IsOneRun ctx options work s0 c.service
        × ((n : ℕ) (r : IdempotentResult)
            → c.phase n ≡ answered (ok r)
            → stored_response ctx.key c.service ≡ some r.result)
        × ((n m : ℕ)
            → stored_response ctx.key c.service ≡ none
            → has_claim (c.phase n) ≡ true
            → has_claim (c.phase m) ≡ true
            → n ≡ m)
  calls_together-at_most_once {c} h run =
      let inv = Interleave-Inv h run in
      (inv.once, λ n r e. subst (Fits (c.service.records ctx.key)) e (inv.fits n), inv.one)
