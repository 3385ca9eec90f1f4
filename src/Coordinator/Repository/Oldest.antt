-- ===== src/Coordinator/Repository/Oldest.antt =====
-- Proofs about the order of the rows that one claim takes.
use order_saga.Prelude.{
  ℕ, zero, suc, ◌<◌, ◌≡◌, refl, ◌∙◌, String, Bool, true, false, not, ◌&&◌, List, [], ◌∷◌, ◌++◌,
  select, any, take, count_where, nat_eq, nat_eq_iff, arith, Bool-cases, inl, inr,
}
use order_saga.Coordinator.Repository.{OrderRow, SagaDb, is_claimable, claim_rows, claim_batch}
use order_saga.Coordinator.Repository.Claims.{is_among, is_among-map}

-- A row that the test selects is among the first `n` if fewer than `n` rows before it are.
any-take-select :
    (q : OrderRow → Bool) (p : OrderRow → Bool) (n : ℕ) (before after : List OrderRow)
    (r : OrderRow)
    → p r ≡ true
    → q r ≡ true
    → count_where p before < n
    → any q (take n (select p (before ++ r ∷ after))) ≡ true
any-take-select q p zero [] after r hit good room = absurd (omega (arith, room))
any-take-select q p (suc n) [] after r hit good room = rw (hit, good) refl
any-take-select q p zero (x ∷ before) after r hit good room = absurd (omega (arith, room))
any-take-select q p (suc n) (x ∷ before) after r hit good room = elim (Bool-cases (p x)) [
  | inl first ↦
      let fewer : count_where p before < n = ground (arith, first, room) in
      let rest : any q (take n (select p (before ++ r ∷ after))) ≡ true =
        any-take-select q p n before after r hit good fewer in
      rw (first, rest) (ground arith)
  | inr other ↦
      let as_few : count_where p before < suc n = ground (arith, other, room) in
      let rest : any q (take (suc n) (select p (before ++ r ∷ after))) ≡ true =
        any-take-select q p (suc n) before after r hit good as_few in
      rw (other, rest) refl
]

-- An order that is claimable, also one of a coordinator that died and whose lease is over, and not
-- locked is claimed by the next claim that takes more orders than such ones come before it in the
-- table.
pub claim_batch-oldest :
    (locked : ℕ → Bool) (now : ℕ) (instance_id : String) (batch_size ttl : ℕ) (db : SagaDb)
    (before after : List OrderRow) (r : OrderRow)
    → db.orders ≡ before ++ r ∷ after
    → is_claimable now r ≡ true
    → locked r.id ≡ false
    → count_where (λ x. is_claimable now x && not (locked x.id)) before < batch_size
    → is_among (claim_batch locked now instance_id batch_size ttl db).0 r.id ≡ true
unfolding claim_batch claim_rows
claim_batch-oldest locked now instance_id batch_size ttl db before after r e claimable free room =
    let candidate : OrderRow → Bool = λ x. is_claimable now x && not (locked x.id) in
    let same : nat_eq r.id r.id ≡ true = (nat_eq_iff r.id r.id).1 refl in
    is_among-map (claim_rows locked now batch_size db.orders) r.id
    ∙ rw e (
        any-take-select (λ x. nat_eq x.id r.id) candidate batch_size before after r
          (rw (claimable, free) refl) same room)
