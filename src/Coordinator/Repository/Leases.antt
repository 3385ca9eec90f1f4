-- ===== src/Coordinator/Repository/Leases.antt =====
-- Proofs about the fence of the writes: `WHERE order_id = ? AND lease_owner = ?`.
use order_saga.Prelude.{
  ℕ, ◌+◌, ◌≡◌, refl, ◌≢◌, String, Bool, true, false, some, List, [], ◌∷◌, any, All, map, All-map,
  sym, update_where, count_where, count_where-eq-zero, nat_eq, ◌==◌, arith, eq_iff, Bool-cases, inl,
  inr,
}
use order_saga.Shared.Types.{OrderStatus}
use order_saga.Coordinator.Repository.{
  OrderRow, SagaDb, to_claimed_order, is_held, renew_lease, StatusOptions, write_status,
  set_order_status, stamp_claim, claim_rows, claim_batch,
}
use order_saga.Coordinator.Repository.Claims.{is_among, is_among-map}

-- If the instance holds no row of the order, a status write and a renewal report failure and leave
-- every table as it was.
pub unheld_lease :
    (o i : String) (now ttl : ℕ) (status : OrderStatus) (options : StatusOptions) (db : SagaDb)
    → count_where (is_held o i) db.orders ≡ 0
    → (set_order_status o i status options db ≡ (false, db))
      × (renew_lease now o i ttl db ≡ (false, db))
unfolding set_order_status renew_lease
unheld_lease o i now ttl status options db h = (
  rw (h, count_where-eq-zero (is_held o i) (write_status status options) db.orders h) refl,
  rw
      (
        h,
        count_where-eq-zero (is_held o i) (λ r. record r { lease_expires_at = some (now + ttl) })
            db.orders h,
      )
      refl,
)

cleared :
    (o i : String) (status : OrderStatus) (options : StatusOptions) (os : List OrderRow)
    → options.clear_lease ≡ true
    → count_where (is_held o i) (update_where (is_held o i) (write_status status options) os) ≡ 0
cleared o i status options [] h = refl
cleared o i status options (r ∷ os) h = elim (Bool-cases (is_held o i r)) [
  | inl hit ↦ rw (hit, h) (ground (arith, cleared o i status options os h))
  | inr miss ↦ rw (miss, miss) (cleared o i status options os h)
]

-- After a status write that clears the lease, a further status write or renewal by the same
-- instance reports failure and changes nothing.
pub final_write :
    (o i : String) (status status' : OrderStatus) (now ttl : ℕ) (options options' : StatusOptions)
    (db : SagaDb)
    → options.clear_lease ≡ true
    → let after = (set_order_status o i status options db).1 in
      (set_order_status o i status' options' after ≡ (false, after))
      × (renew_lease now o i ttl after ≡ (false, after))
unfolding set_order_status
final_write o i status status' now ttl options options' db h =
    unheld_lease o i now ttl status' options' _ (cleared o i status options db.orders h)

stolen :
    (o i i' : String) (now ttl : ℕ) (rows : List OrderRow) (os : List OrderRow)
    → i ≢ i'
    → All (λ r. (r.order_id == o) ≡ true → any (λ x. nat_eq x.id r.id) rows ≡ true) os
    → count_where
        (is_held o i)
        (update_where (λ r. any (λ x. nat_eq x.id r.id) rows) (stamp_claim i' now ttl) os)
      ≡ 0
unfolding stamp_claim
stolen o i i' now ttl rows [] ne h = refl
stolen o i i' now ttl rows (r ∷ os) ne h =
    let rest = stolen o i i' now ttl rows os ne h.1 in
    elim (Bool-cases (any (λ x. nat_eq x.id r.id) rows)) [
      | inl hit ↦ rw hit (ground (arith, rest, eq_iff i' i))
      | inr miss ↦ rw miss (ground (arith, rest, h.0, miss))
    ]

-- Once another instance has claimed every row of an order, the status writes and renewals of an
-- instance with another name report failure and change nothing.
pub stolen_lease :
    (locked : ℕ → Bool) (o i i' : String) (now later n ttl : ℕ) (status : OrderStatus)
    (options : StatusOptions) (db : SagaDb)
    → i ≢ i'
    → All
        (λ r.
          (r.order_id == o) ≡ true → is_among (claim_batch locked now i' n ttl db).0 r.id ≡ true)
        db.orders
    → let after = (claim_batch locked now i' n ttl db).1 in
      (set_order_status o i status options after ≡ (false, after))
      × (renew_lease later o i ttl after ≡ (false, after))
unfolding claim_batch
stolen_lease locked o i i' now later n ttl status options db ne h =
    let rows = claim_rows locked now n db.orders in
    unheld_lease o i later ttl status options _
      (stolen o i i' now ttl rows db.orders ne (among rows db.orders h))
  where
    among :
        (rows os : List OrderRow)
        → All
            (λ r.
              (r.order_id == o) ≡ true
              → any (λ c. nat_eq c.id r.id) (map to_claimed_order rows) ≡ true)
            os
        → All (λ r. (r.order_id == o) ≡ true → any (λ x. nat_eq x.id r.id) rows ≡ true) os
    among rows os k = All-map (λ r f e. rw (sym (is_among-map rows r.id)) (f e)) os k
