-- ===== src/Coordinator/Repository/Claims.antt =====
-- Proofs about one claim, and about two claims of which the second meets the lease of the first.
use order_saga.Prelude.{
  ℕ, zero, suc, ◌+◌, ◌≤◌, ◌≡◌, refl, String, Bool, true, false, not, ◌&&◌, List, [], ◌∷◌, map,
  select, any, take, length, All, All-map, update_where, nat_eq, arith, length-take-le, Bool-cases,
  inl, inr, ◌<◌, ◌⊎◌, ◌||◌, Option, none, some, length-map,
}
use order_saga.Shared.Types.{
  OrderStatus, pending, in_progress, placed, compensating, cancelled, needs_attention, shipped,
  status_eq,
}
use order_saga.Coordinator.Repository.{
  OrderRow, SagaDb, ClaimedOrder, to_claimed_order, is_past, claimed_status, is_claimable,
  stamp_claim, claim_rows, claim_batch,
}

module _ {ℓ κ} {A : Type ℓ} where
  All-take : (P : A → Type κ) (n : ℕ) (xs : List A) → All P xs → All P (take n xs)
  All-take P zero xs h = tt
  All-take P (suc n) [] h = tt
  All-take P (suc n) (x ∷ xs) h = (h.0, All-take P n xs h.1)

  -- What the test gives for each element holds of the selected ones.
  All-select :
      (P : A → Type κ) (p : A → Bool) (xs : List A)
      → All (λ x. p x ≡ true → P x) xs
      → All P (select p xs)
  All-select P p [] h = tt
  All-select P p (x ∷ xs) h = elim (Bool-cases (p x)) [
    | inl hit ↦ rw hit (h.0 hit, All-select P p xs h.1)
    | inr miss ↦ rw miss (All-select P p xs h.1)
  ]

module _ {A : Type 0} where
  -- A member of a list.
  abbrev pub IsIn : A → List A → Type 0
  IsIn y [] = ⊥
  IsIn y (x ∷ xs) = (y ≡ x) ⊎ IsIn y xs

  -- What holds of each member holds of all elements.
  All-IsIn {κ} : {P : A → Type κ} (xs : List A) → ((x : A) → IsIn x xs → P x) → All P xs
  All-IsIn [] f = tt
  All-IsIn (x ∷ xs) f = (f x (inl refl), All-IsIn xs (λ y h. f y (inr h)))

-- Whether an order of this id is among the claimed ones.
abbrev pub is_among : List ClaimedOrder → ℕ → Bool
is_among cs id = any (λ c. nat_eq c.id id) cs

pub is_among-map :
    (rows : List OrderRow) (id : ℕ)
    → is_among (map to_claimed_order rows) id ≡ any (λ x. nat_eq x.id id) rows
is_among-map [] id = refl
is_among-map (r ∷ rows) id = rw (is_among-map rows id) refl

All-map_out {κ} :
    (P : ClaimedOrder → Type κ) (rows : List OrderRow)
    → All (λ r. P (to_claimed_order r)) rows
    → All P (map to_claimed_order rows)
All-map_out P [] h = tt
All-map_out P (r ∷ rows) h = (h.0, All-map_out P rows h.1)

-- A stamped row has a lease, so it is no candidate until the lease is over.
stamp_claim-not_claimable :
    (i : String) (now ttl later : ℕ) (r : OrderRow)
    → later ≤ now + ttl
    → is_claimable later (stamp_claim i now ttl r) ≡ false
unfolding is_claimable stamp_claim
stamp_claim-not_claimable i now ttl later r le = ground arith

stamped_rows :
    (rows : List OrderRow) (i : String) (now ttl later : ℕ) (locked : ℕ → Bool) (os : List OrderRow)
    → later ≤ now + ttl
    → All
        (λ r.
          (is_claimable later r && not (locked r.id)) ≡ true
          → any (λ x. nat_eq x.id r.id) rows ≡ false)
        (update_where (λ r. any (λ x. nat_eq x.id r.id) rows) (stamp_claim i now ttl) os)
stamped_rows rows i now ttl later locked [] le = tt
stamped_rows rows i now ttl later locked (r ∷ os) le = (
  elim (Bool-cases (any (λ x. nat_eq x.id r.id) rows)) [
    | inl hit ↦ rw (hit, stamp_claim-not_claimable i now ttl later r le) (λ h. absurd (cc))
    | inr miss ↦ rw miss (λ h. miss)
  ],
  stamped_rows rows i now ttl later locked os le,
)

-- Two claims, the second before the lease of the first is over, have no order in common, whatever
-- the instances, the batch sizes and the locked rows.
pub claim_batch-disjoint :
    (locked locked' : ℕ → Bool) (now later : ℕ) (i i' : String) (n n' ttl ttl' : ℕ) (db : SagaDb)
    → later ≤ now + ttl
    → All
        (λ c. is_among (claim_batch locked now i n ttl db).0 c.id ≡ false)
        (claim_batch locked' later i' n' ttl' (claim_batch locked now i n ttl db).1).0
unfolding claim_batch claim_rows
claim_batch-disjoint locked locked' now later i i' n n' ttl ttl' db le =
    let rows = claim_rows locked now n db.orders in
    All-map_out _ _ (
      All-take _ n' _ (
        All-select _ _ _ (
          All-map (λ r f h. rw (is_among-map rows r.id) (f h)) _
            (stamped_rows rows i now ttl later locked' db.orders le))))

-- A row that may be claimed: a pending order, or one in progress or in compensation whose lease is
-- over.
abbrev pub IsFree : ℕ → OrderRow → Type 0
IsFree now r =
    (r.status ≡ pending)
    ⊎ (((r.status ≡ in_progress) ⊎ (r.status ≡ compensating))
        × ((t : ℕ) × (r.lease_expires_at ≡ some t) × (t < now)))

past_lease :
    (now : ℕ) (lease : Option ℕ) → is_past now lease ≡ true → (t : ℕ) × (lease ≡ some t) × (t < now)
past_lease now none h = absurd (cc)
past_lease now (some t) h = (t, refl, ground (arith, h))

free_cases :
    (now : ℕ) (status : OrderStatus) (lease : Option ℕ)
    → (status_eq status pending
        || (status_eq status in_progress || status_eq status compensating) && is_past now lease)
      ≡ true
    → (status ≡ pending)
      ⊎ (((status ≡ in_progress) ⊎ (status ≡ compensating))
          × ((t : ℕ) × (lease ≡ some t) × (t < now)))
free_cases now pending lease h = inl refl
free_cases now in_progress lease h = inr (inl refl, past_lease now lease h)
free_cases now compensating lease h = inr (inr refl, past_lease now lease h)
free_cases now placed lease h = absurd (cc)
free_cases now cancelled lease h = absurd (cc)
free_cases now needs_attention lease h = absurd (cc)
free_cases now shipped lease h = absurd (cc)

claimable-IsFree : (now : ℕ) (r : OrderRow) → is_claimable now r ≡ true → IsFree now r
unfolding is_claimable
claimable-IsFree now r h = free_cases now r.status r.lease_expires_at h

-- What a claim has written on a row.
abbrev pub IsStamped : String → ℕ → OrderRow → Type 0
IsStamped i expiry r =
    (r.lease_owner ≡ some i)
    × (r.lease_expires_at ≡ some expiry)
    × ((r.status ≡ in_progress) ⊎ (r.status ≡ compensating))

claimed_status-cases :
    (s : OrderStatus) → (claimed_status s ≡ in_progress) ⊎ (claimed_status s ≡ compensating)
claimed_status-cases compensating = inr refl
claimed_status-cases pending = inl refl
claimed_status-cases in_progress = inl refl
claimed_status-cases placed = inl refl
claimed_status-cases cancelled = inl refl
claimed_status-cases needs_attention = inl refl
claimed_status-cases shipped = inl refl

stamps :
    (rows : List OrderRow) (i : String) (now ttl : ℕ) (os : List OrderRow)
    → All
        (λ r. is_among (map to_claimed_order rows) r.id ≡ true → IsStamped i (now + ttl) r)
        (update_where (λ r. any (λ x. nat_eq x.id r.id) rows) (stamp_claim i now ttl) os)
unfolding stamp_claim
stamps rows i now ttl [] = tt
stamps rows i now ttl (r ∷ os) = (
  elim (Bool-cases (any (λ x. nat_eq x.id r.id) rows)) [
    | inl hit ↦ rw hit (λ h. (refl, refl, claimed_status-cases r.status))
    | inr miss ↦ rw (miss, is_among-map rows r.id, miss) (λ h. absurd (cc))
  ],
  stamps rows i now ttl os,
)

-- A claim hands out at most as many orders as the batch size. Each is a row of the table that no other
-- transaction has locked and that is pending, or in progress or in compensation with a lease that is
-- over; and the rows of the orders it hands out are in progress or in compensation afterwards, held by
-- the claiming instance until the new lease is over.
pub claim_batch_sound :
    (locked : ℕ → Bool) (now : ℕ) (i : String) (n ttl : ℕ) (db : SagaDb)
    → let claim = claim_batch locked now i n ttl db in
      (length claim.0 ≤ n)
      × All
          (λ c.
            (r : OrderRow) × IsIn r db.orders
            × (c ≡ to_claimed_order r)
            × (locked r.id ≡ false)
            × IsFree now r)
          claim.0
      × All (λ r. is_among claim.0 r.id ≡ true → IsStamped i (now + ttl) r) claim.1.orders
unfolding claim_batch claim_rows
claim_batch_sound locked now i n ttl db =
    let rows = claim_rows locked now n db.orders in
    (
      omega (
        arith,
        length-map to_claimed_order rows,
        length-take-le n (select (λ r. is_claimable now r && not (locked r.id)) db.orders),
      ),
      All-map_out _ rows (
          All-take _ n _ (
            All-select _ _ db.orders (
              All-IsIn db.orders (λ r there h.
                (r, there, refl, ground (arith, h), claimable-IsFree now r (ground (arith, h))))))),
      stamps rows i now ttl db.orders,
    )
