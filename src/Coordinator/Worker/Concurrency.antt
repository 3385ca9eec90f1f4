-- ===== src/Coordinator/Worker/Concurrency.antt =====
-- Proofs about the pool: its items and its end.
use order_saga.Prelude.{
  ℕ, zero, suc, ◌+◌, ◌*◌, ◌≤◌, ◌<◌, min, ◌≡◌, refl, ap, ◌⊎◌, inl, inr, Bool, true, false, arith,
  List, [], ◌∷◌, ◌++◌, length, repeat, length-repeat, length-append, take, take-all, count_where,
  all, any, ltb, Bool-cases,
}
use order_saga.Coordinator.Worker.{
  Slot, free, busy, ended, Pool, start_pool, next_slot, pick, finish, PoolTurn, turn, PoolRun,
  start, step, is_ended, in_flight,
}
use order_saga.Coordinator.Worker.Slots.{
  count_where-take-le, total, one_if, total-append, weight, count-in_flight, length-in_flight,
  Balance, SlotTurn-Balance,
}

module _ {A : Type 0} where
  pub record Inv (items : List A) (limit n : ℕ) (p : Pool A) : Type 0 where
    pub size : length p.slots ≡ min limit (length items)
    pub bound : p.cursor ≤ length items
    pub counts :
        (q : A → Bool)
        → count_where q p.done + total 0 (one_if q) p.slots ≡ count_where q (take p.cursor items)
    pub turns : n + total 1 (λ _. 2) p.slots ≡ 2 * p.cursor + min limit (length items)
    pub ends : any is_ended p.slots ≡ true → p.cursor ≡ length items

  total-cons :
      (n : ℕ) (f : A → ℕ) (s : Slot A) (slots : List (Slot A))
      → total n f (s ∷ slots) ≡ weight n f s + total n f slots
  total-cons n f free slots = omega arith
  total-cons n f (busy x) slots = omega arith
  total-cons n f ended slots = omega arith

  total-split :
      (n : ℕ) (f : A → ℕ) (before after : List (Slot A)) (s : Slot A)
      → total n f (before ++ s ∷ after) ≡ total n f before + weight n f s + total n f after
  total-split n f before after s =
      omega (arith, total-append n f before (s ∷ after), total-cons n f s after)

  length-split :
      (before after : List (Slot A)) (s : Slot A)
      → length (before ++ s ∷ after) ≡ suc (length before + length after)
  length-split before after s = omega (arith, length-append before (s ∷ after))

  -- A slot that has ended is the changed one or was there.
  ended-split :
      (before after : List (Slot A)) (s s' : Slot A)
      → any is_ended (before ++ s' ∷ after) ≡ true
      → (is_ended s' ≡ true) ⊎ (any is_ended (before ++ s ∷ after) ≡ true)
  ended-split [] after s s' h = ground arith
  ended-split (x ∷ before) after s s' h = ground (arith, ended-split before after s s')

  total-fresh : (n : ℕ) (f : A → ℕ) (k : ℕ) → total n f (repeat k free) ≡ n * k
  total-fresh n f zero = omega arith
  total-fresh n f (suc k) = omega (arith, total-fresh n f k)

  any-fresh : (k : ℕ) (s : Slot A) → s ≡ free → any is_ended (repeat k s) ≡ false
  any-fresh zero s e = refl
  any-fresh (suc k) s e = rw e (any-fresh k free refl)

  start-Inv : (items : List A) (limit : ℕ) → Inv items limit 0 (start_pool items limit)
  unfolding start_pool
  start-Inv items limit =
      let k = min limit (length items) in
      record {
        size = length-repeat k free;
        bound = omega arith;
        counts = λ q. omega (arith, total-fresh 0 (one_if q) k);
        turns = omega (arith, total-fresh 1 (λ _. 2) k);
        ends = λ h. absurd (cc (any-fresh k free refl, h));
      }

  turn-Inv :
      (items : List A) (limit n : ℕ) (p : Pool A) {s s' : Slot A} {c : ℕ} {d : List A}
      (before after : List (Slot A))
      → Inv items limit n p
      → p.slots ≡ before ++ s ∷ after
      → Balance items p.cursor p.done s s' c d
      → Inv items limit (suc n) (record { cursor = c; slots = before ++ s' ∷ after; done = d })
  turn-Inv items limit n p {s} {s'} {c} {d} before after inv e b = record {
    size =
        omega
          (arith, length-split before after s', length-split before after s, ap length e, inv.size);
    bound = b.bound;
    counts = λ q. omega (
      arith,
      total-split 0 (one_if q) before after s',
      total-split 0 (one_if q) before after s,
      ap (total 0 (one_if q)) e,
      inv.counts q,
      b.counts q,
    );
    turns = omega (
      arith,
      total-split 1 (λ _. 2) before after s',
      total-split 1 (λ _. 2) before after s,
      ap (total 1 (λ _. 2)) e,
      inv.turns,
      b.turns,
    );
    ends = λ h. elim (ended-split before after s s' h) [
      | inl now_ended ↦ b.ends now_ended
      | inr before_ended ↦
          let over = inv.ends (rw e before_ended) in omega (arith, over, b.onward, b.bound)
    ];
  }

  pub PoolRun-Inv :
      (items : List A) (limit : ℕ) {n : ℕ} {p : Pool A}
      → PoolRun items limit n p
      → Inv items limit n p
  PoolRun-Inv items limit (start e f) = rw (e, f) (start-Inv items limit)
  PoolRun-Inv items limit (step {n = n} {p = p} run (turn before after e t f) g) =
      let inv = PoolRun-Inv items limit run in
      rw (g, f)
        (turn-Inv items limit n p before after inv e
          (SlotTurn-Balance items p.cursor p.done t inv.bound))

  -- A pool in which a slot has not ended goes on.
  goes_on :
      (items : List A) (p : Pool A) (before after : List (Slot A)) (s : Slot A)
      → p.slots ≡ before ++ s ∷ after
      → is_ended s ≡ false
      → (p' : Pool A) × PoolTurn items p p'
  goes_on items p before after free e h =
      let next = next_slot items p.cursor in
      (
        record { cursor = next.1; slots = before ++ next.0 ∷ after; done = p.done },
        turn before after e (pick refl refl) refl,
      )
  goes_on items p before after (busy x) e h = (
    record { cursor = p.cursor; slots = before ++ free ∷ after; done = x ∷ p.done },
    turn before after e (finish refl refl refl) refl,
  )
  goes_on items p before after ended e h = absurd (cc)

  open_slot :
      (slots : List (Slot A))
      → (all is_ended slots ≡ true)
        ⊎ ((before : List (Slot A)) × (s : Slot A) × (after : List (Slot A)) × (slots
              ≡ before ++ s ∷ after)
            × (is_ended s ≡ false))
  open_slot [] = inl refl
  open_slot (free ∷ slots) = inr ([], free, slots, refl, refl)
  open_slot (busy x ∷ slots) = inr ([], busy x, slots, refl, refl)
  open_slot (ended ∷ slots) = elim (open_slot slots) [
    | inl h ↦ inl h
    | inr (before, s, after, e, h) ↦ inr (ended ∷ before, s, after, ap (λ l. ended ∷ l) e, h)
  ]

  total-ended :
      (n : ℕ) (f : A → ℕ) (slots : List (Slot A)) → all is_ended slots ≡ true → total n f slots ≡ 0
  total-ended n f [] h = refl
  total-ended n f (free ∷ slots) h = absurd (cc)
  total-ended n f (busy x ∷ slots) h = absurd (cc)
  total-ended n f (ended ∷ slots) h = total-ended n f slots h

  all-any :
      (slots : List (Slot A))
      → 1 ≤ length slots
      → all is_ended slots ≡ true
      → any is_ended slots ≡ true
  all-any [] le h = absurd (omega (arith, le))
  all-any (free ∷ slots) le h = absurd (cc)
  all-any (busy x ∷ slots) le h = absurd (cc)
  all-any (ended ∷ slots) le h = refl

  -- However its workers interleave, at most `limit` items are in `fn` at a time, and no item is taken
  -- more often than it is in the list.
  pub map_with_concurrency-in_flight :
      (items : List A) (limit : ℕ) {n : ℕ} {p : Pool A}
      → PoolRun items limit n p
      → (length (in_flight p.slots) ≤ limit)
        × ((q : A → Bool)
            → count_where q p.done + count_where q (in_flight p.slots) ≤ count_where q items)
  map_with_concurrency-in_flight items limit {p = p} run =
      let inv = PoolRun-Inv items limit run in
      (
        omega (arith, length-in_flight p.slots, inv.size),
        λ q.
            omega (
              arith,
              inv.counts q,
              count-in_flight q p.slots,
              count_where-take-le q p.cursor items,
            ),
      )

  -- Once all workers are past their loops, every item has been taken.
  all_taken :
      (items : List A) (limit n : ℕ) (p : Pool A)
      → 1 ≤ limit
      → Inv items limit n p
      → all is_ended p.slots ≡ true
      → length items ≤ p.cursor
  all_taken items limit n p le inv over = elim (Bool-cases (ltb 0 (length items))) [
    | inl some_item ↦
        let lt : 0 < length items = ground (arith, some_item) in
        omega (arith, inv.ends (all-any p.slots (omega (arith, lt, le, inv.size)) over))
    | inr no_item ↦ ground (arith, no_item)
  ]

  pub map_with_concurrency-drained :
      (items : List A) (limit : ℕ) {n : ℕ} {p : Pool A}
      → 1 ≤ limit
      → PoolRun items limit n p
      → all is_ended p.slots ≡ true
      → (q : A → Bool) → count_where q p.done ≡ count_where q items
  map_with_concurrency-drained items limit {n} {p} le run over q =
      let inv = PoolRun-Inv items limit run in
      let taken : take p.cursor items ≡ items =
        take-all items p.cursor (all_taken items limit n p le inv over) in
      omega (arith, inv.counts q, total-ended 0 (one_if q) p.slots over, ap (count_where q) taken)

  -- With a limit above 0, a pool makes at most three turns for each item, and goes on until it has
  -- ended `fn` of each item of the list as often as it is there.
  pub map_with_concurrency-ends :
      (items : List A) (limit : ℕ) {n : ℕ} {p : Pool A}
      → 1 ≤ limit
      → PoolRun items limit n p
      → (n ≤ 3 * length items)
        × (((q : A → Bool) → count_where q p.done ≡ count_where q items)
            ⊎ ((p' : Pool A) × PoolTurn items p p'))
  map_with_concurrency-ends items limit {n} {p} le run =
      let inv = PoolRun-Inv items limit run in
      (
        omega (arith, inv.turns, inv.bound),
        elim (open_slot p.slots) [
          | inl over ↦ inl (map_with_concurrency-drained items limit le run over)
          | inr (before, s, after, e, h) ↦ inr (goes_on items p before after s e h)
        ],
      )
