-- ===== src/Coordinator/Worker/Slots.antt =====
-- Lemmas about a turn of one slot of the pool.
use order_saga.Prelude.{
  ℕ, zero, suc, ◌+◌, ◌*◌, ◌≤◌, ◌<◌, ◌≡◌, refl, ap, ◌∙◌, inl, inr, Bool, true, false, some, arith,
  List, [], ◌∷◌, ◌++◌, length, get_elem?, take, count_where, ltb, Bool-cases, if◌then◌else◌,
}
use order_saga.Coordinator.Worker.{
  Slot, free, busy, ended, next_slot, SlotTurn, pick, finish, is_ended, in_flight,
}

module _ {A : Type 0} where
  pub in_range :
      (items : List A) (i : ℕ) → i < length items → (x : A) × (get_elem? items i ≡ some x)
  in_range [] i h = absurd (omega (arith, h))
  in_range (x ∷ items) zero h = (x, refl)
  in_range (x ∷ items) (suc i) h = in_range items i (omega (arith, h))

  -- The items before the cursor grow by the item at the cursor.
  count_where-take :
      (q : A → Bool) (items : List A) (i : ℕ) (x : A)
      → get_elem? items i ≡ some x
      → count_where q (take (suc i) items) ≡ count_where q (take i items) + count_where q (x ∷ [])
  count_where-take q [] i x h = absurd (cc)
  count_where-take q (y ∷ items) zero x h = ground (arith, h)
  count_where-take q (y ∷ items) (suc i) x h = ground (arith, count_where-take q items i x h)

  pub count_where-take-le :
      (q : A → Bool) (n : ℕ) (items : List A) → count_where q (take n items) ≤ count_where q items
  count_where-take-le q zero items = omega arith
  count_where-take-le q (suc n) [] = omega arith
  count_where-take-le q (suc n) (x ∷ items) = ground (arith, count_where-take-le q n items)

  -- A sum over the slots, with the weight of each kind; a busy slot weighs what its item does.
  abbrev pub total : ℕ → (A → ℕ) → List (Slot A) → ℕ
  total n f [] = 0
  total n f (free ∷ slots) = n + total n f slots
  total n f (busy x ∷ slots) = f x + total n f slots
  total n f (ended ∷ slots) = total n f slots

  pub total-append :
      (n : ℕ) (f : A → ℕ) (xs ys : List (Slot A))
      → total n f (xs ++ ys) ≡ total n f xs + total n f ys
  total-append n f [] ys = omega arith
  total-append n f (free ∷ xs) ys = omega (arith, total-append n f xs ys)
  total-append n f (busy x ∷ xs) ys = omega (arith, total-append n f xs ys)
  total-append n f (ended ∷ xs) ys = omega (arith, total-append n f xs ys)

  abbrev pub one_if : (A → Bool) → A → ℕ
  one_if q x = if q x then 1 else 0

  pub count-in_flight :
      (q : A → Bool) (slots : List (Slot A))
      → count_where q (in_flight slots) ≡ total 0 (one_if q) slots
  count-in_flight q [] = refl
  count-in_flight q (free ∷ slots) = omega (arith, count-in_flight q slots)
  count-in_flight q (busy x ∷ slots) = ground (arith, count-in_flight q slots)
  count-in_flight q (ended ∷ slots) = count-in_flight q slots

  pub length-in_flight : (slots : List (Slot A)) → length (in_flight slots) ≤ length slots
  length-in_flight [] = omega arith
  length-in_flight (free ∷ slots) = omega (arith, length-in_flight slots)
  length-in_flight (busy x ∷ slots) = omega (arith, length-in_flight slots)
  length-in_flight (ended ∷ slots) = omega (arith, length-in_flight slots)

  abbrev pub weight : ℕ → (A → ℕ) → Slot A → ℕ
  weight n f s = total n f (s ∷ [])

  -- What a turn of one slot keeps in balance.
  pub record Balance (items : List A) (cursor : ℕ) (done : List A) (s s' : Slot A) (c : ℕ)
      (d : List A) : Type 0 where
    pub bound : c ≤ length items
    pub counts :
        (q : A → Bool)
        → count_where q d + weight 0 (one_if q) s' + count_where q (take cursor items)
          ≡ count_where q (take c items) + count_where q done + weight 0 (one_if q) s
    pub turns : 1 + weight 1 (λ _. 2) s' + 2 * cursor ≡ weight 1 (λ _. 2) s + 2 * c
    pub ends : is_ended s' ≡ true → c ≡ length items
    pub onward : cursor ≤ c

  picked :
      (items : List A) (cursor : ℕ) (done : List A) (x : A)
      → cursor < length items
      → get_elem? items cursor ≡ some x
      → Balance items cursor done free (busy x) (suc cursor) done
  picked items cursor done x h e = record {
    bound = omega (arith, h);
    counts = λ q. ground (arith, count_where-take q items cursor x e);
    turns = omega arith;
    ends = λ y. absurd (cc);
    onward = omega arith;
  }

  past_end :
      (items : List A) (cursor : ℕ) (done : List A)
      → cursor ≤ length items
      → ltb cursor (length items) ≡ false
      → Balance items cursor done free ended cursor done
  past_end items cursor done le h = record {
    bound = le;
    counts = λ q. omega arith;
    turns = omega arith;
    ends = λ y. ground (arith, le, h);
    onward = omega arith;
  }

  pub SlotTurn-Balance :
      (items : List A) (cursor : ℕ) (done : List A) {s s' : Slot A} {c : ℕ} {d : List A}
      → SlotTurn items cursor done s s' c d
      → cursor ≤ length items
      → Balance items cursor done s s' c d
  unfolding next_slot
  SlotTurn-Balance items cursor done (pick {s = s'} {c = c} {d = d} e f) le =
      elim (Bool-cases (ltb cursor (length items))) [
        | inl more ↦
            let lt : cursor < length items = ground (arith, more) in
            let (x, found) = in_range items cursor lt in
            let taken : next_slot items cursor ≡ (busy x, suc cursor) =
              rw (more, found, next_slot) refl in
            same_as (busy x) (suc cursor) (e ∙ taken) (picked items cursor done x lt found)
        | inr less ↦
            let over : next_slot items cursor ≡ (ended, cursor) = rw (less, next_slot) refl in
            same_as ended cursor (e ∙ over) (past_end items cursor done le less)
      ]
    where
      same_as :
          (t : Slot A) (i : ℕ)
          → ◌≡◌ {A = Slot A × ℕ} (s', c) (t, i)
          → Balance items cursor done free t i done
          → Balance items cursor done free s' c d
      same_as t i e h = rw (ap (λ x. x.0) e, ap (λ x. x.1) e, f) h
  SlotTurn-Balance items cursor done (finish {x = x} e f g) le =
      rw (e, f, g)
        (record {
          bound = le;
          counts = λ q. ground arith;
          turns = omega arith;
          ends = λ y. absurd (cc);
          onward = omega arith;
        })
