-- ===== src/Services/Inventory/Stock.antt =====
-- Proofs about the sum of the stock's columns.
use order_saga.Prelude.{
  ℤ, ◌+ℤ◌, ◌-ℤ◌, leb_ℤ, int_laws, ◌≡◌, refl, ◌∙◌, String, Bool, true, false, Option, none, some,
  eq_iff, store, Table, Bool-cases, Option-cases, inl, inr, either_branch, ◌&&◌, ◌==◌,
}
use order_saga.Shared.Types.{StepRequestBody}
use order_saga.Shared.Errors.{Thrown}
use order_saga.Shared.Exec.{Exec, Result, state-bind}
use order_saga.Shared.Idempotency.{statement}
use order_saga.Services.Inventory.{
  StockRow, ReservationRow, ReservationState, reserved, released, Inventory, fits_int, take_stock,
  return_stock, write_stock, insert_reservation, release_reservation, reserve_inventory_handler,
  release_inventory_handler,
}

-- The stock of a SKU before and after: no SKU comes or goes, and the units in all stay.
abbrev pub Conserves : Option StockRow → Option StockRow → Type 0
Conserves none none = Unit {0}
Conserves none (some q) = ⊥
Conserves (some r) none = ⊥
Conserves (some r) (some q) = q.available_qty +ℤ q.reserved_qty ≡ r.available_qty +ℤ r.reserved_qty

Conserves-refl : (o : Option StockRow) → Conserves o o
Conserves-refl none = tt
Conserves-refl (some r) = refl

-- moving q units from one side to the other
moved : (a r q : ℤ) → (a -ℤ q) +ℤ (r +ℤ q) ≡ a +ℤ r
moved a r q = omega int_laws

moved_back : (a r q : ℤ) → (a +ℤ q) +ℤ (r -ℤ q) ≡ a +ℤ r
moved_back a r q = omega int_laws

store-Conserves :
    (sku : String) (q row : StockRow) (t : Table StockRow)
    → t sku ≡ some row
    → q.available_qty +ℤ q.reserved_qty ≡ row.available_qty +ℤ row.reserved_qty
    → (k : String) → Conserves (t k) (store sku (some q) t k)
store-Conserves sku q row t h e k = elim (Bool-cases (k == sku)) [
  | inl y ↦ rw y (rw ((eq_iff k sku).0 y, h) e)
  | inr n ↦ rw n (Conserves-refl (t k))
]

module _ (k : String) where
  abbrev Keeps : Inventory → Inventory → Type 0
  Keeps s t = Conserves (s.stock k) (t.stock k)

  write_stock-Keeps :
      (sku : String) (free held : ℤ) (s : Inventory) (row : StockRow)
      → s.stock sku ≡ some row
      → free +ℤ held ≡ row.available_qty +ℤ row.reserved_qty
      → Keeps s (write_stock sku free held s).1
  unfolding write_stock
  write_stock-Keeps sku free held s row h e =
      either_branch (λ (r : Result Bool × Inventory). Keeps s r.1) (fits_int free && fits_int held)
        _ _ (λ _. store-Conserves sku _ row s.stock h e k) (λ _. Conserves-refl (s.stock k))

  take_stock-Keeps : (body : StepRequestBody) (s : Inventory) → Keeps s (take_stock body s).1
  unfolding take_stock
  take_stock-Keeps body s = elim (Option-cases (s.stock body.sku)) [
    | inl e ↦ rw (e, take_stock) (Conserves-refl (s.stock k))
    | inr (row, e) ↦
        rw (e, take_stock)
          (either_branch (λ (r : Result Bool × Inventory). Keeps s r.1)
            (leb_ℤ body.qty row.available_qty) _ _
            (λ _.
              write_stock-Keeps body.sku _ _ s row e
                (moved row.available_qty row.reserved_qty body.qty))
            (λ _. Conserves-refl (s.stock k)))
  ]

  return_stock-Keeps : (body : StepRequestBody) (s : Inventory) → Keeps s (return_stock body s).1
  unfolding return_stock
  return_stock-Keeps body s = elim (Option-cases (s.stock body.sku)) [
    | inl e ↦ rw (e, return_stock) (Conserves-refl (s.stock k))
    | inr (row, e) ↦
        rw (e, return_stock)
          (write_stock-Keeps body.sku _ _ s row e
            (moved_back row.available_qty row.reserved_qty body.qty))
  ]

  Keeps-trans : (s t u : Inventory) → Keeps s t → Keeps t u → Keeps s u
  Keeps-trans s t u g h = conserve (s.stock k) (t.stock k) (u.stock k) g h
    where
      conserve : (a b c : Option StockRow) → Conserves a b → Conserves b c → Conserves a c
      conserve none none c g h = h
      conserve none (some b) c g h = absurd g
      conserve (some a) none c g h = absurd g
      conserve (some a) (some b) none g h = h
      conserve (some a) (some b) (some c) g h = h ∙ g

  statement-Keeps :
      {A : Type 0} (fault : Option Thrown) (m : Exec Inventory A) (s t : Inventory)
      → ((u : Inventory) → Keeps u (m u).1)
      → Keeps s t
      → Keeps s (statement fault m t).1
  statement-Keeps none m s t h g = Keeps-trans s t (m t).1 g (h t)
  statement-Keeps (some e) m s t h g = g

  insert_reservation-Keeps :
      (body : StepRequestBody) (s : Inventory) → Keeps s (insert_reservation body s).1
  unfolding insert_reservation
  insert_reservation-Keeps body s = elim (Option-cases (s.reservations body.order_id)) [
    | inl e ↦ rw (e, insert_reservation) (Conserves-refl (s.stock k))
    | inr (row, e) ↦ rw (e, insert_reservation) (Conserves-refl (s.stock k))
  ]

  release_reservation-Keeps :
      (body : StepRequestBody) (s : Inventory) → Keeps s (release_reservation body s).1
  unfolding release_reservation
  release_reservation-Keeps body s = by_row (s.reservations body.order_id) refl
    where
      by_row :
          (o : Option ReservationRow)
          → s.reservations body.order_id ≡ o
          → Keeps s (release_reservation body s).1
      by_row none e = rw (e, release_reservation) (Conserves-refl (s.stock k))
      by_row (some row) e = by_state row.status refl
        where
          by_state :
              (st : ReservationState) → row.status ≡ st → Keeps s (release_reservation body s).1
          by_state reserved p = rw (e, p, release_reservation) (Conserves-refl (s.stock k))
          by_state released p = rw (e, p, release_reservation) (Conserves-refl (s.stock k))

  reserve-Keeps :
      (fault fault' : Option Thrown) (body : StepRequestBody) (s : Inventory)
      → Keeps s (reserve_inventory_handler fault fault' body s).1
  unfolding reserve_inventory_handler
  reserve-Keeps fault fault' body s =
      state-bind (Keeps s) (statement fault (take_stock body) s) _
        (statement-Keeps fault (take_stock body) s s (take_stock-Keeps body)
          (Conserves-refl (s.stock k)))
        (elim [
          | true ↦ λ t g.
              state-bind (Keeps s) (statement fault' (insert_reservation body) t) _
                (statement-Keeps fault' (insert_reservation body) s t
                  (insert_reservation-Keeps body) g)
                (λ _ u h. h)
          | false ↦ λ t g. g
        ])

  release-Keeps :
      (fault fault' : Option Thrown) (body : StepRequestBody) (s : Inventory)
      → Keeps s (release_inventory_handler fault fault' body s).1
  unfolding release_inventory_handler
  release-Keeps fault fault' body s =
      state-bind (Keeps s) (statement fault (release_reservation body) s) _
        (statement-Keeps fault (release_reservation body) s s (release_reservation-Keeps body)
          (Conserves-refl (s.stock k)))
        (elim [
          | true ↦ λ t g.
              state-bind (Keeps s) (statement fault' (return_stock body) t) _
                (statement-Keeps fault' (return_stock body) s t (return_stock-Keeps body) g)
                (λ _ u h. h)
          | false ↦ λ t g. g
        ])

-- Reserving and releasing, with whatever statement failing, move units between the available and
-- the reserved ones of a SKU: none is made and none is lost, of any SKU.
pub stock_conserved :
    (fault fault' : Option Thrown) (body : StepRequestBody) (s : Inventory) (sku : String)
    → Conserves (s.stock sku) ((reserve_inventory_handler fault fault' body s).1.stock sku)
      × Conserves (s.stock sku) ((release_inventory_handler fault fault' body s).1.stock sku)
stock_conserved fault fault' body s sku =
    (reserve-Keeps sku fault fault' body s, release-Keeps sku fault fault' body s)
