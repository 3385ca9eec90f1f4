-- ===== src/Prelude/Tables.antt =====
-- Tables as lists of rows in the order of their keys, and the statements that the program runs on
-- them: `UPDATE … WHERE`, `DELETE … WHERE` and look-ups by a unique key.
use Prim.Native.Nat.{ℕ, suc}
use mathlib.Core.Path.{◌≡◌, ◌∙◌, refl, sym, ap, fun_ext}
use mathlib.Core.Bool.{Bool, true, false, not}
use mathlib.Core.List.{List, [], ◌∷◌, ◌++◌}
use mathlib.Core.Option.{Option, none, some}
use mathlib.Core.Logic.{◌≢◌, inl, inr}
use native.Mathlib.Omega.{arith}
use Prim.Native.String.{String}
use text.Mathlib.Text.{◌==◌}
use text.Mathlib.TextEquality.{eq_iff}
use text.Mathlib.TextPositions.{eq_refl}
use order_saga.Prelude.Tests.{if◌then◌else◌, Bool-cases}
use order_saga.Prelude.Lists.{All, find, select}

module _ {ℓ} {A : Type ℓ} where
  -- The rows after `UPDATE … SET f WHERE p`.
  abbrev pub update_where : (A → Bool) → (A → A) → List A → List A
  update_where p f [] = []
  update_where p f (x ∷ xs) = (if p x then f x else x) ∷ update_where p f xs

  -- The number of rows that `p` matches, which the driver reports as `affectedRows`.
  abbrev pub count_where : (A → Bool) → List A → ℕ
  count_where p [] = 0
  count_where p (x ∷ xs) = if p x then suc (count_where p xs) else count_where p xs

  abbrev pub delete_where : (A → Bool) → List A → List A
  delete_where p = select (λ x. not (p x))

  -- No other row has the key that `same` compares: a UNIQUE constraint.
  abbrev pub IsUnique : (A → A → Bool) → List A → Type 0
  IsUnique same [] = Unit {0}
  IsUnique same (x ∷ xs) = All (λ y. same x y ≡ false) xs × IsUnique same xs

-- A table by its unique text key, as the row of each key.
abbrev pub Table {ℓ} : Type ℓ → Type ℓ
Table A = String → Option A

module _ {ℓ} {A : Type ℓ} where
  -- The table with the row of one key replaced; `none` deletes it.
  abbrev pub store : String → Option A → Table A → Table A
  store key row t k = if k == key then row else t k

  pub store_self : (key : String) (row : Option A) (t : Table A) → store key row t key ≡ row
  store_self key row t = rw (eq_refl key)

  pub store_other :
      (key k : String) (row : Option A) (t : Table A) → k ≢ key → store key row t k ≡ t k
  store_other key k row t h = ground (arith, eq_iff k key)

  -- A row that is written again as it stands.
  pub store_again :
      (key : String) (row : Option A) (t : Table A) → t key ≡ row → store key row t ≡ t
  store_again key row t there = fun_ext (λ k. elim (Bool-cases (k == key)) [
    | inl same ↦ rw same (sym there ∙ ap t (sym ((eq_iff k key).0 same)))
    | inr other ↦ rw other refl
  ])

  -- Of two writes of one row the second stands.
  pub store_twice :
      (key : String) (first second : Option A) (t : Table A)
      → store key second (store key first t) ≡ store key second t
  store_twice key first second t =
      fun_ext
        (λ k. elim (Bool-cases (k == key)) [ inl same ↦ rw same refl | inr other ↦ rw other refl ])

module _ {ℓ} {A : Type ℓ} where
  -- What an optional row becomes under an update.
  abbrev pub change : (A → Bool) → (A → A) → Option A → Option A
  change p f none = none
  change p f (some x) = some (if p x then f x else x)

  -- A look-up by a key that the update leaves alone finds the updated row.
  pub find-update_where :
      (key p : A → Bool) (f : A → A) (xs : List A)
      → ((x : A) → key (f x) ≡ key x)
      → find key (update_where p f xs) ≡ change p f (find key xs)
  find-update_where key p f [] h = refl
  find-update_where key p f (x ∷ xs) h = ground (arith, h x, find-update_where key p f xs h)

  pub count_where-eq-zero :
      (p : A → Bool) (f : A → A) (xs : List A) → count_where p xs ≡ 0 → update_where p f xs ≡ xs
  count_where-eq-zero p f [] h = refl
  count_where-eq-zero p f (x ∷ xs) h = ground (arith, count_where-eq-zero p f xs)

  pub find-append :
      (key : A → Bool) (xs ys : List A)
      → find key (xs ++ ys) ≡ (elim (find key xs) [ none ↦ find key ys | some x ↦ some x ])
  find-append key [] ys = refl
  find-append key (x ∷ xs) ys = ground (arith, find-append key xs ys)

  pub find_sound : (key : A → Bool) (xs : List A) (x : A) → find key xs ≡ some x → key x ≡ true
  find_sound key [] x h = absurd (cc)
  find_sound key (y ∷ xs) x h = ground (arith, find_sound key xs x)
