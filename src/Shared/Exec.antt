-- ===== src/Shared/Exec.antt =====
-- Asynchronous code as actions: what was written before a throw stays written, so the state comes
-- back beside the error too.
use order_saga.Shared.Errors.{Thrown}

pub data Result {ℓ} (A : Type ℓ) : Type ℓ where
  ok : A → Result A
  err : Thrown → Result A

abbrev pub Exec {ℓ} : Type ℓ → Type ℓ → Type ℓ
Exec S A = S → Result A × S

module _ {ℓ} {S A : Type ℓ} where
  abbrev pub pure : A → Exec S A
  pure a s = (ok a, s)

  abbrev pub throw : Thrown → Exec S A
  throw e s = (err e, s)

  abbrev pub gets : (S → A) → Exec S A
  gets f s = (ok (f s), s)

  -- `try { m } catch (e) { handler e }`
  abbrev pub handle : (Thrown → Exec S A) → Result A × S → Result A × S
  handle handler (ok a, s) = (ok a, s)
  handle handler (err e, s) = handler e s

  abbrev pub catch : Exec S A → (Thrown → Exec S A) → Exec S A
  catch m handler s = handle handler (m s)

module _ {ℓ} {S A B : Type ℓ} where
  abbrev pub continue : (A → Exec S B) → Result A × S → Result B × S
  continue f (ok a, s) = f a s
  continue f (err e, s) = (err e, s)

  infixl 5 ◌>>=◌ ◌>>◌
  abbrev pub ◌>>=◌ : Exec S A → (A → Exec S B) → Exec S B
  ◌>>=◌ m f s = continue f (m s)

  abbrev pub ◌>>◌ : Exec S A → Exec S B → Exec S B
  m >> n = m >>= λ _. n

-- How an action ends: the first predicate holds of a result and its state, the second of a throw.
abbrev pub Ends {ℓ κ} :
    {S A : Type ℓ} → (A → S → Type κ) → (Thrown → S → Type κ) → Result A × S → Type κ
Ends G B (ok a, s) = G a s
Ends G B (err e, s) = B e s

module _ {ℓ κ} {S A B : Type ℓ} where
  pub Ends-bind :
      (G : A → S → Type κ) (H : B → S → Type κ) (E : Thrown → S → Type κ) (r : Result A × S)
      (f : A → Exec S B)
      → Ends G E r
      → ((a : A) (s : S) → G a s → Ends H E (f a s))
      → Ends H E (continue f r)
  Ends-bind G H E (ok a, s) f h k = k a s h
  Ends-bind G H E (err e, s) f h k = h

module _ {ℓ κ} {S A B : Type ℓ} where
  pub Ends-then :
      (G : A → S → Type κ) (H : B → S → Type κ) (E : Thrown → S → Type κ) (m : Exec S A)
      (f : A → Exec S B) (s : S)
      → Ends G E (m s)
      → ((a : A) (t : S) → G a t → Ends H E (f a t))
      → Ends H E ((m >>= f) s)
  Ends-then G H E m f s h k = Ends-bind G H E (m s) f h k

module _ {ℓ κ} {S A : Type ℓ} where
  pub Ends-catch :
      (G : A → S → Type κ) (E F : Thrown → S → Type κ) (r : Result A × S) (f : Thrown → Exec S A)
      → Ends G E r
      → ((e : Thrown) (s : S) → E e s → Ends G F (f e s))
      → Ends G F (handle f r)
  Ends-catch G E F (ok a, s) f h k = h
  Ends-catch G E F (err e, s) f h k = k e s h

  pub Ends-mono :
      (G H : A → S → Type κ) (E F : Thrown → S → Type κ) (r : Result A × S)
      → Ends G E r
      → ((a : A) (s : S) → G a s → H a s)
      → ((e : Thrown) (s : S) → E e s → F e s)
      → Ends H F r
  Ends-mono G H E F (ok a, s) h good bad = good a s h
  Ends-mono G H E F (err e, s) h good bad = bad e s h

module _ {ℓ κ} {S A : Type ℓ} (P : S → Type κ) where
  pub Ends-of_state : (r : Result A × S) → P r.1 → Ends (λ _. P) (λ _. P) r
  Ends-of_state (ok a, s) h = h
  Ends-of_state (err e, s) h = h

  pub state-of_Ends : (r : Result A × S) → Ends (λ _. P) (λ _. P) r → P r.1
  state-of_Ends (ok a, s) h = h
  state-of_Ends (err e, s) h = h

-- What holds of the state after each part holds of it after the whole.
module _ {ℓ κ} {S A B : Type ℓ} (P : S → Type κ) where
  pub state-bind :
      (r : Result A × S) (f : A → Exec S B)
      → P r.1
      → ((a : A) (s : S) → P s → P (f a s).1)
      → P (continue f r).1
  state-bind (ok a, s) f h k = k a s h
  state-bind (err e, s) f h k = h

module _ {ℓ κ} {S A : Type ℓ} (P : S → Type κ) where
  pub state-catch :
      (r : Result A × S) (f : Thrown → Exec S A)
      → P r.1
      → ((e : Thrown) (s : S) → P s → P (f e s).1)
      → P (handle f r).1
  state-catch (ok a, s) f h k = h
  state-catch (err e, s) f h k = k e s h
