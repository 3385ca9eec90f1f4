-- ===== src/Coordinator/Queries/Pages.antt =====
-- Lemmas about the pages of the list.
use order_saga.Prelude.{
  ◌≡◌, refl, ap, List, [], ◌∷◌, length, length-append, reverse, reverse-cons, arith,
}

module _ {ℓ} {A : Type ℓ} where
  pub length-reverse : (xs : List A) → length (reverse xs) ≡ length xs
  length-reverse [] = refl
  length-reverse (x ∷ xs) =
      omega (
        arith,
        ap length (reverse-cons x xs),
        length-append (reverse xs) (x ∷ []),
        length-reverse xs,
      )
