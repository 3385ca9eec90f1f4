-- ===== src/Coordinator/Saga/Turns/Together.antt =====
-- Proofs about the steps one after another and the interleavings of the group.
use order_saga.Prelude.{
  ◌≡◌, refl, sym, subst, ◌∙◌, ap, fun_ext, String, Bool, true, false, ◌||◌, List, [], ◌∷◌, any, All,
  arith, Bool-cases, inl, inr, IsUnique,
}
use order_saga.Shared.Types.{Step, step_eq}
use order_saga.Shared.Types.Laws.{step_eq_refl, step_eq_iff}
use order_saga.Coordinator.Repository.{SagaDb, ClaimedOrder}
use order_saga.Coordinator.Saga.{
  World, SagaDeps, StepOutcome, execute_step, run_concurrently, settled,
}
use order_saga.Coordinator.Saga.Turns.{
  Phase, ready, finished, Turn, Group, move, starting, Reach, here, later,
}
use order_saga.Coordinator.Saga.Turns.Orders.{IsSettled}
use order_saga.Coordinator.Saga.Turns.Sequence.{Turns, still, next, execute_step-Turns}

move_ready : (s : Step) (phase : Step → Phase) → phase s ≡ ready → move s ready phase ≡ phase
move_ready s phase h = fun_ext (λ x. elim (Bool-cases (step_eq x s)) [
  | inl same ↦ rw same (sym h ∙ ap phase (sym ((step_eq_iff x s).0 same)))
  | inr other ↦ rw other refl
])

move_twice :
    (s : Step) (p q : Phase) (phase : Step → Phase) → move s q (move s p phase) ≡ move s q phase
move_twice s p q phase =
    fun_ext
      (λ x. elim (Bool-cases (step_eq x s)) [ inl same ↦ rw same refl | inr other ↦ rw other refl ])

module _ (o : String) (all : List Step) (db : SagaDb) where
  abbrev moved : Group → Step → SagaDb → Phase → Group
  moved g s db' p = record { db = db'; phase = move s p g.phase }

  -- A step of the group that has not begun may take all its turns at once.
  Turns-Reach :
      (g : Group) (s : Step) {db' : SagaDb} {p : Phase}
      → Reach o all db g
      → any (λ x. step_eq s x) all ≡ true
      → g.phase s ≡ ready
      → Turns o s g.db db' p
      → Reach o all db (moved g s db' p)
  Turns-Reach g s {db'} {p} r among fresh (still e f) =
      subst (λ ph. Reach o all db (record { db = db'; phase = ph }))
        (sym (ap (λ q. move s q g.phase) f ∙ move_ready s g.phase fresh))
        (subst (λ d. Reach o all db (record { db = d; phase = g.phase })) (sym e) r)
  Turns-Reach g s {db'} {p} r among fresh (next {db1 = db1} {q = q} turns turn) =
      later s (Turns-Reach g s r among fresh turns) among
        (subst (λ x. Turn o s db1 x db' p) (sym (at_itself q)) turn)
        (ap (λ ph. record { db = db'; phase = ph }) (sym (move_twice s q p g.phase)))
    where
      at_itself : (q : Phase) → move s q g.phase s ≡ q
      at_itself q = rw (step_eq_refl s) refl

-- A group over a suffix of the steps, whose phases and tables it says, and which left the phases of
-- the steps outside the suffix as they were.
abbrev Ran :
    String → List Step → SagaDb → List Step → (Step → Phase) → SagaDb → List StepOutcome → Type 0
Ran o all db suffix phase db' os =
    (g : Group) × Reach o all db g
    × (g.db ≡ db')
    × IsSettled suffix g.phase os
    × ((x : Step) → any (λ y. step_eq x y) suffix ≡ false → g.phase x ≡ phase x)

apart_any :
    (s : Step) (steps : List Step)
    → All (λ y. step_eq s y ≡ false) steps
    → any (λ y. step_eq s y) steps ≡ false
apart_any s [] h = refl
apart_any s (x ∷ steps) (e, h) = rw (e, apart_any s steps h) refl

head_among : (s : Step) (steps : List Step) → any (λ y. step_eq s y) (s ∷ steps) ≡ true
head_among s steps = rw (step_eq_refl s) refl

rest_among :
    (x s : Step) (steps : List Step)
    → any (λ y. step_eq x y) steps ≡ true
    → any (λ y. step_eq x y) (s ∷ steps) ≡ true
rest_among x s steps h = ground (arith, h)

-- A step of the rest is not the head.
apart_head :
    (x s : Step) (steps : List Step)
    → All (λ y. step_eq s y ≡ false) steps
    → any (λ y. step_eq x y) steps ≡ true
    → step_eq x s ≡ false
apart_head x s steps apart h = elim (Bool-cases (step_eq x s)) [
  | inl same ↦ absurd (
      clash (apart_any s steps apart)
        (subst (λ y. any (λ z. step_eq y z) steps ≡ true) ((step_eq_iff x s).0 same) h))
  | inr other ↦ other
]
  where
    clash : {b : Bool} → b ≡ false → b ≡ true → ⊥
    clash p q = absurd (cc)

neither : (a b : Bool) → (a || b) ≡ false → (a ≡ false) × (b ≡ false)
neither a b h = (ground arith, ground arith)

suffix-Ran :
    {R : Type 0} (deps : SagaDeps R) (order : ClaimedOrder) (all : List Step) (db : SagaDb)
    (suffix : List Step) (force : Bool) (w : World R) (g : Group)
    → Reach order.order_id all db g
    → g.db ≡ w.db
    → ((s : Step) → any (λ x. step_eq s x) suffix ≡ true → any (λ x. step_eq s x) all ≡ true)
    → ((s : Step) → any (λ x. step_eq s x) suffix ≡ true → g.phase s ≡ ready)
    → IsUnique step_eq suffix
    → Ran order.order_id all db suffix g.phase
        (run_concurrently deps order suffix force w).1.db
        (run_concurrently deps order suffix force w).0
unfolding run_concurrently
suffix-Ran deps order all db [] force w g r e among fresh unique = (g, r, e, refl, λ x h. refl)
suffix-Ran deps order all db (s ∷ suffix) force w g r e among fresh (apart, unique) =
    let first = execute_step deps order s force w in
    let p = finished (settled s first.0) in
    let g1 : Group = record { db = first.1.db; phase = move s p g.phase } in
    let (g2, r2, e2, ended, kept) =
      suffix-Ran deps order all db suffix force first.1 g1
        (Turns-Reach order.order_id all db g s r (among s (head_among s suffix))
          (fresh s (head_among s suffix))
          (subst (λ d. Turns order.order_id s d first.1.db p) (sym e)
            (execute_step-Turns deps order s force w)))
        refl (λ x h. among x (rest_among x s suffix h))
        (λ x h. rw (apart_head x s suffix apart h) (fresh x (rest_among x s suffix h))) unique in
    (
      g2,
      r2,
      e2,
      (
        settled s first.0,
        (run_concurrently deps order suffix force first.1).0,
        kept s (apart_any s suffix apart) ∙ (rw (step_eq_refl s) refl),
        refl,
        ended,
      ),
      λ x h.
          let apart_both = neither (step_eq x s) (any (λ y. step_eq x y) suffix) h in
          kept x apart_both.1 ∙ rw apart_both.0 refl,
    )

-- If no step is twice in the group: the steps of a group one after another, each with its retries,
-- failures and heartbeats, are one of the interleavings of the group, with the outcomes that the
-- caller sees.
pub run_concurrently-Reach :
    {R : Type 0} (deps : SagaDeps R) (order : ClaimedOrder) (steps : List Step) (force : Bool)
    (w : World R)
    → IsUnique step_eq steps
    → (g : Group) × Reach order.order_id steps w.db g
      × (g.db ≡ (run_concurrently deps order steps force w).1.db)
      × IsSettled steps g.phase (run_concurrently deps order steps force w).0
run_concurrently-Reach deps order steps force w unique =
    let (g, r, e, ended, kept) =
      suffix-Ran deps order steps w.db steps force w (starting w.db) (here refl) refl (λ s h. h)
        (λ s h. refl) unique in
    (g, r, e, ended)
