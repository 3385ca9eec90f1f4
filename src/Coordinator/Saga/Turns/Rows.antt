-- ===== src/Coordinator/Saga/Turns/Rows.antt =====
-- Lemmas about an interleaving and the rows of `saga_steps`.
use order_saga.Prelude.{
  ℕ, ◌≡◌, refl, sym, subst, ◌∙◌, ap, String, true, false, ◌&&◌, Option, none, some, List, ◌==◌, any,
  arith, eq_refl, Bool-cases, inl, inr,
}
use order_saga.Shared.Types.{Step, step_eq, StepStatus, succeeded, failed}
use order_saga.Shared.Types.Laws.{step_eq_refl, step_eq_iff}
use order_saga.Shared.Errors.{Thrown}
use order_saga.Coordinator.Repository.{
  SagaDb, StepTable, mark_step_running, mark_step_result, renew_lease, get_step_statuses,
}
use order_saga.Coordinator.Repository.Arming.{has_row, IsGroupChange}
use order_saga.Coordinator.Saga.{StepOutcome}
use order_saga.Coordinator.Saga.Outcomes.{IsOwnChange, own_write, written_status}
use order_saga.Coordinator.Saga.Turns.{
  Phase, ready, calling, returned, thrown, finished, Turn, start, start_fails, record_try,
  record_fails, call_returns, call_throws, succeed, succeed_fails, fail, reject, beat, with_steps,
  mark, Group, move, Reach, here, later,
}

-- A finished step that did not fail is recorded as SUCCEEDED.
abbrev pub IsTold : String → StepTable → Step → Phase → Type 0
IsTold o t step (finished out) = out.ok ≡ true → get_step_statuses o t step ≡ some succeeded
IsTold o t step _ = Unit {0}

-- The row of the step is the only one changed, and it tells what the phase says.
abbrev IsDone : String → Step → SagaDb → SagaDb → Phase → Type 0
IsDone o step db db' p = IsOwnChange o step db.steps db'.steps × IsTold o db'.steps step p

module _ (o : String) (step : Step) (db db' : SagaDb) (h : has_row (db.steps o step) ≡ true) where
  idle : (p : Phase) → db'.steps ≡ db.steps → IsTold o db.steps step p → IsDone o step db db' p
  idle p e told =
      subst (λ t. IsOwnChange o step db.steps t × IsTold o t step p) (sym e)
        ((λ _ _ _. refl, h), told)

  started :
      (now : ℕ) (n : ℕ)
      → db' ≡ with_steps (mark_step_running now o step) db
      → IsDone o step db db' (calling n)
  unfolding mark_step_running
  started now n e = (
    subst (IsOwnChange o step db.steps) (sym (ap (λ (d : SagaDb). d.steps) e))
        (own_write o step _ db.steps db.steps (λ _ _ _. refl, h)),
    tt,
  )

  -- A row that is marked has the status that it is marked with.
  marked :
      (now n : ℕ) (st : StepStatus) (x : Option Thrown) (out : StepOutcome)
      → db' ≡ mark now o step st n x db
      → (out.ok ≡ true → st ≡ succeeded)
      → IsDone o step db db' (finished out)
  unfolding mark_step_result
  marked now n st x out e fine =
      subst
        (λ t.
          IsOwnChange o step db.steps t
          × (out.ok ≡ true → get_step_statuses o t step ≡ some succeeded))
        (sym (ap (λ (d : SagaDb). d.steps) e))
        (
          own_write o step _ db.steps db.steps (λ _ _ _. refl, h),
          λ good. written_status now n o step st x db.steps h ∙ ap some (fine good),
        )

-- A turn changes the row of its own step only, and a step that it ends well is SUCCEEDED.
pub Turn-rows :
    (o : String) (step : Step) {db db' : SagaDb} {p p' : Phase}
    → Turn o step db p db' p'
    → has_row (db.steps o step) ≡ true
    → IsTold o db.steps step p
    → IsDone o step db db' p'
unfolding renew_lease
Turn-rows o step {db} {db'} (start now e) h told = started o step db db' h now 0 e
Turn-rows o step {db} {db'} (start_fails x e) h told =
    idle o step db db' h (thrown 0 x) (ap (λ (d : SagaDb). d.steps) e) tt
Turn-rows o step {db} {db'} (record_try {m = m} i e f) h told =
    idle o step db db' h (calling m) (ap (λ (d : SagaDb). d.steps) e) tt
Turn-rows o step {db} {db'} (record_fails m e) h told =
    idle o step db db' h (calling m) (ap (λ (d : SagaDb). d.steps) e) tt
Turn-rows o step {db} {db'} (call_returns {n = n} e) h told =
    idle o step db db' h (returned n) (ap (λ (d : SagaDb). d.steps) e) tt
Turn-rows o step {db} {db'} (call_throws {n = n} x e) h told =
    idle o step db db' h (thrown n x) (ap (λ (d : SagaDb). d.steps) e) tt
Turn-rows o step {db} {db'} (succeed {n = n} {out = out} now e f) h told =
    marked o step db db' h now n succeeded none out e (λ _. refl)
Turn-rows o step {db} {db'} (succeed_fails {n = n} x e) h told =
    idle o step db db' h (thrown n x) (ap (λ (d : SagaDb). d.steps) e) tt
Turn-rows o step {db} {db'} (fail {n = n} {e = x} {out = out} now e f) h told =
    marked o step db db' h now n failed (some x) out e (λ good. absurd (cc))
Turn-rows o step {db} {db'} (reject {out = out} x e f) h told =
    idle o step db db' h (finished out) (ap (λ (d : SagaDb). d.steps) e) (λ good. absurd (cc))
Turn-rows o step {db} {db'} {p} (beat now ttl o' i e) h told =
    idle o step db db' h p (ap (λ (d : SagaDb). d.steps) e) told

-- What any interleaving keeps: only rows of the group change, none is lost, and every step that has
-- ended well is SUCCEEDED.
pub record Inv (o : String) (steps : List Step) (t0 : StepTable) (g : Group) : Type 0 where
  pub rows : IsGroupChange o steps t0 g.db.steps
  pub told : (s : Step) → IsTold o g.db.steps s (g.phase s)

told_elsewhere :
    (o : String) (s : Step) (t t' : StepTable) (p : Phase)
    → t' o s ≡ t o s
    → IsTold o t s p
    → IsTold o t' s p
unfolding get_step_statuses
told_elsewhere o s t t' ready e h = tt
told_elsewhere o s t t' (calling n) e h = tt
told_elsewhere o s t t' (returned n) e h = tt
told_elsewhere o s t t' (thrown n x) e h = tt
told_elsewhere o s t t' (finished out) e h = λ good. rw e (h good)

module _ (o : String) (steps : List Step) (db : SagaDb)
    (rows : (s : Step) → any (λ x. step_eq s x) steps ≡ true → has_row (db.steps o s) ≡ true) where
  Turn-Inv :
      (g : Group) (s : Step) {db' : SagaDb} {p : Phase}
      → Inv o steps db.steps g
      → any (λ x. step_eq s x) steps ≡ true
      → Turn o s g.db (g.phase s) db' p
      → Inv o steps db.steps (record { db = db'; phase = move s p g.phase })
  Turn-Inv g s {db'} {p} inv among turn =
      let done = Turn-rows o s turn (inv.rows.1 s (rows s among)) (inv.told s) in
      record {
        rows = (
          λ o' x h. done.0.0 o' x (outside o' x h) ∙ inv.rows.0 o' x h,
          λ x h. kept x done (inv.rows.1 x h),
        );
        told = λ x. elim (Bool-cases (step_eq x s)) [
          | inl same ↦
              subst (λ y. IsTold o db'.steps y (move s p g.phase y))
                (sym ((step_eq_iff x s).0 same)) (rw (step_eq_refl s) done.1)
          | inr other ↦ rw other (
              told_elsewhere o x g.db.steps db'.steps (g.phase x)
                (done.0.0 o x (rw (eq_refl o, other) refl)) (inv.told x))
        ];
      }
    where
      -- a step outside the group is not the one that moves
      outside :
          (o' : String) (x : Step)
          → (o' == o && any (λ y. step_eq x y) steps) ≡ false
          → (o' == o && step_eq x s) ≡ false
      outside o' x h = elim (Bool-cases (step_eq x s)) [
        | inl same ↦
            subst (λ b. (o' == o && b) ≡ false) (rw ((step_eq_iff x s).0 same) among ∙ sym same) h
        | inr other ↦ rw other (ground arith)
      ]

      kept :
          (x : Step)
          → IsDone o s g.db db' p
          → has_row (g.db.steps o x) ≡ true
          → has_row (db'.steps o x) ≡ true
      kept x done h = elim (Bool-cases (step_eq x s)) [
        | inl same ↦ rw ((step_eq_iff x s).0 same) done.0.1
        | inr other ↦ rw (done.0.0 o x (rw (eq_refl o, other) refl)) h
      ]

  pub Reach-Inv : {g : Group} → Reach o steps db g → Inv o steps db.steps g
  Reach-Inv {g} (here e) =
      subst (Inv o steps db.steps) (sym e)
        (record { rows = (λ _ _ _. refl, λ s h. h); told = λ s. tt })
  Reach-Inv (later {g} s r among turn e) =
      subst (Inv o steps db.steps) (sym e) (Turn-Inv g s (Reach-Inv r) among turn)
