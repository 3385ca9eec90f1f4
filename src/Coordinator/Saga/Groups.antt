-- ===== src/Coordinator/Saga/Groups.antt =====
-- Lemmas about the steps that run together: the rows they change, and their outcomes.
use order_saga.Prelude.{
  ◌≡◌, ◌≢◌, refl, sym, subst, ◌∙◌, String, Bool, true, false, not, some, List, [], ◌∷◌, any,
  if◌then◌else◌, arith, eq_refl, Bool-cases, inl, inr, All,
}
use order_saga.Shared.Types.{Step, step_eq, succeeded}
use order_saga.Shared.Types.Laws.{step_eq_iff}
use order_saga.Shared.Exec.{Result, ok, err, Ends}
use order_saga.Coordinator.Repository.{StepTable, ClaimedOrder, get_step_statuses}
use order_saga.Coordinator.Repository.Arming.{has_row, IsGroupChange}
use order_saga.Coordinator.Saga.{
  World, SagaDeps, StepOutcome, execute_step, run_concurrently, settled, failures,
}
use order_saga.Coordinator.Saga.Outcomes.{IsOwnChange, Settled, OwnAfter, execute_step-Ends}

pub group_step :
    (o : String) (step : Step) (steps : List Step) (t0 t1 t2 : StepTable)
    → IsOwnChange o step t0 t1
    → IsGroupChange o steps t1 t2
    → IsGroupChange o (step ∷ steps) t0 t2
group_step o step steps t0 t1 t2 own rest = (
  λ o' s h. rest.0 o' s (ground (arith, h)) ∙ own.0 o' s (ground (arith, h)),
  λ s h. rest.1 s (elim (Bool-cases (step_eq s step)) [
    | inl same ↦ subst (λ x. has_row (t1 o x) ≡ true) (sym ((step_eq_iff s step).0 same)) own.1
    | inr other ↦ rw (own.0 o s (rw (eq_refl o, other) refl)) h
  ]),
)

pub no_failures :
    (o : StepOutcome) (os : List StepOutcome)
    → o.ok ≡ true
    → failures (o ∷ os) ≡ []
    → failures os ≡ []
no_failures o os fine f = subst (λ b. (if not b then o ∷ failures os else failures os) ≡ []) fine f

pub failed_first : (o : StepOutcome) (os : List StepOutcome) → o.ok ≡ false → failures (o ∷ os) ≢ []
failed_first o os bad f =
    cons_absurd (subst (λ b. (if not b then o ∷ failures os else failures os) ≡ []) bad f)
  where
    cons_absurd : o ∷ failures os ≢ []
    cons_absurd e = absurd (cc)

module _ {R : Type 0} (deps : SagaDeps R) (order : ClaimedOrder) (force : Bool) where
  settled-facts :
      (step : Step) (t0 : StepTable) (r : Result StepOutcome × World R)
      → Ends
          (λ out u. Settled deps order step force t0 out u.db.steps)
          (λ _ u. OwnAfter deps order step force t0 u.db.steps)
          r
      → IsOwnChange order.order_id step t0 r.1.db.steps
        × ((settled step r.0).ok ≡ true
            → get_step_statuses order.order_id r.1.db.steps step ≡ some succeeded)
  settled-facts step t0 (ok out, u) h = (h.0, λ fine. h.1 ∙ rw fine refl)
  settled-facts step t0 (err e, u) h = (h, λ fine. absurd (cc))

  execute_step-facts :
      (step : Step) (w : World R)
      → has_row (w.db.steps order.order_id step) ≡ true
      → IsOwnChange order.order_id step w.db.steps (execute_step deps order step force w).1.db.steps
        × ((settled step (execute_step deps order step force w).0).ok ≡ true
            → get_step_statuses order.order_id
                (execute_step deps order step force w).1.db.steps
                step
              ≡ some succeeded)
  execute_step-facts step w h =
      settled-facts step w.db.steps (execute_step deps order step force w)
        (execute_step-Ends deps order step force w.db.steps w (λ _ _ _. refl, h))

  -- Every step of the group has a row.
  abbrev pub HasRows : List Step → StepTable → Type 0
  HasRows steps t = All (λ s. has_row (t order.order_id s) ≡ true) steps

  rows_kept :
      (t0 t1 : StepTable) (steps : List Step)
      → ((s : Step) → has_row (t0 order.order_id s) ≡ true → has_row (t1 order.order_id s) ≡ true)
      → HasRows steps t0
      → HasRows steps t1
  rows_kept t0 t1 [] k h = tt
  rows_kept t0 t1 (s ∷ steps) k h = (k s h.0, rows_kept t0 t1 steps k h.1)

  abbrev after : List Step → World R → StepTable
  after steps w = (run_concurrently deps order steps force w).1.db.steps

  abbrev outcomes : List Step → World R → List StepOutcome
  outcomes steps w = (run_concurrently deps order steps force w).0

  -- A group changes the rows of its own steps only, and if no outcome is a failure, then each of
  -- its steps is recorded as SUCCEEDED.
  pub run_concurrently-rows :
      (steps : List Step) (w : World R)
      → HasRows steps w.db.steps
      → IsGroupChange order.order_id steps w.db.steps
          (run_concurrently deps order steps force w).1.db.steps
        × (failures (run_concurrently deps order steps force w).0 ≡ []
            → (s : Step) → any (λ x. step_eq s x) steps ≡ true
            → get_step_statuses order.order_id
                (run_concurrently deps order steps force w).1.db.steps
                s
              ≡ some succeeded)
  unfolding run_concurrently get_step_statuses
  run_concurrently-rows [] w h = ((λ _ _ _. refl, λ s k. k), λ _ s k. absurd (cc))
  run_concurrently-rows (step ∷ steps) w h =
      let first = execute_step deps order step force w in
      let one = execute_step-facts step w h.0 in
      let kept =
        group_step order.order_id step [] w.db.steps first.1.db.steps first.1.db.steps one.0
          (λ _ _ _. refl, λ s k. k) in
      let rest =
        run_concurrently-rows steps first.1
          (rows_kept w.db.steps first.1.db.steps steps kept.1 h.1) in
      (
        group_step order.order_id step steps w.db.steps first.1.db.steps (after steps first.1) one.0
            rest.0,
        λ none_failed s among.
            let clean = all_fine (settled step first.0) (outcomes steps first.1) none_failed in
            elim (Bool-cases (any (λ x. step_eq s x) steps)) [
              | inl later ↦ rest.1 clean.1 s later
              | inr earlier ↦
                  done_first step steps first.1 s rest.0 earlier (ground (arith, among))
                    (one.1 clean.0)
            ],
      )
    where
      all_fine :
          (o : StepOutcome) (os : List StepOutcome)
          → failures (o ∷ os) ≡ []
          → (o.ok ≡ true) × (failures os ≡ [])
      all_fine o os f = elim (Bool-cases o.ok) [
        | inl fine ↦ (fine, no_failures o os fine f)
        | inr bad ↦ absurd (failed_first o os bad f)
      ]

      done_first :
          (step : Step) (steps : List Step) (u : World R) (s : Step)
          → IsGroupChange order.order_id steps u.db.steps (after steps u)
          → any (λ x. step_eq s x) steps ≡ false
          → step_eq s step ≡ true
          → get_step_statuses order.order_id u.db.steps step ≡ some succeeded
          → get_step_statuses order.order_id (after steps u) s ≡ some succeeded
      done_first step steps u s g earlier same fine =
          rw
            (
              g.0 order.order_id s (rw (eq_refl order.order_id, earlier) refl),
              (step_eq_iff s step).0 same,
            )
            fine
