-- ===== src/Coordinator/Saga/Undoing.antt =====
-- The rows of `saga_steps` through the compensation phase.
use order_saga.Prelude.{
  ◌≡◌, refl, sym, subst, ◌∙◌, String, true, false, not, some, List, ◌∷◌, map, any, select,
  if◌then◌else◌, arith, eq_refl, Bool-cases, inl, inr,
}
use order_saga.Shared.Types.{
  Step, ForwardStep, CompensationStep, forward, compensation, compensation_steps, compensation_of,
  step_eq, succeeded, skipped,
}
use order_saga.Shared.Types.Laws.{step_eq_iff}
use order_saga.Coordinator.Repository.{
  StepTable, is_done_row, row_status, get_step_statuses, get_succeeded_forward_steps, init_steps,
}
use order_saga.Coordinator.Repository.Arming.{
  has_row, IsGroupChange, init_steps-rows, forward_apart, compensation_selected, needed_iff,
}
use order_saga.Coordinator.Saga.{is_needed}
use order_saga.Coordinator.Saga.Outcomes.{IsOwnChange}
use order_saga.Coordinator.Saga.Groups.{group_step}

abbrev pub to_run : List ForwardStep → List Step
to_run done = map compensation (select (is_needed done) compensation_steps)

abbrev pub not_needed : List ForwardStep → List CompensationStep
not_needed done = select (λ c. not (is_needed done c)) compensation_steps

-- A forward step that is done has its compensation SUCCEEDED, and any other has it SKIPPED.
abbrev pub IsUndone : String → StepTable → Type 0
IsUndone o t =
    (f : ForwardStep)
    → get_step_statuses o t (compensation (compensation_of f))
      ≡ some (if is_done_row (t o (forward f)) then succeeded else skipped)

-- `done` is what the table says, and every compensation has a row.
abbrev pub IsArmed : String → List ForwardStep → StepTable → Type 0
IsArmed o done t =
    ((f : ForwardStep) → is_needed done (compensation_of f) ≡ is_done_row (t o (forward f)))
    × ((c : CompensationStep) → has_row (t o (compensation c)) ≡ true)

abbrev pub IsSkipped : String → List ForwardStep → StepTable → Type 0
IsSkipped o done t =
    (c : CompensationStep)
    → is_needed done c ≡ false
    → get_step_statuses o t (compensation c) ≡ some skipped

-- Only the rows of a list of compensations have changed, and all of them are SKIPPED.
abbrev pub AllSkipped : String → List CompensationStep → StepTable → StepTable → Type 0
AllSkipped o cs t0 t =
    IsGroupChange o (map compensation cs) t0 t
    × ((c : CompensationStep)
        → any (λ x. step_eq (compensation c) x) (map compensation cs) ≡ true
        → get_step_statuses o t (compensation c) ≡ some skipped)

pub IsArmed-kept :
    (o : String) (done : List ForwardStep) (cs : List CompensationStep) (t t' : StepTable)
    → IsGroupChange o (map compensation cs) t t'
    → IsArmed o done t
    → IsArmed o done t'
IsArmed-kept o done cs t t' g h = (
  λ f. h.0 f ∙ ap_row f (sym (g.0 o (forward f) (rw (eq_refl o, forward_apart f cs) refl))),
  λ c. g.1 (compensation c) (h.1 c),
)
  where
    ap_row :
        (f : ForwardStep)
        → t o (forward f) ≡ t' o (forward f)
        → is_done_row (t o (forward f)) ≡ is_done_row (t' o (forward f))
    ap_row f e = rw e refl

pub init_steps-IsArmed :
    (o : String) (t : StepTable)
    → IsArmed o
        (get_succeeded_forward_steps o t)
        (init_steps o (map compensation compensation_steps) t)
unfolding get_succeeded_forward_steps
init_steps-IsArmed o t =
    let rows = init_steps-rows o (map compensation compensation_steps) t in
    (
      λ f.
          needed_iff (λ g. is_done_row (t o (forward g))) f
          ∙ rw (rows.0.0 o (forward f) (rw (eq_refl o, forward_apart f compensation_steps) refl))
              refl,
      λ c. rows.1 (compensation c) (compensation_selected (λ _. true) c),
    )

pub skip_one :
    (o : String) (c : CompensationStep) (cs : List CompensationStep) (t0 t1 t2 : StepTable)
    → IsOwnChange o (compensation c) t0 t1
    → get_step_statuses o t1 (compensation c) ≡ some skipped
    → AllSkipped o cs t1 t2
    → AllSkipped o (c ∷ cs) t0 t2
unfolding get_step_statuses
skip_one o c cs t0 t1 t2 own one rest = (
  group_step o (compensation c) (map compensation cs) t0 t1 t2 own rest.0,
  λ c' among. elim (Bool-cases (any (λ x. step_eq (compensation c') x) (map compensation cs))) [
    | inl later ↦ rest.1 c' later
    | inr earlier ↦
        rw
          (
            rest.0.0 o (compensation c') (rw (eq_refl o, earlier) refl),
            (step_eq_iff (compensation c') (compensation c)).0 (ground (arith, among)),
          )
          one
  ],
)

pub not_needed-IsSkipped :
    (o : String) (done : List ForwardStep) (t0 t : StepTable)
    → AllSkipped o (not_needed done) t0 t
    → IsSkipped o done t
not_needed-IsSkipped o done t0 t g c idle =
    g.1 c (compensation_selected (λ x. not (is_needed done x)) c ∙ rw idle refl)

-- When the compensations that run are all SUCCEEDED, everything is undone.
pub succeeded-IsUndone :
    (o : String) (done : List ForwardStep) (t t' : StepTable)
    → IsArmed o done t
    → IsSkipped o done t
    → IsGroupChange o (to_run done) t t'
    → ((s : Step)
        → any (λ x. step_eq s x) (to_run done) ≡ true
        → get_step_statuses o t' s ≡ some succeeded)
    → IsUndone o t'
unfolding get_step_statuses
succeeded-IsUndone o done t t' h skips g ran f =
    let c = compensation_of f in
    let armed = IsArmed-kept o done (select (is_needed done) compensation_steps) t t' g h in
    elim (Bool-cases (is_needed done c)) [
      | inl need ↦
          subst (λ b. row_status (t' o (compensation c)) ≡ some (if b then succeeded else skipped))
            (sym need ∙ armed.0 f)
            (ran (compensation c) (compensation_selected (is_needed done) c ∙ need))
      | inr idle ↦
          subst (λ b. row_status (t' o (compensation c)) ≡ some (if b then succeeded else skipped))
            (sym idle ∙ armed.0 f)
            (rw
              (g.0 o (compensation c)
                (rw (eq_refl o, compensation_selected (is_needed done) c, idle) refl))
              (skips c idle))
    ]
