-- ===== src/Coordinator/Repository/Arming.antt =====
-- Lemmas about `initSteps` and the list of the steps that are done.
use order_saga.Prelude.{
  ◌≡◌, refl, sym, subst, ◌∙◌, String, Bool, true, false, ◌&&◌, Option, none, some, List, [], ◌∷◌,
  ◌==◌, map, any, select, arith, eq_refl, Bool-cases, inl, inr,
}
use order_saga.Shared.Types.{
  Step, ForwardStep, CompensationStep, forward, compensation, forward_steps, compensation_steps,
  compensation_of, step_eq, StepStatus, succeeded, is_succeeded, create_order, reserve_inventory,
  charge_payment, create_shipment, cancel_order, release_inventory, refund_payment, cancel_shipment,
}
use order_saga.Shared.Types.Laws.{step_eq_refl, step_eq_iff}
use order_saga.Coordinator.Repository.{
  StepTable, StepRow, put_step, armed_row, init_steps, row_status, get_step_statuses,
}

abbrev pub has_row : Option StepRow → Bool
has_row none = false
has_row (some r) = true

-- The second table has the rows of the first, but for the rows of some steps of one order, and
-- where the order had a row it still has one.
abbrev pub IsGroupChange : String → List Step → StepTable → StepTable → Type 0
IsGroupChange o steps t0 t =
    ((o' : String) (s : Step)
      → (o' == o && any (λ x. step_eq s x) steps) ≡ false
      → t o' s ≡ t0 o' s)
    × ((s : Step) → has_row (t0 o s) ≡ true → has_row (t o s) ≡ true)

armed : String → Step → StepTable → StepTable
armed o step t = put_step o step (some (armed_row o step (t o step))) t

armed_status :
    (o : String) (s : Step) (r : Option StepRow)
    → row_status r ≡ some succeeded
    → row_status (some (armed_row o s r)) ≡ some succeeded
unfolding armed_row
armed_status o s none h = absurd (cc)
armed_status o s (some r) h = rw (some_inj h, is_succeeded) refl
  where
    some_inj : {a b : StepStatus} → some a ≡ some b → a ≡ b
    some_inj e = cc

armed-other :
    (o o' : String) (step s : Step) (t : StepTable)
    → (o' == o && step_eq s step) ≡ false
    → armed o step t o' s ≡ t o' s
unfolding armed put_step
armed-other o o' step s t h = rw h refl

armed-own :
    (o : String) (step : Step) (t : StepTable)
    → armed o step t o step ≡ some (armed_row o step (t o step))
unfolding armed put_step
armed-own o step t = rw (eq_refl o, step_eq_refl step) refl

-- A property of a row that arming gives or keeps.
armed-keeps :
    (P : Step → Option StepRow → Type 0) (o : String) (step s : Step) (t : StepTable)
    → (P step (t o step) → P step (some (armed_row o step (t o step))))
    → P s (t o s)
    → P s (armed o step t o s)
armed-keeps P o step s t k h = elim (Bool-cases (step_eq s step)) [
  | inl same ↦
      let e : s ≡ step = (step_eq_iff s step).0 same in
      subst (λ x. P x (armed o step t o x)) (sym e)
        (subst (P step) (sym (armed-own o step t)) (k (subst (λ x. P x (t o x)) e h)))
  | inr other ↦ subst (P s) (sym (armed-other o o step s t (rw (eq_refl o, other) refl))) h
]

-- Arming a list of steps changes only their rows and removes none, gives each of them a row, and
-- leaves every step that is SUCCEEDED so.
pub init_steps-rows :
    (o : String) (steps : List Step) (t : StepTable)
    → IsGroupChange o steps t (init_steps o steps t)
      × ((s : Step)
          → any (λ x. step_eq s x) steps ≡ true
          → has_row (init_steps o steps t o s) ≡ true)
      × ((s : Step)
          → get_step_statuses o t s ≡ some succeeded
          → get_step_statuses o (init_steps o steps t) s ≡ some succeeded)
unfolding init_steps get_step_statuses armed
init_steps-rows o [] t = ((λ _ _ _. refl, λ s h. h), λ s h. absurd (cc), λ s h. h)
init_steps-rows o (step ∷ steps) t =
    let rest = init_steps-rows o steps (armed o step t) in
    (
      (
        λ o' s h. rest.0.0 o' s (ground (arith, h)) ∙ armed-other o o' step s t (ground (arith, h)),
        λ s h. rest.0.1 s (armed-keeps (λ _ r. has_row r ≡ true) o step s t (λ _. refl) h),
      ),
      λ s among. elim (Bool-cases (any (λ x. step_eq s x) steps)) [
        | inl later ↦ rest.1 s later
        | inr earlier ↦ rest.0.1 s (
            subst (λ x. has_row (armed o step t o x) ≡ true)
              (sym ((step_eq_iff s step).0 (ground (arith, among)))) (rw (armed-own o step t) refl))
      ],
      λ s h. rest.2 s (
          armed-keeps (λ _ r. row_status r ≡ some succeeded) o step s t
            (armed_status o step (t o step)) h),
    )

-- A forward step is in no list of compensations.
pub forward_apart :
    (f : ForwardStep) (cs : List CompensationStep)
    → any (λ x. step_eq (forward f) x) (map compensation cs) ≡ false
forward_apart f [] = refl
forward_apart f (c ∷ cs) = ground (arith, forward_apart f cs, apart f c)
  where
    apart : (f : ForwardStep) (c : CompensationStep) → step_eq (forward f) (compensation c) ≡ false
    apart f c = ground arith

-- A compensation is in no list of forward steps.
pub compensation_apart :
    (c : CompensationStep) (fs : List ForwardStep)
    → any (λ x. step_eq (compensation c) x) (map forward fs) ≡ false
compensation_apart c [] = refl
compensation_apart c (f ∷ fs) = ground (arith, compensation_apart c fs, apart c f)
  where
    apart : (c : CompensationStep) (f : ForwardStep) → step_eq (compensation c) (forward f) ≡ false
    apart c f = ground arith

-- A compensation is in a selection of all exactly if the test selects it.
pub compensation_selected :
    (p : CompensationStep → Bool) (c : CompensationStep)
    → any (λ x. step_eq (compensation c) x) (map compensation (select p compensation_steps)) ≡ p c
compensation_selected p cancel_order = ground arith
compensation_selected p release_inventory = ground arith
compensation_selected p refund_payment = ground arith
compensation_selected p cancel_shipment = ground arith

pub forward_selected :
    (p : ForwardStep → Bool) (f : ForwardStep)
    → any (λ x. step_eq (forward f) x) (map forward (select p forward_steps)) ≡ p f
forward_selected p create_order = ground arith
forward_selected p reserve_inventory = ground arith
forward_selected p charge_payment = ground arith
forward_selected p create_shipment = ground arith

-- What must be undone is what is done.
pub needed_iff :
    (p : ForwardStep → Bool) (f : ForwardStep)
    → any
        (λ g. step_eq (compensation (compensation_of g)) (compensation (compensation_of f)))
        (select p forward_steps)
      ≡ p f
unfolding compensation_of
needed_iff p create_order = ground arith
needed_iff p reserve_inventory = ground arith
needed_iff p charge_payment = ground arith
needed_iff p create_shipment = ground arith
