-- ===== src/Shared/Service/Injection.antt =====
-- Proofs about fault injection in the services.
use order_saga.Prelude.{
  ◌≡◌, ◌↔◌, String, true, false, arith, Option, some, none, eq_iff, not, ◌&&◌, sym, ◌∙◌, ◌⊎◌, inl,
  inr, Bool-cases,
}
use order_saga.Shared.Types.{
  Step, ForwardStep, CompensationStep, forward, compensation, StepRequestBody, step_name,
  is_forward_step, idempotency_key,
}
use order_saga.Shared.Errors.{injected_failure}
use order_saga.Shared.Exec.{ok}
use order_saga.Shared.Idempotency.{Service, Faults, default_options, run_idempotent}
use order_saga.Shared.Service.{
  Body, StepHandler, failure, names_step, is_injected, register_step, validate_body, run_step,
  respond,
}

names_step_iff :
    (o : Option String) (step : Step) → (names_step o step ≡ true) ↔ (o ≡ some (step_name step))
names_step_iff none step = ground arith
names_step_iff (some s) step = ground (arith, eq_iff s (step_name step))

is_injected-forward :
    (f : ForwardStep) (body : StepRequestBody)
    → is_injected (forward f) body ≡ names_step body.fail_at (forward f)
unfolding is_injected is_forward_step
is_injected-forward f body = ground arith

is_injected-compensation :
    (c : CompensationStep) (body : StepRequestBody)
    → is_injected (compensation c) body
      ≡ (names_step body.comp_fail_at (compensation c) && not body.force)
unfolding is_injected is_forward_step
is_injected-compensation c body = ground arith

module _ {D : Type 0} (step : Step) (handler : StepHandler D) (faults : Faults) (raw : Body)
    (body : StepRequestBody) (s : Service D) (valid : validate_body raw ≡ ok body) where
  answered_by_injection :
      is_injected step body ≡ true
      → register_step step handler faults raw s
        ≡ (record { status = 500; content = failure (injected_failure step) "INJECTED_FAILURE" }, s)
  unfolding register_step
  answered_by_injection injected = rw (valid, register_step) (ground arith)

  answered_by_step :
      is_injected step body ≡ false
      → register_step step handler faults raw s ≡ run_step step handler faults body s
  unfolding register_step
  answered_by_step clear = rw (valid, register_step) (ground arith)

-- The request asks that this step fails: a forward step by `failAt`, a compensation by `compFailAt`
-- unless the request is forced.
abbrev pub IsFailing : Step → StepRequestBody → Type 0
IsFailing (forward f) body = body.fail_at ≡ some (step_name (forward f))
IsFailing (compensation c) body =
    (body.comp_fail_at ≡ some (step_name (compensation c))) × (body.force ≡ false)

is_injected-IsFailing :
    (step : Step) (body : StepRequestBody) → (is_injected step body ≡ true) ↔ IsFailing step body
is_injected-IsFailing (forward f) body =
    rw (is_injected-forward f body) (names_step_iff body.fail_at (forward f))
is_injected-IsFailing (compensation c) body = (
  λ h.
      let e = sym (is_injected-compensation c body) ∙ h in
      ((names_step_iff body.comp_fail_at (compensation c)).0 (ground arith), ground arith),
  λ h.
      is_injected-compensation c body
      ∙ ground (arith, (names_step_iff body.comp_fail_at (compensation c)).1 h.0),
)

-- What a service does with a request that validates. A forward step that `failAt` names is answered
-- 500 and changes nothing, and so is a compensation that `compFailAt` names in a request that is not
-- forced, whatever is recorded for the key; every other request, a forced compensation included, is
-- the idempotent call of the step's handler under the order's key for the step.
pub register_step-injection :
    {D : Type 0} (step : Step) (handler : StepHandler D) (faults : Faults) (raw : Body)
    (body : StepRequestBody) (s : Service D)
    → validate_body raw ≡ ok body
    → (IsFailing step body
        × (register_step step handler faults raw s ≡ (
          record { status = 500; content = failure (injected_failure step) "INJECTED_FAILURE" },
          s,
        )))
      ⊎ ((¬ IsFailing step body)
          × (register_step step handler faults raw s
              ≡ respond step body.order_id (
                  run_idempotent
                    (record {
                      key = idempotency_key body.order_id step;
                      operation = step;
                      order_id = body.order_id;
                    })
                    default_options
                    faults
                    (handler body)
                    s)))
unfolding run_step
register_step-injection step handler faults raw body s valid =
    elim (Bool-cases (is_injected step body)) [
      | inl hit ↦ inl (
        (is_injected-IsFailing step body).0 hit,
        answered_by_injection step handler faults raw body s valid hit,
      )
      | inr miss ↦ inr (
        λ h. absurd (ground (arith, miss, (is_injected-IsFailing step body).1 h)),
        answered_by_step step handler faults raw body s valid miss,
      )
    ]
