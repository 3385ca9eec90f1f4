-- ===== src/Shared/Types/Laws.antt =====
-- Laws of the steps and of the keys.
use Prim.Native.Char.{code}
use Prim.Native.String
use text.Mathlib.TextLemmas.{append_cancel_right, cons-append, nil-append}
use order_saga.Prelude.{
  ℕ, ◌≡◌, refl, ◌↔◌, String, true, arith, ap, ◌==◌, sym, ◌∙◌, Option, some, none, nat_eq,
  if◌then◌else◌,
}
use order_saga.Shared.Types.{
  Step, ForwardStep, CompensationStep, forward, compensation, step_name, step_ordinal, step_eq,
  compensation_of, step_service, step_kind, forward_kind, compensation_kind, idempotency_key,
  create_order, reserve_inventory, charge_payment, create_shipment, cancel_order, release_inventory,
  refund_payment, cancel_shipment,
}

pub step_eq_iff : (a b : Step) → (step_eq a b ≡ true) ↔ (a ≡ b)
step_eq_iff a b = ground arith

pub step_eq_refl : (a : Step) → step_eq a a ≡ true
step_eq_refl a = (step_eq_iff a a).1 refl

compensation_of_inj : (a b : ForwardStep) → compensation_of a ≡ compensation_of b → a ≡ b
unfolding compensation_of
compensation_of_inj a b h = ground arith

-- The step that a compensation undoes.
abbrev pub undone_by : CompensationStep → ForwardStep
undone_by cancel_order = create_order
undone_by release_inventory = reserve_inventory
undone_by refund_payment = charge_payment
undone_by cancel_shipment = create_shipment

pub compensation_of-undone_by : (c : CompensationStep) → compensation_of (undone_by c) ≡ c
unfolding compensation_of
compensation_of-undone_by c = ground arith

-- The compensation of a step is at the service of the step, the step is of the forward kind and
-- its compensation of the other, and steps with the same compensation are the same.
pub compensation_of_pairing :
    (a b : ForwardStep)
    → (step_service (compensation (compensation_of a)) ≡ step_service (forward a))
      × (step_kind (forward a) ≡ forward_kind)
      × (step_kind (compensation (compensation_of a)) ≡ compensation_kind)
      × (compensation_of a ≡ compensation_of b → a ≡ b)
unfolding step_service step_kind compensation_of
compensation_of_pairing a b = (ground arith, ground arith, ground arith, compensation_of_inj a b)

ordinal_of_name : String → ℕ
ordinal_of_name n =
    if n == "CREATE_ORDER"
    then 1
    else if n == "RESERVE_INVENTORY"
    then 2
    else if n == "CHARGE_PAYMENT"
    then 3
    else if n == "CREATE_SHIPMENT"
    then 4
    else if n == "CANCEL_ORDER"
    then 5
    else if n == "RELEASE_INVENTORY"
    then 6
    else if n == "REFUND_PAYMENT"
    then 7
    else 8

ordinal_of_name-step_name : (s : Step) → ordinal_of_name (step_name s) ≡ step_ordinal s
unfolding ordinal_of_name step_name
ordinal_of_name-step_name (forward create_order) = refl
ordinal_of_name-step_name (forward reserve_inventory) = refl
ordinal_of_name-step_name (forward charge_payment) = refl
ordinal_of_name-step_name (forward create_shipment) = refl
ordinal_of_name-step_name (compensation cancel_order) = refl
ordinal_of_name-step_name (compensation release_inventory) = refl
ordinal_of_name-step_name (compensation refund_payment) = refl
ordinal_of_name-step_name (compensation cancel_shipment) = refl

step_ordinal_inj : (a b : Step) → step_ordinal a ≡ step_ordinal b → a ≡ b
step_ordinal_inj a b h = ground arith

pub step_name_inj : (a b : Step) → step_name a ≡ step_name b → a ≡ b
step_name_inj a b h =
    step_ordinal_inj a b
      (sym (ordinal_of_name-step_name a) ∙ ap ordinal_of_name h ∙ ordinal_of_name-step_name b)

or_else : Option String → Option String → Option String
or_else (some s) d = some s
or_else none d = d

-- What follows the last colon of a text.
after_colon : String → Option String
after_colon String.[] = none
after_colon (String.◌∷◌ c s) =
    or_else (after_colon s) (if nat_eq (code c) b':' then some s else none)

after_colon-append :
    (o t : String) {r : String} → after_colon t ≡ some r → after_colon (String.◌++◌ o t) ≡ some r
unfolding after_colon or_else
after_colon-append String.[] t h = rw (nil-append t) h
after_colon-append (String.◌∷◌ c o) t h =
    rw (cons-append c o t) (rw (after_colon-append o t h, or_else))

after_colon-step_name :
    (s : Step) → after_colon (String.◌++◌ ":" (step_name s)) ≡ some (step_name s)
unfolding after_colon or_else step_name
after_colon-step_name (forward create_order) = refl
after_colon-step_name (forward reserve_inventory) = refl
after_colon-step_name (forward charge_payment) = refl
after_colon-step_name (forward create_shipment) = refl
after_colon-step_name (compensation cancel_order) = refl
after_colon-step_name (compensation release_inventory) = refl
after_colon-step_name (compensation refund_payment) = refl
after_colon-step_name (compensation cancel_shipment) = refl

after_colon-key : (o : String) (s : Step) → after_colon (idempotency_key o s) ≡ some (step_name s)
unfolding idempotency_key
after_colon-key o s = after_colon-append o (String.◌++◌ ":" (step_name s)) (after_colon-step_name s)

some_inj : {a b : String} → some a ≡ some b → a ≡ b
some_inj h = cc

key_step : (o o' : String) (s s' : Step) → idempotency_key o s ≡ idempotency_key o' s' → s ≡ s'
key_step o o' s s' h =
    step_name_inj s s'
      (some_inj (sym (after_colon-key o s) ∙ ap after_colon h ∙ after_colon-key o' s'))

key_order : (o o' : String) (s : Step) → idempotency_key o s ≡ idempotency_key o' s → o ≡ o'
unfolding idempotency_key
key_order o o' s h = append_cancel_right o o' (String.◌++◌ ":" (step_name s)) h

-- Equal idempotency keys come from the same order id and the same step.
pub idempotency_key_inj :
    (o o' : String) (s s' : Step)
    → idempotency_key o s ≡ idempotency_key o' s'
    → (o ≡ o') × (s ≡ s')
idempotency_key_inj o o' s s' h =
    let e : s ≡ s' = key_step o o' s s' h in
    (key_order o o' s (h ∙ ap (idempotency_key o') (sym e)), e)
