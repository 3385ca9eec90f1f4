-- ===== src/Coordinator/Delivery/Kept.antt =====
-- Proofs about one request, whatever becomes of it.
use order_saga.Prelude.{
  ℕ, ℤ, ◌≡◌, refl, sym, ap, subst, ◌∙◌, inl, inr, String, true, false, Option, none, some, List, [],
  ◌∷◌, ◌==◌, Bool-cases, Option-cases,
}
use order_saga.Shared.Types.{Step, Data, StepRequestBody, idempotency_key}
use order_saga.Shared.Errors.{Thrown, business_rule}
use order_saga.Shared.Exec.{Result, ok, err, Exec}
use order_saga.Shared.Idempotency.{
  Service, IdempotencyContext, IdempotentResult, default_options, run_idempotent, statement,
}
use order_saga.Shared.Idempotency.Growth.{IsCacheSound}
use order_saga.Shared.Idempotency.Replay.{run_idempotent-IsCacheSound}
use order_saga.Shared.Idempotency.Retries.{
  advance, advance-IsCacheSound, IsOneRun, IsOneRun-trans, call-IsOneRun,
}
use order_saga.Shared.Http.{HttpRequest, HttpResponse}
use order_saga.Shared.Service.{
  object, StepHandler, register_step, run_step, after_validation, after_injection, validate_body,
  validate_object, string_or_null, respond, assert_no_injected_failure,
}
use order_saga.Coordinator.Delivery.{
  to_raw, text_or_js_null, Delivery, Net, replied, handle_request, deliver, net_fetch,
}

text_back : (t : Option String) → string_or_null (text_or_js_null t) ≡ t
text_back none = refl
text_back (some s) = refl

-- The service reads the request that the coordinator sent, if it names an order.
pub validate_body-to_raw :
    (digits : ℤ → String) (body : StepRequestBody)
    → (body.order_id == "") ≡ false
    → validate_body (object (to_raw digits body)) ≡ ok body
unfolding validate_body validate_object to_raw
validate_body-to_raw digits body named =
    rw named (ap ok (rw (text_back body.fail_at, text_back body.comp_fail_at) refl))

-- A body that the service has read is the one that was sent.
read_is_sent :
    (digits : ℤ → String) (body read : StepRequestBody)
    → validate_body (object (to_raw digits body)) ≡ ok read
    → read ≡ body
unfolding validate_body validate_object to_raw
read_is_sent digits body read e = elim (Bool-cases (body.order_id == "")) [
  | inr named ↦ ok_inj (sym e ∙ validate_body-to_raw digits body named)
  | inl empty ↦ absurd (refused empty)
]
  where
    ok_inj : {a b : StepRequestBody} → ◌≡◌ {A = Result StepRequestBody} (ok a) (ok b) → a ≡ b
    ok_inj h = cc

    refused : (body.order_id == "") ≡ true → ⊥
    refused empty =
        let refusal : validate_body (object (to_raw digits body))
            ≡ err (business_rule "orderId is required") =
          rw empty refl in
        clash (sym refusal ∙ e)
      where
        clash : {x : Thrown} → ◌≡◌ {A = Result StepRequestBody} (err x) (ok read) → ⊥
        clash h = absurd (cc)

respond-state :
    {D : Type 0} (step : Step) (order_id : String) (r : Result IdempotentResult × Service D)
    → (respond step order_id r).1 ≡ r.1
respond-state step order_id (ok r, s) = refl
respond-state step order_id (err e, s) = refl

-- Work that throws instead has done nothing.
broken-IsOneRun :
    {D : Type 0} (ctx : IdempotencyContext) (work : Exec D Data) (broken : Option Thrown)
    (s t : Service D)
    → IsOneRun ctx default_options (statement broken work) s t
    → IsOneRun ctx default_options work s t
broken-IsOneRun ctx work none s t h = h
broken-IsOneRun ctx work (some e) s t (inl same) = inl same
broken-IsOneRun {D = D} ctx work (some e) s t (inr (free, done)) = absurd (threw done.1)
  where
    threw : {r : Data} → ◌≡◌ {A = Result Data × D} (err e, s.domain) (ok r, t.domain) → ⊥
    threw h = absurd (cc)

abbrev pub context_of : Step → StepRequestBody → IdempotencyContext
context_of step body = record {
  key = idempotency_key body.order_id step;
  operation = step;
  order_id = body.order_id;
}

module _ {D : Type 0} (digits : ℤ → String) (step : Step) (handler : StepHandler D)
    (body : StepRequestBody) (s0 : Service D) where
  -- The operation has been done at most once since `s0`.
  abbrev pub IsKept : Service D → Type 0
  IsKept s = IsOneRun (context_of step body) default_options (handler body) s0 s × IsCacheSound s

  run_step-IsKept :
      (d : Delivery) (s : Service D)
      → IsKept s
      → IsKept (run_step step (λ b. statement d.broken (handler b)) d.faults body s).1
  unfolding run_step
  run_step-IsKept d s h =
      let ctx = context_of step body in
      let work = statement d.broken (handler body) in
      let next = (run_idempotent ctx default_options d.faults work s).1 in
      subst IsKept
        (sym
          (respond-state step body.order_id (run_idempotent ctx default_options d.faults work s)))
        (
          IsOneRun-trans ctx default_options (handler body) s0 s next h.0 (
              broken-IsOneRun ctx (handler body) d.broken s next
                (call-IsOneRun ctx default_options work d.faults s h.1)),
          (run_idempotent-IsCacheSound ctx default_options d.faults work s h.1).0,
        )

  injection-IsKept :
      (d : Delivery) (r : Result (Unit {0})) (s : Service D)
      → IsKept s
      → IsKept (after_injection step (λ b. statement d.broken (handler b)) d.faults body r s).1
  injection-IsKept d (ok u) s h = run_step-IsKept d s h
  injection-IsKept d (err e) s h = h

  validation-IsKept :
      (d : Delivery) (v : Result StepRequestBody) (s : Service D)
      → ((read : StepRequestBody) → v ≡ ok read → read ≡ body)
      → IsKept s
      → IsKept (after_validation step (λ b. statement d.broken (handler b)) d.faults v s).1
  validation-IsKept d (ok read) s sent h =
      subst
        (λ b.
          IsKept
            (after_injection step (λ x. statement d.broken (handler x)) d.faults b
              (assert_no_injected_failure step b) s).1)
        (sym (sent read refl)) (injection-IsKept d (assert_no_injected_failure step body) s h)
  validation-IsKept d (err e) s sent h = h

  pub advance-IsKept : (ms : ℕ) (s : Service D) → IsKept s → IsKept (advance ms s)
  advance-IsKept ms s h = (h.0, advance-IsCacheSound ms s h.1)

  replied-IsKept :
      (e : Option Thrown) (r : HttpResponse) (net : Net D)
      → IsKept net.service
      → IsKept (replied e (r, net)).1.service
  replied-IsKept none r net h = h
  replied-IsKept (some e) r net h = h

  deliver-IsKept :
      (r : HttpRequest) (d : Delivery) (rest : List Delivery) (s : Service D)
      → r.body ≡ body
      → IsKept s
      → IsKept (deliver digits step handler r d rest s).1.service
  unfolding deliver handle_request register_step
  deliver-IsKept r d rest s e h = elim (Option-cases d.lost) [
    | inr (x, lost) ↦ rw (lost, deliver) h
    | inl arrives ↦
        rw (arrives, e, deliver)
          (replied-IsKept d.reply_lost _ _ (
            validation-IsKept d (validate_body (object (to_raw digits body))) s
              (read_is_sent digits body) h))
  ]

  pub net_fetch-IsKept :
      (r : HttpRequest) (net : Net D)
      → r.body ≡ body
      → IsKept net.service
      → IsKept (net_fetch digits step handler r net).1.service
  unfolding net_fetch
  net_fetch-IsKept r net e h = from_list net.deliveries refl
    where
      from_list :
          (ds : List Delivery)
          → net.deliveries ≡ ds
          → IsKept (net_fetch digits step handler r net).1.service
      from_list [] q = rw (q, net_fetch) h
      from_list (d ∷ ds) q =
          rw (q, net_fetch)
            (deliver-IsKept r d ds (advance d.delay_ms net.service) e
              (advance-IsKept d.delay_ms net.service h))
