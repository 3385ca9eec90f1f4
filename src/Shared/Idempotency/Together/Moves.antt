-- ===== src/Shared/Idempotency/Together/Moves.antt =====
-- Lemmas about each turn of a call.
use order_saga.Prelude.{
  ℕ, ◌≡◌, refl, sym, subst, ◌∙◌, ap, ◌⊎◌, inl, inr, true, false, Option, none, some, arith, store,
  store_self, Bool-cases, Option-cases,
}
use order_saga.Shared.Types.{Data}
use order_saga.Shared.Errors.{Thrown, operation_in_progress}
use order_saga.Shared.Exec.{ok, err, Exec}
use order_saga.Shared.Idempotency.{
  Service, IdempotencyRecord, completed, IdempotencyContext, IdempotencyOptions, IdempotentResult,
  Faults, insert_record, take_over, warm_cache, mark_completed, release_claim, is_stale, is_claimed,
  matches, changed, new_record,
}
use order_saga.Shared.Idempotency.Outcome.{stored_response, response_of_row}
use order_saga.Shared.Idempotency.Growth.{IsCacheSound, Grows-IsCacheSound, warm-Grows, store-Grows}
use order_saga.Shared.Idempotency.Retries.{IsOneRun}
use order_saga.Shared.Idempotency.Together.{
  CallPhase, begun, inserting, checking, waiting, working, failing, warming, answered, crashed,
  CallTurn, hit, miss, insert, duplicate, read_completed, read_open, take, wait_longer, commit,
  commit_lost, fail, release, warm, stop,
}
use order_saga.Shared.Idempotency.Together.Row.{
  has_claim, IsClaimedAt, Fits, IsOpen, Done, missing-Open, stale-free, renewed, renewed-free,
  stale-Open, claimed_at-free, completed_response,
}

module _ {D : Type 0} (ctx : IdempotencyContext) (options : IdempotencyOptions)
    (work : Exec D Data) where
  unmoved :
      (s s' : Service D) (p p' : CallPhase)
      → s' ≡ s
      → IsCacheSound s
      → Fits (s.records ctx.key) p'
      → (has_claim p' ≡ true → has_claim p ≡ true)
      → Done ctx options work s p s' p'
  unmoved s s' p p' e sound fits same =
      subst (λ u. Done ctx options work s p u p') (sym e)
        (inl (refl, fits, same), inl (refl, refl), sound)

  -- A record without a response is replaced by the only call that may.
  written :
      (faults : Faults) (s s' : Service D) (p p' : CallPhase) (row : Option IdempotencyRecord)
      (d : D)
      → s' ≡ record s { records = store ctx.key row s.records; domain = d }
      → IsCacheSound s
      → stored_response ctx.key s ≡ none
      → Fits row p'
      → ((has_claim p ≡ true) ⊎ IsOpen ctx options work s.clock (s.records ctx.key))
      → IsOneRun ctx options work s (record s { records = store ctx.key row s.records; domain = d })
      → Done ctx options work s p s' p'
  written faults s s' p p' row d e sound free fits alone once =
      subst (λ u. Done ctx options work s p u p') (sym e)
        (
          inr (free, subst (λ x. Fits x p') (sym (store_self ctx.key row s.records)) fits, alone),
          once,
          Grows-IsCacheSound s _
              (store-Grows ctx options faults row d s (λ x h. absurd (cc (free, h)))) sound,
        )

  insert-Done :
      (s s' : Service D) (faults : Faults)
      → insert_record ctx options faults s ≡ (ok tt, s')
      → IsCacheSound s
      → Done ctx options work s inserting s' (working s.clock)
  unfolding insert_record
  insert-Done s s' faults e sound = elim (Option-cases (s.records ctx.key)) [
    | inl free ↦
        let row = some (new_record ctx s.clock) in
        let now_ours : insert_record ctx options faults s
            ≡ (ok tt, record s { records = store ctx.key row s.records }) =
          rw (free, insert_record) refl in
        written faults s s' inserting (working s.clock) row s.domain
          (ap (λ x. x.1) (sym e ∙ now_ours)) sound (ap response_of_row free)
          (new_record ctx s.clock, refl, refl, refl)
          (inr (missing-Open ctx options work s.clock (s.records ctx.key) free))
          (inl (
            refl,
            ap response_of_row (store_self ctx.key row s.records) ∙ sym (ap response_of_row free),
          ))
    | inr (r, taken) ↦ absurd (refused r taken)
  ]
    where
      refused : (r : IdempotencyRecord) → s.records ctx.key ≡ some r → ⊥
      refused r taken = ground (arith, taken, e)

  duplicate-same :
      (s s' : Service D) (faults : Faults) (x : Thrown)
      → insert_record ctx options faults s ≡ (err x, s')
      → s' ≡ s
  unfolding insert_record
  duplicate-same s s' faults x e = ground (arith)

  take-Done :
      (s s' : Service D) (faults : Faults)
      → take_over ctx options faults s ≡ (ok 1, s')
      → IsCacheSound s
      → Done ctx options work s waiting s' (working s.clock)
  unfolding take_over
  take-Done s s' faults e sound =
      elim (Bool-cases (matches (is_stale options s.clock) (s.records ctx.key))) [
        | inl stale ↦
            let row = changed (λ r. record r { created_at = s.clock }) (s.records ctx.key) in
            let taken : take_over ctx options faults s
                ≡ (ok 1, record s { records = store ctx.key row s.records }) =
              rw (stale, take_over) refl in
            let free : stored_response ctx.key s ≡ none =
              stale-free ctx options work s.clock (s.records ctx.key) stale in
            written faults s s' waiting (working s.clock) row s.domain
              (ap (λ x. x.1) (sym e ∙ taken)) sound free
              (renewed ctx options work s.clock (s.records ctx.key) stale)
              (inr (stale-Open ctx options work s.clock (s.records ctx.key) stale))
              (inl (
                refl,
                ap response_of_row (store_self ctx.key row s.records)
                    ∙ (renewed-free ctx options work s.clock (s.records ctx.key) stale ∙ sym free),
              ))
        | inr fresh ↦ absurd (missed fresh)
      ]
    where
      missed : matches (is_stale options s.clock) (s.records ctx.key) ≡ false → ⊥
      missed fresh = ground (arith, fresh, e)

  wait-same :
      (s s' : Service D) (faults : Faults) → take_over ctx options faults s ≡ (ok 0, s') → s' ≡ s
  unfolding take_over
  wait-same s s' faults e = ground (arith)

  commit-Done :
      (faults : Faults) (s s' : Service D) (t : ℕ) (r : Data) (d : D) (p' : CallPhase)
      → work s.domain ≡ (ok r, d)
      → s' ≡ mark_completed ctx options faults r (record s { domain = d })
      → IsCacheSound s
      → IsClaimedAt t (s.records ctx.key)
      → ((row : Option IdempotencyRecord) → response_of_row row ≡ some r → Fits row p')
      → Done ctx options work s (working t) s' p'
  commit-Done faults s s' t r d p' ran e sound ours told =
      let row =
        changed (λ x. record x { status = completed r; completed_at = some s.clock })
          (s.records ctx.key) in
      let free : stored_response ctx.key s ≡ none =
        claimed_at-free ctx options work t (s.records ctx.key) ours in
      let stored : response_of_row row ≡ some r =
        completed_response ctx options work t s.clock r (s.records ctx.key) ours in
      written faults s s' (working t) p' row d e sound free (told row stored) (inl refl)
        (inr (free, (r, ran, ap response_of_row (store_self ctx.key row s.records) ∙ stored)))

  release-Done :
      (faults : Faults) (s s' : Service D) (t : ℕ) (x : Thrown)
      → s' ≡ release_claim ctx options faults s
      → IsCacheSound s
      → Done ctx options work s (failing t x) s' (answered (err x))
  unfolding release_claim
  release-Done faults s s' t x e sound = elim (Option-cases faults.release) [
    | inr (y, broken) ↦ stays (e ∙ rw (broken, release_claim) refl)
    | inl fine ↦ elim (Bool-cases (matches (λ r. is_claimed r.status) (s.records ctx.key))) [
      | inl ours ↦
          let free : stored_response ctx.key s ≡ none = open_status (s.records ctx.key) ours in
          written faults s s' (failing t x) (answered (err x)) none s.domain
            (e ∙ rw (fine, ours, release_claim) refl) sound free tt (inl refl)
            (inl (refl, ap response_of_row (store_self ctx.key none s.records) ∙ sym free))
      | inr done ↦ stays (e ∙ rw (fine, done, release_claim) refl)
    ]
  ]
    where
      stays : s' ≡ s → Done ctx options work s (failing t x) s' (answered (err x))
      stays same = unmoved s s' (failing t x) (answered (err x)) same sound tt (λ h. refl)

      open_status :
          (row : Option IdempotencyRecord)
          → matches (λ r. is_claimed r.status) row ≡ true
          → response_of_row row ≡ none
      open_status none h = refl
      open_status (some r) h = ground arith

  warm-Done :
      (faults : Faults) (s s' : Service D) (r : IdempotentResult)
      → s' ≡ warm_cache ctx options faults r.result s
      → IsCacheSound s
      → stored_response ctx.key s ≡ some r.result
      → Done ctx options work s (warming r) s' (answered (ok r))
  warm-Done faults s s' r e sound stored =
      subst (λ u. Done ctx options work s (warming r) u (answered (ok r))) (sym e)
        (
          inl (refl, stored, λ h. h),
          inl (refl, refl),
          Grows-IsCacheSound s _ (warm-Grows ctx options faults r.result s stored) sound,
        )

  pub Turn-Done :
      (s : Service D) {s' : Service D} {p p' : CallPhase}
      → CallTurn ctx options work s p s' p'
      → IsCacheSound s
      → Fits (s.records ctx.key) p
      → Done ctx options work s p s' p'
  Turn-Done s {s'} {p' = p'} (hit d found e q) sound fits =
      unmoved s s' begun p' e sound (rw q (sound.hits ctx.key d found)) (λ h. absurd (cc))
  Turn-Done s {s'} (miss e) sound fits = unmoved s s' begun inserting e sound tt (λ h. h)
  Turn-Done s {s'} (insert faults e q) sound fits = rw q (insert-Done s s' faults e sound)
  Turn-Done s {s'} (duplicate faults x e dup) sound fits =
      unmoved s s' inserting checking (duplicate-same s s' faults x e) sound tt (λ h. h)
  Turn-Done s {s'} (read_completed d stored e q) sound fits = rw q (
      unmoved s s' checking (warming (record { result = d; replayed = true })) e sound stored
        (λ h. h))
  Turn-Done s {s'} (read_open free e) sound fits = unmoved s s' checking waiting e sound tt (λ h. h)
  Turn-Done s {s'} (take faults e q) sound fits = rw q (take-Done s s' faults e sound)
  Turn-Done s {s'} (wait_longer faults e q) sound fits = rw q (
      unmoved s s' waiting (answered (err (operation_in_progress ctx.key)))
        (wait-same s s' faults e) sound tt (λ h. h))
  Turn-Done s {s'} (commit {t = t} faults r d ran e q) sound fits = rw q (
      commit-Done faults s s' t r d (warming (record { result = r; replayed = false })) ran e sound
        fits (λ row h. h))
  Turn-Done s {s'} (commit_lost {t = t} faults r d x ran e) sound fits =
      commit-Done faults s s' t r d (failing t x) ran e sound fits (λ row h. inr (r, h))
  Turn-Done s {s'} (fail {t = t} x e) sound fits =
      unmoved s s' (working t) (failing t x) e sound (inl fits) (λ h. h)
  Turn-Done s {s'} (release {t = t} {e = x} faults e q) sound fits =
      rw q (release-Done faults s s' t x e sound)
  Turn-Done s {s'} (warm {r = r} faults e q) sound fits =
      rw q (warm-Done faults s s' r e sound fits)
  Turn-Done s {s'} {p} (stop e q) sound fits =
      rw q (unmoved s s' p crashed e sound tt (λ h. absurd (cc)))
