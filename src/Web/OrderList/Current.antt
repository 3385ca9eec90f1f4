-- ===== src/Web/OrderList/Current.antt =====
-- Proofs about the list that is shown, the filter and the page.
use order_saga.Prelude.{
  ℕ, ◌≡◌, ◌≢◌, refl, sym, ap, subst, ◌∙◌, ◌⊎◌, inl, inr, String, Bool, true, false, ◌||◌, none,
  List, [], ◌∷◌, ◌++◌, ltb, Bool-cases,
}
use order_saga.Coordinator.Queries.{OrderListPage}
use order_saga.Web.OrderList.{
  ListOptions, View, list_options, total_pages, load, load_next, load_error, set_status, go_to,
  toggle_auto_refresh, on_timer, act, act_next, act_error, blank_view, new_view, ViewRun, opened,
  on_status, on_page, on_toggle, on_interval, on_act, on_act_next, on_act_error, on_answer,
  on_failure,
}

-- Responses come in the order of the requests.
abbrev pub in_order : List ListOptions → Bool
in_order [] = true
in_order (q ∷ qs) = false

module _ (answers : ListOptions → OrderListPage) where
  abbrev IsShown : View → Type 0
  IsShown v =
      (v.orders ≡ (answers (list_options v)).items) × (v.total ≡ (answers (list_options v)).total)

  -- The newest request asks for what the view stands at; if none is left, its answer is shown.
  abbrev IsCurrent : View → Type 0
  IsCurrent v =
      ((older : List ListOptions) × (v.requests ≡ older ++ list_options v ∷ []))
      ⊎ ((v.requests ≡ []) × (IsShown v ⊎ (v.error ≢ none)))

  load-IsCurrent : (v : View) → IsCurrent (load v)
  unfolding load
  load-IsCurrent v = inl (v.requests, refl)

  go_to-IsCurrent : (page : ℕ) (v : View) → IsCurrent v → IsCurrent (go_to page v)
  unfolding go_to
  go_to-IsCurrent page v h = elim (Bool-cases (ltb page 1 || ltb (total_pages v) page)) [
    | inl refused ↦ rw (refused, go_to) h
    | inr allowed ↦ rw (allowed, go_to) (load-IsCurrent (record v { page = page }))
  ]

  on_timer-IsCurrent : (v : View) → IsCurrent v → IsCurrent (on_timer v)
  unfolding on_timer
  on_timer-IsCurrent v h = elim (Bool-cases v.auto_refresh) [
    | inl on ↦ rw (on, on_timer) (load-IsCurrent v)
    | inr off ↦ rw (off, on_timer) h
  ]

  act_error-IsCurrent :
      (message : String) (v : View) → IsCurrent v → IsCurrent (act_error message v)
  unfolding act_error
  act_error-IsCurrent message v (inl newest) = inl newest
  act_error-IsCurrent message v (inr (nothing, shown)) = inr (nothing, inr (λ e. absurd (cc)))

  -- The first request of those that end with the newest.
  first_of :
      (older left : List ListOptions) (q new : ListOptions)
      → older ++ new ∷ [] ≡ q ∷ left
      → ((q ≡ new) × (left ≡ [])) ⊎ ((rest : List ListOptions) × (left ≡ rest ++ new ∷ []))
  first_of [] left q new e = inl (cc, cc)
  first_of (o ∷ older) left q new e = inr (older, cc)

  -- A response in order leaves the newest request the last, or it is the newest's.
  left_after :
      (v : View) (before after : List ListOptions) (q : ListOptions)
      → IsCurrent v
      → in_order before ≡ true
      → v.requests ≡ before ++ q ∷ after
      → ((q ≡ list_options v) × (before ++ after ≡ []))
        ⊎ ((older : List ListOptions) × (before ++ after ≡ older ++ list_options v ∷ []))
  left_after v (b ∷ before) after q h ordered e = absurd (cc)
  left_after v [] after q (inl (older, newest)) ordered e =
      first_of older after q (list_options v) (sym newest ∙ e)
  left_after v [] after q (inr (nothing, shown)) ordered e = absurd (none_pending (sym nothing ∙ e))
    where
      none_pending : ◌≡◌ {A = List ListOptions} [] (q ∷ after) → ⊥
      none_pending h = absurd (cc)

  load_next-IsCurrent :
      (v : View) (before after : List ListOptions) (q : ListOptions)
      → IsCurrent v
      → in_order before ≡ true
      → v.requests ≡ before ++ q ∷ after
      → IsCurrent (load_next (answers q) (before ++ after) v)
  unfolding load_next
  load_next-IsCurrent v before after q h ordered e =
      elim (left_after v before after q h ordered e) [
        | inl (newest, done) ↦
            inr (done, inl (ap (λ x. (answers x).items) newest, ap (λ x. (answers x).total) newest))
        | inr rest ↦ inl rest
      ]

  load_error-IsCurrent :
      (message : String) (v : View) (before after : List ListOptions) (q : ListOptions)
      → IsCurrent v
      → in_order before ≡ true
      → v.requests ≡ before ++ q ∷ after
      → IsCurrent (load_error message (before ++ after) v)
  unfolding load_error
  load_error-IsCurrent message v before after q h ordered e =
      elim (left_after v before after q h ordered e) [
        | inl (newest, done) ↦ inr (done, inr (λ x. absurd (cc)))
        | inr rest ↦ inl rest
      ]

  ViewRun-IsCurrent : {v : View} → ViewRun answers in_order v → IsCurrent v
  unfolding new_view set_status toggle_auto_refresh act act_next
  ViewRun-IsCurrent (opened e) = subst IsCurrent (sym e) (load-IsCurrent blank_view)
  ViewRun-IsCurrent (on_status {v} status run e) =
      subst IsCurrent (sym e) (load-IsCurrent (record v { status_filter = status; page = 1 }))
  ViewRun-IsCurrent (on_page {v} page run e) =
      subst IsCurrent (sym e) (go_to-IsCurrent page v (ViewRun-IsCurrent run))
  ViewRun-IsCurrent (on_toggle run e) = subst IsCurrent (sym e) (ViewRun-IsCurrent run)
  ViewRun-IsCurrent (on_interval {v} run e) =
      subst IsCurrent (sym e) (on_timer-IsCurrent v (ViewRun-IsCurrent run))
  ViewRun-IsCurrent (on_act order_id run e) = subst IsCurrent (sym e) (ViewRun-IsCurrent run)
  ViewRun-IsCurrent (on_act_next {v} run e) =
      subst IsCurrent (sym e) (load-IsCurrent (record v { busy_order_id = none }))
  ViewRun-IsCurrent (on_act_error {v} message run e) =
      subst IsCurrent (sym e) (act_error-IsCurrent message v (ViewRun-IsCurrent run))
  ViewRun-IsCurrent (on_answer {v} before after q run ordered e f) =
      subst IsCurrent (sym f)
        (load_next-IsCurrent v before after q (ViewRun-IsCurrent run) ordered e)
  ViewRun-IsCurrent (on_failure {v} before after q message run ordered e f) =
      subst IsCurrent (sym f)
        (load_error-IsCurrent message v before after q (ViewRun-IsCurrent run) ordered e)

  -- If the responses come in the order of the requests and the server's answers stay the same: once
  -- no load is without a response and no error is shown, the view shows the server's answer for the
  -- filter and the page that it stands at.
  pub view-settled :
      {v : View}
      → ViewRun answers in_order v
      → v.requests ≡ []
      → v.error ≡ none
      → (v.orders ≡ (answers (list_options v)).items) × (v.total ≡ (answers (list_options v)).total)
  view-settled {v} run nothing fine = elim (ViewRun-IsCurrent run) [
    | inl (older, newest) ↦ absurd (no_newest older (sym nothing ∙ newest))
    | inr (done, inl shown) ↦ shown
    | inr (done, inr failed) ↦ absurd (failed fine)
  ]
    where
      no_newest :
          (older : List ListOptions)
          → ◌≡◌ {A = List ListOptions} [] (older ++ list_options v ∷ [])
          → ⊥
      no_newest [] h = absurd (cc)
      no_newest (o ∷ older) h = absurd (cc)
