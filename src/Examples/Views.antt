-- ===== src/Examples/Views.antt =====
-- The view of the orders at concrete values.
use order_saga.Prelude.{◌≡◌, refl, none, some, [], ◌∷◌}
use order_saga.Shared.Types.{shipped}
use order_saga.Coordinator.Queries.{OrderListPage}
use order_saga.Web.OrderList.{
  ListOptions, View, ViewRun, new_view, opened, on_status, on_answer, load, load_next, set_status,
  list_options,
}
use order_saga.Web.OrderList.Current.{in_order, view-settled}

-- The server has 7 orders of each status and 9 in all.
abbrev answers : ListOptions → OrderListPage
answers o = record {
  items = [];
  total = elim o.status [ none ↦ 9 | some s ↦ 7 ];
  page = o.page;
  page_size = o.page_size;
}

-- The filter is set while the first load is under way.
abbrev filtered : View
filtered = set_status (some shipped) new_view

abbrev all_orders : ListOptions
all_orders = record { status = none; page = 1; page_size = 25 }

abbrev shipped_orders : ListOptions
shipped_orders = record all_orders { status = some shipped }

abbrev first_answer : View
first_answer = load_next (answers all_orders) (shipped_orders ∷ []) filtered

abbrev second_answer : View
second_answer = load_next (answers shipped_orders) [] first_answer

both_answered : ViewRun answers in_order second_answer
unfolding new_view set_status load load_next
both_answered =
    on_answer [] [] shipped_orders
      (on_answer [] (shipped_orders ∷ []) all_orders (on_status (some shipped) (opened refl) refl)
        refl refl refl)
      refl refl refl

view-settled_example :
    (second_answer.orders ≡ (answers (list_options second_answer)).items)
    × (second_answer.total ≡ (answers (list_options second_answer)).total)
unfolding new_view set_status load load_next
view-settled_example = view-settled answers both_answered refl refl
