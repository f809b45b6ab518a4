-- ===== src/Service/Orders.antt =====
-- internal/service/orders.go: how the filter and the sort of a request reach the repository.
pub mod Mapping
pub mod Listing
pub mod Reference
pub mod Loading
pub mod Belonging
pub mod Refinement
pub mod Pages
pub mod Returning
use magento2_customer_graphq.Base.{Option, none, some, List, [], ◌∷◌}
use magento2_customer_graphq.Base.Text.{Text, text}
use magento2_customer_graphq.Model.Orders.{
  FilterStringTypeInput, FilterRangeTypeInput, FilterEqualTypeInput, CustomerOrdersFilterInput,
  CustomerOrderSortInput,
}
use magento2_customer_graphq.Repository.Orders.{OrderFilter, OrderSort}

-- The entries that are not nil.
unfoldable pub non_nil : List (Option Text) → List Text
non_nil [] = []
non_nil (none ∷ vs) = non_nil vs
non_nil (some v ∷ vs) = v ∷ non_nil vs

abbrev no_filter : OrderFilter
no_filter = record {
  number_eq = none;
  number_match = none;
  number_in = [];
  date_from = none;
  date_to = none;
  status_eq = none;
  status_in = [];
  grand_total_from = none;
  grand_total_to = none;
}

abbrev with_number : Option FilterStringTypeInput → OrderFilter → OrderFilter
with_number none f = f
with_number (some n) f = record f {
  number_eq = n.eq;
  number_match = n.match_;
  number_in = non_nil n.in_;
}

abbrev with_order_date : Option FilterRangeTypeInput → OrderFilter → OrderFilter
with_order_date none f = f
with_order_date (some d) f = record f { date_from = d.from; date_to = d.to }

abbrev with_status : Option FilterEqualTypeInput → OrderFilter → OrderFilter
with_status none f = f
with_status (some s) f = record f { status_eq = s.eq; status_in = non_nil s.in_ }

abbrev with_grand_total : Option FilterRangeTypeInput → OrderFilter → OrderFilter
with_grand_total none f = f
with_grand_total (some g) f = record f { grand_total_from = g.from; grand_total_to = g.to }

unfoldable pub map_filter : Option CustomerOrdersFilterInput → Option OrderFilter
unfolding non_nil
map_filter none = none
map_filter (some f) = some (
    with_grand_total f.grand_total
      (with_status f.status (with_order_date f.order_date (with_number f.number no_filter))))

abbrev sort_of : Option Text → Option Text → Option Text → OrderSort
sort_of (some d) _ _ = record { field = text "order_date"; direction = d }
sort_of none (some d) _ = record { field = text "number"; direction = d }
sort_of none none (some d) = record { field = text "grand_total"; direction = d }
sort_of none none none = record { field = text ""; direction = text "" }

unfoldable pub map_sort : Option CustomerOrderSortInput → Option OrderSort
map_sort none = none
map_sort (some s) = some (sort_of s.order_date s.number s.grand_total)
