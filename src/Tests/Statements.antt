-- ===== src/Tests/Statements.antt =====
-- The statements of one request for orders.
use magento2_customer_graphq.Base.{◌≡◌, refl, ◌++◌, Option, none, some, [], ◌∷◌}
use magento2_customer_graphq.Base.Text.{Text, text, text_eq}
use magento2_customer_graphq.Go.Int.{pos}
use magento2_customer_graphq.Go.Strings.{to_upper}
use magento2_customer_graphq.Model.Orders.{CustomerOrdersFilterInput}
use magento2_customer_graphq.Repository.Orders.{
  OrderFilter, OrderSort, int, string, where_of, when_set, when_any, and_where, in_placeholders,
  repeat, trim_right, sort_field, sort_direction, count_query, page_query, select_count,
  select_orders, order_by, offset,
}
use magento2_customer_graphq.Repository.Orders.Meaning.{Asks, queries-conjunction}
use magento2_customer_graphq.Repository.Orders.Statement.{Column, Direction}
use magento2_customer_graphq.Repository.Orders.Values.{
  queries-without_values, page_text, without_values,
}
use magento2_customer_graphq.Service.Orders.{map_filter, map_sort, non_nil}

-- Two order numbers with a null between them, and a status that tries to close its quotes.
abbrev request : CustomerOrdersFilterInput
request = record {
  number = some (record {
    eq = none;
    match_ = some (text "00");
    in_ = some (text "1") ∷ none ∷ some (text "2") ∷ [];
  });
  order_date = none;
  status = some (record { eq = some (text "' OR 1=1"); in_ = [] });
  grand_total = none;
}

abbrev filter : Option OrderFilter
unfolding map_filter non_nil
filter = map_filter (some request)

-- The sort direction is not one of the whitelist.
abbrev sort : Option OrderSort
unfolding map_sort
sort =
    map_sort
      (some (record { order_date = none; number = some (text "asc; DROP"); grand_total = none }))

clause_test :
    (where_of 7 filter).clause
    ≡ text "customer_id = ? AND increment_id LIKE ? AND increment_id IN (?,?) AND status = ?"
unfolding where_of when_set when_any and_where in_placeholders repeat trim_right map_filter non_nil
clause_test = refl

args_test :
    (where_of 7 filter).args
    ≡ int (pos 7)
      ∷ string (text "%00%")
      ∷ string (text "1")
      ∷ string (text "2")
      ∷ string (text "' OR 1=1")
      ∷ []
unfolding where_of when_set when_any and_where in_placeholders repeat trim_right map_filter non_nil
args_test = refl

sort_test : sort_field sort ++ text " " ++ sort_direction sort ≡ text "increment_id ASC"
unfolding sort_field sort_direction map_sort text_eq to_upper
sort_test = refl

queries-conjunction_example :
    Asks 7 filter select_count [] [] (count_query 7 filter)
    × Asks 7 filter select_orders
        (order_by sort ++ text " LIMIT ? OFFSET ?")
        (int (pos 20) ∷ int (offset 2 20) ∷ [])
        (page_query 7 filter sort 2 20)
queries-conjunction_example = queries-conjunction 7 filter sort 2 20

queries-without_values_example :
    ((count_query 7 filter).statement ≡ select_count ++ (where_of 0 (without_values filter)).clause)
    × ((column direction : Text) × Column column
        × Direction direction
        × ((page_query 7 filter sort 2 20).statement
            ≡ page_text (where_of 0 (without_values filter)).clause column direction))
queries-without_values_example = queries-without_values 7 filter sort 2 20
