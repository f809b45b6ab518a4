-- ===== src/Tests/Listing.antt =====
-- The orders of a customer at the shop of the tests.
use magento2_customer_graphq.Go.Int.{pos, negsuc, int64, quot}
use magento2_customer_graphq.Go.Strconv.{itoa}
use magento2_customer_graphq.Repository.Sql.{select}
use magento2_customer_graphq.Repository.Orders.Parts.{
  get_items, get_addresses, get_payments, get_invoices, get_shipments, get_credit_memos,
  get_comments, get_invoice_items, scan_item,
}
use magento2_customer_graphq.Base.{
  ℕ, ◌-◌, ◌^◌, ◌≡◌, ◌≢◌, refl, true, none, some, List, [], ◌∷◌, length, map, arith,
}
use mathlib.Core.List.{Permᴰ}
use mathlib.Core.List.Permᴰ
use magento2_customer_graphq.Base.Text.{Text, text, text_eq}
use magento2_customer_graphq.World.{World}
use magento2_customer_graphq.World.Monad.{ok}
use magento2_customer_graphq.Model.Orders.{CustomerOrder, CustomerOrders}
use magento2_customer_graphq.Repository.Orders.{OrderFilter, offset}
use magento2_customer_graphq.Repository.Orders.Conditions.{
  matches, page_of, conditions, find_by_customer_id,
}
use magento2_customer_graphq.Repository.Orders.Labels.{get_status_label, labels_in}
use magento2_customer_graphq.Repository.Orders.Unlabelled.{labels_never_loaded}
use magento2_customer_graphq.Service.Orders.Returning.{get_orders_returns}
use magento2_customer_graphq.Service.Orders.{map_filter, map_sort}
use magento2_customer_graphq.Service.Orders.Listing.{get_orders, page_count, map_order}
use magento2_customer_graphq.Service.Orders.Reference.{result_of}
use magento2_customer_graphq.Service.Orders.Refinement.{get_orders-result_of}
use magento2_customer_graphq.Service.Orders.Pages.{
  Reorders, ListsOwn, get_orders-ListsOwn, page_past_last,
}
use magento2_customer_graphq.Tests.Data.{shop, shop_env}

abbrev kept_order : Reorders shop_env
kept_order column direction rows = Permᴰ.refl rows

-- What the first page of the customer 7 shows of an order: its number, its status and its items.
abbrev shown : CustomerOrder → Text × Text × List Text
shown o = (o.number, o.status, map (λ i. i.id) o.items)

abbrev numbers : List CustomerOrder → List (Text × Text × List Text)
numbers os = map shown os

abbrev first_page : CustomerOrders
first_page =
    result_of shop_env shop.sales shop.sales.status_labels 1 20
      (page_of shop_env 7 none none 1 20 shop.sales) 2

listing_test :
    numbers first_page.items
    ≡ (text "100", text "Pending", text "1" ∷ text "4" ∷ [])
      ∷ (text "102", text "Pending", text "3" ∷ [])
      ∷ []
unfolding select conditions map_order itoa text_eq scan_item offset
listing_test = refl

after : World
after = (get_orders shop_env 7 none none 1 20 shop).1

first_page_returned : get_orders shop_env 7 none none 1 20 shop ≡ (ok first_page, after)
unfolding page_count offset int64 get_orders find_by_customer_id map_filter get_items get_addresses
    get_payments get_invoices get_shipments get_credit_memos get_comments get_invoice_items
    get_status_label after
first_page_returned = refl

get_orders-result_of_example :
    (◌≢◌ {A = ℕ} 7 0)
    × (first_page
        ≡ result_of shop_env shop.sales
            (labels_in after)
            1
            20
            (page_of shop_env 7 (map_filter none) (map_sort none) 1 20 shop.sales)
            (length (matches shop_env 7 (map_filter none) shop.sales)))
get_orders-result_of_example =
    get_orders-result_of shop_env 7 none none 1 20 shop first_page after first_page_returned

get_orders-ListsOwn_example : ListsOwn shop_env shop after 7 none 20 first_page
get_orders-ListsOwn_example =
    get_orders-ListsOwn shop_env kept_order 7 none none 1 20 shop first_page after
      first_page_returned

-- The page after the last one, of two orders to a page.
abbrev past_page : CustomerOrders
past_page = result_of shop_env shop.sales [] 2 2 (page_of shop_env 7 none none 2 2 shop.sales) 2

after_past : World
after_past = (get_orders shop_env 7 none none 2 2 shop).1

past_page_returned : get_orders shop_env 7 none none 2 2 shop ≡ (ok past_page, after_past)
unfolding offset int64 get_orders find_by_customer_id map_filter after_past
past_page_returned = refl

two_match : length (matches shop_env 7 (map_filter none) shop.sales) ≡ 2
unfolding select conditions map_filter
two_match = refl

page_past_last_example :
    (past_page.items ≡ []) × (past_page.total_count ≡ 0) × (past_page.total_pages ≡ pos 0)
page_past_last_example =
    page_past_last shop_env kept_order 7 none none 2 2 shop past_page after_past (omega arith)
      (omega (arith, two_match)) past_page_returned

-- The offset and the number of pages leave the integers of 64 bits.
wrapped_test :
    (offset 3 (2 ^ 62) ≡ negsuc (2 ^ 63 - 1))
    × (page_count 2 (2 ^ 63 - 1) ≡ negsuc 0)
    × (offset 5 (2 ^ 62) ≡ pos 0)
unfolding offset page_count int64 quot
wrapped_test = (refl, refl, refl)

abbrev one_filter : OrderFilter
one_filter = record {
  number_eq = none;
  number_match = some (text "10");
  number_in = [];
  date_from = none;
  date_to = none;
  status_eq = some (text "pending");
  status_in = [];
  grand_total_from = none;
  grand_total_to = none;
}

abbrev failing_shop : World
failing_shop = record shop { faults = true ∷ [] }

labels_never_loaded_example :
    (v : World) × (get_status_label (text "pending") failing_shop ≡ (ok (text "pending"), v))
    × ((later : Text) → get_status_label later v ≡ (ok later, v))
labels_never_loaded_example = labels_never_loaded (text "pending") failing_shop refl refl

get_orders_returns_example :
    (v : World) × (get_orders shop_env 7 none none 1 20 shop ≡ (
      ok (
          result_of shop_env shop.sales
            (labels_in v)
            1
            20
            (page_of shop_env 7 (map_filter none) (map_sort none) 1 20 shop.sales)
            (length (matches shop_env 7 (map_filter none) shop.sales))),
      v,
    ))
get_orders_returns_example =
    get_orders_returns shop_env 7 none none 1 20 shop refl (λ e. omega (arith, e))
      (λ e. omega (arith, e)) (omega arith) (λ t n. refl)
