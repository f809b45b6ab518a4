-- ===== src/History/Orders.antt =====
-- `GetOrders` of internal/service/orders.go leaves `customer_address_entity` and `customer_entity` alone.
use magento2_customer_graphq.Base.{ℕ, refl, Option, List, [], ◌∷◌, arith, ◌==◌}
use magento2_customer_graphq.Errors.{
  not_authenticated, fetch_orders, items, addresses, payments, invoices, invoice_items, shipments,
  shipment_items, shipment_tracks, credit_memos, credit_memo_items, comments,
}
use magento2_customer_graphq.World.{World}
use magento2_customer_graphq.World.Orders.{OrderData}
use magento2_customer_graphq.World.Monad.{Action, fail_if, within}
use magento2_customer_graphq.World.Monad.Frame.{Keeps, >>=-Keeps}
use magento2_customer_graphq.Env.{Env}
use magento2_customer_graphq.Model.Orders.{CustomerOrdersFilterInput, CustomerOrderSortInput}
use magento2_customer_graphq.Repository.Orders.{OrderFilter, OrderSort}
use magento2_customer_graphq.Repository.Orders.Conditions.{find_by_customer_id}
use magento2_customer_graphq.Repository.Orders.Parts.{
  Groups, load, get_items, get_addresses, get_payments, get_invoices, get_invoice_items,
  get_shipments, get_shipment_items, get_shipment_tracks, get_credit_memos, get_credit_memo_items,
  get_comments,
}
use magento2_customer_graphq.Repository.Orders.Labels.{get_status_label}
use magento2_customer_graphq.Service.Orders.{map_filter, map_sort}
use magento2_customer_graphq.Service.Orders.Listing.{
  Parts, ids_in, load_some, load_parts, map_orders, list_orders, get_orders, order_ids,
}
use magento2_customer_graphq.History.Statements.{
  the_rows, reads, then_reads, comments-Keeps, get_status_label-Keeps,
}

get_items-Keeps : (ids : List ℕ) → Keeps the_rows (get_items ids)
unfolding get_items load
get_items-Keeps [] w = refl
get_items-Keeps (i ∷ is) w = ground arith

get_addresses-Keeps : (ids : List ℕ) → Keeps the_rows (get_addresses ids)
unfolding get_addresses load
get_addresses-Keeps [] w = refl
get_addresses-Keeps (i ∷ is) w = ground arith

get_payments-Keeps : (ids : List ℕ) → Keeps the_rows (get_payments ids)
unfolding get_payments load
get_payments-Keeps [] w = refl
get_payments-Keeps (i ∷ is) w = ground arith

get_invoices-Keeps : (ids : List ℕ) → Keeps the_rows (get_invoices ids)
unfolding get_invoices load
get_invoices-Keeps [] w = refl
get_invoices-Keeps (i ∷ is) w = ground arith

get_invoice_items-Keeps : (ids : List ℕ) → Keeps the_rows (get_invoice_items ids)
unfolding get_invoice_items load
get_invoice_items-Keeps [] w = refl
get_invoice_items-Keeps (i ∷ is) w = ground arith

get_shipments-Keeps : (ids : List ℕ) → Keeps the_rows (get_shipments ids)
unfolding get_shipments load
get_shipments-Keeps [] w = refl
get_shipments-Keeps (i ∷ is) w = ground arith

get_shipment_items-Keeps : (ids : List ℕ) → Keeps the_rows (get_shipment_items ids)
unfolding get_shipment_items load
get_shipment_items-Keeps [] w = refl
get_shipment_items-Keeps (i ∷ is) w = ground arith

get_shipment_tracks-Keeps : (ids : List ℕ) → Keeps the_rows (get_shipment_tracks ids)
unfolding get_shipment_tracks load
get_shipment_tracks-Keeps [] w = refl
get_shipment_tracks-Keeps (i ∷ is) w = ground arith

get_credit_memos-Keeps : (ids : List ℕ) → Keeps the_rows (get_credit_memos ids)
unfolding get_credit_memos load
get_credit_memos-Keeps [] w = refl
get_credit_memos-Keeps (i ∷ is) w = ground arith

get_credit_memo_items-Keeps : (ids : List ℕ) → Keeps the_rows (get_credit_memo_items ids)
unfolding get_credit_memo_items load
get_credit_memo_items-Keeps [] w = refl
get_credit_memo_items-Keeps (i ∷ is) w = ground arith

load_some-Keeps :
    {A : Type 0} (ids : List ℕ) (m : Action (Groups A))
    → Keeps the_rows m
    → Keeps the_rows (load_some ids m)
load_some-Keeps [] m h = λ w. refl
load_some-Keeps (i ∷ is) m h = h

module _ (env : Env) where
  load_parts_kept :
      {P : Type 0} (part : World → P)
      → ((A : Type 0) (m : Action A) → Keeps the_rows m → Keeps part m)
      → (ids : List ℕ) → Keeps part (load_parts env ids)
  unfolding load_parts
  load_parts_kept part of_rows ids =
      >>=-Keeps part (within items (get_items ids)) _
        (of_rows _ (within items (get_items ids)) (get_items-Keeps ids))
        λ im.
          >>=-Keeps part (within addresses (get_addresses ids)) _
            (of_rows _ (within addresses (get_addresses ids)) (get_addresses-Keeps ids))
            λ am.
              >>=-Keeps part (within payments (get_payments ids)) _
                (of_rows _ (within payments (get_payments ids)) (get_payments-Keeps ids))
                λ pm.
                  >>=-Keeps part (within invoices (get_invoices ids)) _
                    (of_rows _ (within invoices (get_invoices ids)) (get_invoices-Keeps ids))
                    λ vm.
                      >>=-Keeps part (within shipments (get_shipments ids)) _
                        (of_rows _ (within shipments (get_shipments ids)) (get_shipments-Keeps ids))
                        λ sm.
                          >>=-Keeps part (within credit_memos (get_credit_memos ids)) _
                            (of_rows _ (within credit_memos (get_credit_memos ids))
                              (get_credit_memos-Keeps ids))
                            λ cm.
                              >>=-Keeps part (within comments (get_comments env ids)) _
                                (of_rows _ (within comments (get_comments env ids))
                                  (comments-Keeps env ids))
                                λ nm.
                                  let bills = ids_in (λ i. i.entity_id) vm in
                                  let parcels = ids_in (λ i. i.entity_id) sm in
                                  let memos = ids_in (λ i. i.entity_id) cm in
                                  >>=-Keeps part
                                    (load_some bills
                                      (within invoice_items (get_invoice_items bills)))
                                    _
                                    (of_rows _
                                      (load_some bills
                                        (within invoice_items (get_invoice_items bills)))
                                      (load_some-Keeps bills
                                        (within invoice_items (get_invoice_items bills))
                                        (get_invoice_items-Keeps bills)))
                                    λ _.
                                      >>=-Keeps part
                                        (load_some parcels
                                          (within shipment_items (get_shipment_items parcels)))
                                        _
                                        (of_rows _
                                          (load_some parcels
                                            (within shipment_items (get_shipment_items parcels)))
                                          (load_some-Keeps parcels
                                            (within shipment_items (get_shipment_items parcels))
                                            (get_shipment_items-Keeps parcels)))
                                        λ _.
                                          >>=-Keeps part
                                            (load_some parcels (
                                              within shipment_tracks (get_shipment_tracks parcels)))
                                            _
                                            (of_rows _
                                              (load_some parcels (
                                                within shipment_tracks
                                                  (get_shipment_tracks parcels)))
                                              (load_some-Keeps parcels
                                                (within shipment_tracks
                                                  (get_shipment_tracks parcels))
                                                (get_shipment_tracks-Keeps parcels)))
                                            λ _.
                                              >>=-Keeps part
                                                (load_some memos (
                                                  within credit_memo_items
                                                    (get_credit_memo_items memos)))
                                                _
                                                (of_rows _
                                                  (load_some memos (
                                                    within credit_memo_items
                                                      (get_credit_memo_items memos)))
                                                  (load_some-Keeps memos
                                                    (within credit_memo_items
                                                      (get_credit_memo_items memos))
                                                    (get_credit_memo_items-Keeps memos)))
                                                λ _ w. refl

  load_parts-Keeps : (ids : List ℕ) → Keeps the_rows (load_parts env ids)
  load_parts-Keeps = load_parts_kept the_rows (λ A m h. h)

  map_orders-Keeps :
      (parts : OrderData → Parts) (os : List OrderData) → Keeps the_rows (map_orders env parts os)
  unfolding map_orders
  map_orders-Keeps parts [] = λ w. refl
  map_orders-Keeps parts (o ∷ os) =
      reads (get_status_label o.status) _ (get_status_label-Keeps o.status)
        λ label. reads (map_orders env parts os) _ (map_orders-Keeps parts os) λ rest w. refl

  list_orders-Keeps :
      (page size : ℕ) (os : List OrderData) (total : ℕ)
      → Keeps the_rows (list_orders env page size os total)
  unfolding list_orders
  list_orders-Keeps page size [] total = λ w. refl
  list_orders-Keeps page size (o ∷ os) total =
      reads (load_parts env (order_ids (o ∷ os))) _ (load_parts-Keeps (order_ids (o ∷ os))) λ parts.
        reads (map_orders env parts (o ∷ os)) _ (map_orders-Keeps parts (o ∷ os)) λ mapped w. refl

  find-Keeps :
      (customer : ℕ) (filter : Option OrderFilter) (sort : Option OrderSort) (page size : ℕ)
      → Keeps the_rows (find_by_customer_id env customer filter sort page size)
  unfolding find_by_customer_id
  find-Keeps customer filter sort page size w = ground arith

  pub get_orders-Keeps :
      (customer : ℕ) (filter : Option CustomerOrdersFilterInput)
      (sort : Option CustomerOrderSortInput) (page size : ℕ)
      → Keeps the_rows (get_orders env customer filter sort page size)
  unfolding get_orders
  get_orders-Keeps customer filter sort page size =
      let find = find_by_customer_id env customer (map_filter filter) (map_sort sort) page size in
      then_reads (fail_if (customer == 0) not_authenticated) _ (λ w. refl)
        (reads (within fetch_orders find) _
          (find-Keeps customer (map_filter filter) (map_sort sort) page size)
          λ found. list_orders-Keeps page size found.0 found.1)
