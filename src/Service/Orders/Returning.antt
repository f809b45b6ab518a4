-- ===== src/Service/Orders/Returning.antt =====
-- `GetOrders` of internal/service/orders.go returns where no statement fails.
use magento2_customer_graphq.Base.{
  ℕ, zero, suc, refl, false, ◌-◌, ◌*◌, ◌^◌, ◌<◌, ◌≡◌, ◌≢◌, ap, ◌∙◌, Option, List, [], ◌∷◌, map,
  length, arith, ◌==◌, Option-cases, inl, inr,
}
use magento2_customer_graphq.Base.Text.{Text}
use magento2_customer_graphq.Env.{Env}
use magento2_customer_graphq.Errors.{
  database, query_orders, Context, not_authenticated, fetch_orders, items, addresses, payments,
  invoices, invoice_items, shipments, shipment_items, shipment_tracks, credit_memos,
  credit_memo_items, comments,
}
use magento2_customer_graphq.World.{World}
use magento2_customer_graphq.World.Orders.{Sales, OrderData, SalesTable}
use magento2_customer_graphq.World.Monad.{Action, ◌>>◌, gets, statement, ok, within, query, fail_if}
use magento2_customer_graphq.World.Monad.Sure.{
  IsSure, ScansAll, >>=-IsSure, pure-IsSure, within-IsSure, query-IsSure, passed-IsSure,
}
use magento2_customer_graphq.Model.Orders.{CustomerOrdersFilterInput, CustomerOrderSortInput}
use magento2_customer_graphq.Repository.Orders.{OrderFilter, OrderSort, offset}
use magento2_customer_graphq.Go.Int.{is_negative, int64-small}
use magento2_customer_graphq.Repository.Orders.Conditions.{find_by_customer_id, page_of, matches}
use magento2_customer_graphq.Repository.Orders.Parts.{
  Groups, load, scan_item, scan_invoice_item, scan_credit_memo_item, get_items, get_addresses,
  get_payments, get_invoices, get_invoice_items, get_shipments, get_shipment_items,
  get_shipment_tracks, get_credit_memos, get_credit_memo_items, get_comments,
}
use magento2_customer_graphq.Repository.Orders.Labels.{get_status_label, label_of, labels_in}
use magento2_customer_graphq.Repository.Orders.Scanning.{scan_rows-IsSure}
use magento2_customer_graphq.Service.Orders.{map_filter, map_sort}
use magento2_customer_graphq.Service.Orders.Listing.{
  Parts, ids_in, load_some, load_parts, map_orders, list_orders, get_orders, order_ids,
}
use magento2_customer_graphq.Service.Orders.Reference.{result_of}
use magento2_customer_graphq.Service.Orders.Refinement.{get_orders-result_of}

load-IsSure :
    {A : Type 0} (c scan : Context) (t : SalesTable) (id key : A → ℕ) (table : Sales → List A)
    (ids : List ℕ)
    → IsSure (load c scan t id key table ids)
unfolding load
load-IsSure c scan t id key table [] = pure-IsSure []
load-IsSure c scan t id key table (i ∷ is) =
    >>=-IsSure _ _ (scan_rows-IsSure scan t id _ (within-IsSure c (query _) (query-IsSure _)))
      (λ rows. pure-IsSure _)

get_status_label-IsSure : (status : Text) → IsSure (get_status_label status)
unfolding get_status_label
get_status_label-IsSure status w q s = elim (Option-cases w.status_labels) [
  | inl e ↦ (
    label_of w.sales.status_labels status,
    (get_status_label status w).1,
    ground arith,
    ground arith,
    λ t n. ground (arith, s t n),
  )
  | inr (labels, e) ↦ (label_of labels status, w, ground arith, q, s)
]

load_some-IsSure :
    {A : Type 0} (ids : List ℕ) (m : Action (Groups A)) → IsSure m → IsSure (load_some ids m)
load_some-IsSure [] m h = pure-IsSure []
load_some-IsSure (i ∷ is) m h = h

get_items-IsSure : (ids : List ℕ) → IsSure (get_items ids)
unfolding get_items
get_items-IsSure = load-IsSure _ _ _ (λ r. r.item_id) (λ r. r.order_id) (λ s. map scan_item s.items)

get_addresses-IsSure : (ids : List ℕ) → IsSure (get_addresses ids)
unfolding get_addresses
get_addresses-IsSure = load-IsSure _ _ _ (λ r. r.entity_id) (λ r. r.parent_id) (λ s. s.addresses)

get_payments-IsSure : (ids : List ℕ) → IsSure (get_payments ids)
unfolding get_payments
get_payments-IsSure = load-IsSure _ _ _ (λ r. r.entity_id) (λ r. r.parent_id) (λ s. s.payments)

get_invoices-IsSure : (ids : List ℕ) → IsSure (get_invoices ids)
unfolding get_invoices
get_invoices-IsSure = load-IsSure _ _ _ (λ r. r.entity_id) (λ r. r.order_id) (λ s. s.invoices)

get_shipments-IsSure : (ids : List ℕ) → IsSure (get_shipments ids)
unfolding get_shipments
get_shipments-IsSure = load-IsSure _ _ _ (λ r. r.entity_id) (λ r. r.order_id) (λ s. s.shipments)

get_credit_memos-IsSure : (ids : List ℕ) → IsSure (get_credit_memos ids)
unfolding get_credit_memos
get_credit_memos-IsSure =
    load-IsSure _ _ _ (λ r. r.entity_id) (λ r. r.order_id) (λ s. s.credit_memos)

get_invoice_items-IsSure : (ids : List ℕ) → IsSure (get_invoice_items ids)
unfolding get_invoice_items
get_invoice_items-IsSure =
    load-IsSure _ _ _ (λ r. r.entity_id) (λ r. r.parent_id)
      (λ s. map scan_invoice_item s.invoice_items)

get_shipment_items-IsSure : (ids : List ℕ) → IsSure (get_shipment_items ids)
unfolding get_shipment_items
get_shipment_items-IsSure =
    load-IsSure _ _ _ (λ r. r.entity_id) (λ r. r.parent_id) (λ s. s.shipment_items)

get_shipment_tracks-IsSure : (ids : List ℕ) → IsSure (get_shipment_tracks ids)
unfolding get_shipment_tracks
get_shipment_tracks-IsSure =
    load-IsSure _ _ _ (λ r. r.entity_id) (λ r. r.parent_id) (λ s. s.shipment_tracks)

get_credit_memo_items-IsSure : (ids : List ℕ) → IsSure (get_credit_memo_items ids)
unfolding get_credit_memo_items
get_credit_memo_items-IsSure =
    load-IsSure _ _ _ (λ r. r.entity_id) (λ r. r.parent_id)
      (λ s. map scan_credit_memo_item s.credit_memo_items)

module _ (env : Env) where
  comments-IsSure : (ids : List ℕ) → IsSure (get_comments env ids)
  unfolding get_comments
  comments-IsSure [] = pure-IsSure []
  comments-IsSure (i ∷ is) =
      >>=-IsSure _ _
        (scan_rows-IsSure _ _ (λ r. r.entity_id) _ (within-IsSure _ (query _) (query-IsSure _)))
        (λ rows. pure-IsSure _)

  load_parts-IsSure : (ids : List ℕ) → IsSure (load_parts env ids)
  unfolding load_parts
  load_parts-IsSure ids =
      >>=-IsSure (within items (get_items ids)) _
        (within-IsSure items (get_items ids) (get_items-IsSure ids))
        λ im.
          >>=-IsSure (within addresses (get_addresses ids)) _
            (within-IsSure addresses (get_addresses ids) (get_addresses-IsSure ids))
            λ am.
              >>=-IsSure (within payments (get_payments ids)) _
                (within-IsSure payments (get_payments ids) (get_payments-IsSure ids))
                λ pm.
                  >>=-IsSure (within invoices (get_invoices ids)) _
                    (within-IsSure invoices (get_invoices ids) (get_invoices-IsSure ids))
                    λ vm.
                      >>=-IsSure (within shipments (get_shipments ids)) _
                        (within-IsSure shipments (get_shipments ids) (get_shipments-IsSure ids))
                        λ sm.
                          >>=-IsSure (within credit_memos (get_credit_memos ids)) _
                            (within-IsSure credit_memos (get_credit_memos ids)
                              (get_credit_memos-IsSure ids))
                            λ cm.
                              >>=-IsSure (within comments (get_comments env ids)) _
                                (within-IsSure comments (get_comments env ids)
                                  (comments-IsSure ids))
                                λ nm.
                                  let bills = ids_in (λ i. i.entity_id) vm in
                                  let parcels = ids_in (λ i. i.entity_id) sm in
                                  let memos = ids_in (λ i. i.entity_id) cm in
                                  >>=-IsSure
                                    (load_some bills
                                      (within invoice_items (get_invoice_items bills)))
                                    _
                                    (load_some-IsSure bills
                                      (within invoice_items (get_invoice_items bills))
                                      (within-IsSure invoice_items (get_invoice_items bills)
                                        (get_invoice_items-IsSure bills)))
                                    λ _.
                                      >>=-IsSure
                                        (load_some parcels
                                          (within shipment_items (get_shipment_items parcels)))
                                        _
                                        (load_some-IsSure parcels
                                          (within shipment_items (get_shipment_items parcels))
                                          (within-IsSure shipment_items (get_shipment_items parcels)
                                            (get_shipment_items-IsSure parcels)))
                                        λ _.
                                          >>=-IsSure
                                            (load_some parcels (
                                              within shipment_tracks (get_shipment_tracks parcels)))
                                            _
                                            (load_some-IsSure parcels
                                              (within shipment_tracks (get_shipment_tracks parcels))
                                              (within-IsSure shipment_tracks
                                                (get_shipment_tracks parcels)
                                                (get_shipment_tracks-IsSure parcels)))
                                            λ _.
                                              >>=-IsSure
                                                (load_some memos (
                                                  within credit_memo_items
                                                    (get_credit_memo_items memos)))
                                                _
                                                (load_some-IsSure memos
                                                  (within credit_memo_items
                                                    (get_credit_memo_items memos))
                                                  (within-IsSure credit_memo_items
                                                    (get_credit_memo_items memos)
                                                    (get_credit_memo_items-IsSure memos)))
                                                λ _. pure-IsSure _

  map_orders-IsSure :
      (parts : OrderData → Parts) (os : List OrderData) → IsSure (map_orders env parts os)
  unfolding map_orders
  map_orders-IsSure parts [] = pure-IsSure []
  map_orders-IsSure parts (o ∷ os) =
      >>=-IsSure (get_status_label o.status) _ (get_status_label-IsSure o.status) λ label.
        >>=-IsSure (map_orders env parts os) _ (map_orders-IsSure parts os) λ rest. pure-IsSure _

  list_orders-IsSure :
      (page size : ℕ) (os : List OrderData) (total : ℕ)
      → IsSure (list_orders env page size os total)
  unfolding list_orders
  list_orders-IsSure page size [] total = pure-IsSure _
  list_orders-IsSure page size (o ∷ os) total =
      >>=-IsSure (load_parts env (order_ids (o ∷ os))) _ (load_parts-IsSure (order_ids (o ∷ os)))
        λ parts.
          >>=-IsSure (map_orders env parts (o ∷ os)) _ (map_orders-IsSure parts (o ∷ os))
            λ mapped. pure-IsSure _

  page_statement-IsSure :
      (customer : ℕ) (filter : Option OrderFilter) (sort : Option OrderSort) (page size : ℕ)
      → is_negative (offset page size) ≡ false
      → IsSure do
        statement
        fail_if (is_negative (offset page size)) database
        gets (λ w. page_of env customer filter sort page size w.sales)
  page_statement-IsSure customer filter sort page size ne w q s =
      (page_of env customer filter sort page size w.sales, w, ground arith, q, s)

  find-IsSure :
      (customer : ℕ) (filter : Option OrderFilter) (sort : Option OrderSort) (page size : ℕ)
      → is_negative (offset page size) ≡ false
      → IsSure (find_by_customer_id env customer filter sort page size)
  unfolding find_by_customer_id
  find-IsSure customer filter sort page size ne =
      >>=-IsSure _ _ (within-IsSure _ _ (query-IsSure _)) λ total.
        >>=-IsSure _ _
          (scan_rows-IsSure _ _ (λ o. o.entity_id) _
            (within-IsSure query_orders _
              (page_statement-IsSure customer filter sort page size ne)))
          λ orders. pure-IsSure _

  get_orders-IsSure :
      (customer : ℕ) (filter : Option CustomerOrdersFilterInput)
      (sort : Option CustomerOrderSortInput) (page size : ℕ)
      → customer ≢ 0
      → is_negative (offset page size) ≡ false
      → IsSure (get_orders env customer filter sort page size)
  unfolding get_orders
  get_orders-IsSure customer filter sort page size signed from_one =
      let find = find_by_customer_id env customer (map_filter filter) (map_sort sort) page size in
      >>=-IsSure (fail_if (customer == 0) not_authenticated) _
        (passed-IsSure (customer == 0) not_authenticated (ground arith))
        λ _.
          >>=-IsSure (within fetch_orders find) _
            (within-IsSure fetch_orders find
              (find-IsSure customer (map_filter filter) (map_sort sort) page size from_one))
            λ found. list_orders-IsSure page size found.0 found.1

  offset-positive :
      (page size : ℕ)
      → page ≢ 0
      → (page - 1) * size < 2 ^ 63
      → is_negative (offset page size) ≡ false
  unfolding offset
  offset-positive zero size ne h = absurd (ne refl)
  offset-positive (suc page) size ne h =
      let same : (suc page - 1 ≡ page) = omega arith in
      rw (int64-small (page * size) (rw same at h)) refl

  -- Where no statement fails, every row of the sales tables scans, the caller is signed in, and the
  -- page is not 0 and begins within the integers of 64 bits: a page of orders is returned, and it
  -- is the one that the reference reads off the tables.
  pub get_orders_returns :
      (customer : ℕ) (filter : Option CustomerOrdersFilterInput)
      (sort : Option CustomerOrderSortInput) (page size : ℕ) (w : World)
      → w.faults ≡ []
      → customer ≢ 0
      → page ≢ 0
      → (page - 1) * size < 2 ^ 63
      → ScansAll w
      → (v : World) × (get_orders env customer filter sort page size w ≡ (
        ok (
            result_of env w.sales
              (labels_in v)
              page
              size
              (page_of env customer (map_filter filter) (map_sort sort) page size w.sales)
              (length (matches env customer (map_filter filter) w.sales))),
        v,
      ))
  get_orders_returns customer filter sort page size w q signed from_one below s =
      let nonneg = offset-positive page size from_one below in
      let (r, v, e, _, _) = get_orders-IsSure customer filter sort page size signed nonneg w q s in
      (
        v,
        e ∙ ap (λ x. (ok x, v)) (get_orders-result_of env customer filter sort page size w r v e).1,
      )
