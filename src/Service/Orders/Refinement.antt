-- ===== src/Service/Orders/Refinement.antt =====
-- `GetOrders` of internal/service/orders.go returns what the reference reads off the tables.
use magento2_customer_graphq.Base.{
  ℕ, ◌≡◌, ◌≢◌, refl, ap, sym, ◌∙◌, Bool, true, false, Option, some, List, [], ◌∷◌, map, length,
  ◌==◌, Bool-cases, inl, inr, arith, Option-cases,
}
use magento2_customer_graphq.Base.Text.{Text}
use magento2_customer_graphq.Go.Int.{ℤ, is_negative}
use magento2_customer_graphq.Env.{Env}
use magento2_customer_graphq.World.{World}
use magento2_customer_graphq.World.Orders.{Sales, OrderData}
use magento2_customer_graphq.World.Monad.{
  Outcome, ok, ◌>>=◌, ◌>>◌, pure, gets, within, statement, fail_if, next_fault,
}
use magento2_customer_graphq.World.Monad.Laws.{fail_if-eq-ok}
use magento2_customer_graphq.World.Monad.Reads.{
  Reads, pure-Reads, within-Reads, query-Reads, >>=-Reads, sales_of, read_first,
}
use magento2_customer_graphq.Errors.{database, fetch_orders}
use magento2_customer_graphq.Model.Orders.{
  CustomerOrdersFilterInput, CustomerOrderSortInput, CustomerOrders,
}
use magento2_customer_graphq.Repository.Orders.{OrderFilter, OrderSort, offset}
use magento2_customer_graphq.Repository.Orders.Scanning.{scan_rows-Reads}
use magento2_customer_graphq.Repository.Orders.Conditions.{matches, page_of, find_by_customer_id}
use magento2_customer_graphq.Repository.Orders.Parts.{one_of}
use magento2_customer_graphq.Repository.Orders.Labels.{get_status_label, label_of, labels_in}
use magento2_customer_graphq.Service.Orders.{map_filter, map_sort}
use magento2_customer_graphq.Service.Orders.Listing.{
  Parts, map_order, map_orders, load_parts, list_orders, get_orders, order_ids, page_count,
  page_result,
}
use magento2_customer_graphq.Service.Orders.Loading.{raw_parts, load_parts-Reads}
use magento2_customer_graphq.Service.Orders.Belonging.{map_order-raw_parts}
use magento2_customer_graphq.Service.Orders.Reference.{order_of, result_of}

-- A label is looked up among labels that stay, whether or not they could be read.
label_step :
    (status : Text) (w : World)
    → (labels : List (Text × Text)) × (v : World) × (get_status_label status w
        ≡ (ok (label_of labels status), v))
      × (v.status_labels ≡ some labels)
      × (v.sales ≡ w.sales)
unfolding get_status_label
label_step status w = elim (Option-cases w.status_labels) [
  | inl e ↦ elim (Bool-cases (next_fault w.faults)) [
    | inl f ↦ ([], (get_status_label status w).1, ground arith, ground arith, ground arith)
    | inr f ↦ (
      w.sales.status_labels,
      (get_status_label status w).1,
      ground arith,
      ground arith,
      ground arith,
    )
  ]
  | inr (labels, e) ↦ (labels, w, ground arith, e, refl)
]

ne_of_test : (n : ℕ) → (n == 0) ≡ false → n ≢ 0
ne_of_test n h = λ e. ground arith

label_loaded :
    (status : Text) (labels : List (Text × Text)) (w : World)
    → w.status_labels ≡ some labels
    → get_status_label status w ≡ (ok (label_of labels status), w)
unfolding get_status_label
label_loaded status labels w e = ground arith

module _ (env : Env) where
  map_orders_loaded :
      (parts : OrderData → Parts) (os : List OrderData) (labels : List (Text × Text)) (w : World)
      → w.status_labels ≡ some labels
      → map_orders env parts os w
        ≡ (ok (map (λ o. map_order env o (parts o) (label_of labels o.status)) os), w)
  unfolding map_orders
  map_orders_loaded parts [] labels w e = refl
  map_orders_loaded parts (o ∷ os) labels w e =
      rw (label_loaded o.status labels w e, map_orders_loaded parts os labels w e) refl

  -- The labels are read with the first order.
  map_orders_first :
      (parts : OrderData → Parts) (o : OrderData) (os : List OrderData) (w : World)
      → (labels : List (Text × Text)) × (v : World) × (map_orders env parts (o ∷ os) w
          ≡ (ok (map (λ o. map_order env o (parts o) (label_of labels o.status)) (o ∷ os)), v))
        × (v.status_labels ≡ some labels)
  unfolding map_orders
  map_orders_first parts o os w =
      let (labels, v, e, l, same) = label_step o.status w in
      (labels, v, rw (e, map_orders_loaded parts os labels v l) refl, l)

  page_statement-Reads :
      (refused : Bool) (f : Sales → List OrderData)
      → Reads sales_of (do statement; fail_if refused database; gets (λ w. f w.sales)) f
  page_statement-Reads true f w a v h = elim (Bool-cases (next_fault w.faults)) [
    | inl e ↦ absurd (ground arith)
    | inr e ↦ absurd (ground arith)
  ]
  page_statement-Reads false f w a v h = query-Reads f w a v h

  find-Reads :
      (customer : ℕ) (filter : Option OrderFilter) (sort : Option OrderSort) (page size : ℕ)
      → Reads sales_of (find_by_customer_id env customer filter sort page size) (λ s.
        (page_of env customer filter sort page size s, length (matches env customer filter s)))
  unfolding find_by_customer_id
  find-Reads customer filter sort page size =
      let total = λ (s : Sales). length (matches env customer filter s) in
      let orders = page_of env customer filter sort page size in
      >>=-Reads sales_of _ _ total (λ n s. (orders s, n))
        (within-Reads sales_of _ _ total (query-Reads total))
        (λ n.
          >>=-Reads sales_of _ _ orders (λ os s. (os, n))
            (scan_rows-Reads _ _ (λ o. o.entity_id) _ orders
              (within-Reads sales_of _ _ orders
                (page_statement-Reads (is_negative (offset page size)) orders)))
            (λ os. pure-Reads sales_of (os, n)))

  -- Each order of the page is listed in the ids that are loaded.
  map_order-raw_parts_all :
      (s : Sales) (ids : List ℕ) (labels : List (Text × Text)) (os : List OrderData)
      → ((id : ℕ) → one_of (order_ids os) id ≡ true → one_of ids id ≡ true)
      → map (λ o. map_order env o (raw_parts env ids s o) (label_of labels o.status)) os
        ≡ map (order_of env s labels ids) os
  map_order-raw_parts_all s ids labels [] sub = refl
  map_order-raw_parts_all s ids labels (o ∷ os) sub =
      let first =
        map_order-raw_parts env s ids o (label_of labels o.status)
          (sub o.entity_id (ground arith)) in
      let rest = map_order-raw_parts_all s ids labels os (λ id h. sub id (ground arith)) in
      λ i. first i ∷ rest i

  -- The orders with the parts that were loaded for them.
  mapped_result :
      (page size total : ℕ) (pages : ℤ) (parts : OrderData → Parts) (o : OrderData)
      (os : List OrderData) (u : World) (r : CustomerOrders) (v : World)
      → (do mapped ← map_orders env parts (o ∷ os); pure (page_result page size total pages mapped))
          u
        ≡ (ok r, v)
      → r
        ≡ page_result page size total pages
            (map (λ o. map_order env o (parts o) (label_of (labels_in v) o.status)) (o ∷ os))
  mapped_result page size total pages parts o os u r v h =
      let (labels, x, e, l) = map_orders_first parts o os u in
      let reached : Outcome CustomerOrders × World = (
        ok (
            page_result page size total pages
              (map (λ o. map_order env o (parts o) (label_of labels o.status)) (o ∷ os))),
        x,
      ) in
      let k : (reached ≡ (ok r, v)) = rw e at h in
      let same : labels_in v ≡ labels = ground arith in
      let shown = λ (ls : List (Text × Text)).
        page_result page size total pages
          (map (λ o. map_order env o (parts o) (label_of ls o.status)) (o ∷ os)) in
      (pure-Reads sales_of (shown labels) x r v k).0 ∙ ap shown (sym same)

  list_orders-result_of :
      (page size : ℕ) (os : List OrderData) (total : ℕ) (w : World) (r : CustomerOrders) (v : World)
      → list_orders env page size os total w ≡ (ok r, v)
      → r ≡ result_of env w.sales (labels_in v) page size os total
  unfolding list_orders
  list_orders-result_of page size [] total w r v h = ground arith
  list_orders-result_of page size (o ∷ os) total w r v h =
      let ids = order_ids (o ∷ os) in
      let (u, same, h') =
        read_first sales_of (load_parts env ids) _ (raw_parts env ids) w.sales w
          (load_parts-Reads env ids) refl h in
      mapped_result page size total (page_count total size) (raw_parts env ids w.sales) o os u r v
        h'
      ∙ ap (page_result page size total (page_count total size))
          (map_order-raw_parts_all w.sales ids (labels_in v) (o ∷ os) (λ id k. k))

  -- Whatever statement fails: if a page of orders is returned, the caller is signed in, and the
  -- page is the one that the reference reads off the tables, with the labels that are stored then.
  pub get_orders-result_of :
      (customer : ℕ) (filter : Option CustomerOrdersFilterInput)
      (sort : Option CustomerOrderSortInput) (page size : ℕ) (w : World) (r : CustomerOrders)
      (v : World)
      → get_orders env customer filter sort page size w ≡ (ok r, v)
      → (customer ≢ 0)
        × (r
            ≡ result_of env w.sales
                (labels_in v)
                page
                size
                (page_of env customer (map_filter filter) (map_sort sort) page size w.sales)
                (length (matches env customer (map_filter filter) w.sales)))
  unfolding get_orders
  get_orders-result_of customer filter sort page size w r v h =
      let (signed_in, h1) = fail_if-eq-ok (customer == 0) _ _ w h in
      let f = map_filter filter in
      let find = find_by_customer_id env customer f (map_sort sort) page size in
      let found : (Sales → List OrderData × ℕ) = λ s.
        (page_of env customer f (map_sort sort) page size s, length (matches env customer f s)) in
      let (u, same, h2) =
        read_first sales_of (within fetch_orders find) _ found w.sales w
          (within-Reads sales_of fetch_orders find found
            (find-Reads customer f (map_sort sort) page size))
          refl h1 in
      let listed = list_orders-result_of page size (found w.sales).0 (found w.sales).1 u r v h2 in
      (ne_of_test customer signed_in, rw (same) at listed)
