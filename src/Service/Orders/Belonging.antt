-- ===== src/Service/Orders/Belonging.antt =====
-- `mapOrder` of internal/service/orders.go gets what belongs to the order, and to its documents.
use magento2_customer_graphq.Base.{
  ℕ, ◌≡◌, refl, ap, ◌∙◌, true, List, [], ◌∷◌, ◌++◌, map, ◌==◌, Bool-cases, inl, inr, arith,
}
use magento2_customer_graphq.Base.Text.{Text}
use magento2_customer_graphq.Env.{Env}
use magento2_customer_graphq.World.Orders.{Sales, OrderData}
use magento2_customer_graphq.Repository.Sql.{select}
use magento2_customer_graphq.Repository.Orders.Parts.{
  Groups, one_of, values_at, comment_rows, scan_item, scan_invoice_item, scan_credit_memo_item,
}
use magento2_customer_graphq.Repository.Orders.Grouping.{values_at-loaded, values_at-group_from}
use magento2_customer_graphq.Repository.Orders.Loads.{
  loaded_invoices, loaded_shipments, loaded_credit_memos, loaded_comments,
}
use magento2_customer_graphq.Service.Orders.Mapping.{map_invoice, map_shipment, map_credit_memo}
use magento2_customer_graphq.Service.Orders.Listing.{ids_in, map_order, order_output}
use magento2_customer_graphq.Service.Orders.Loading.{raw_parts, invoice_ids, shipment_ids, memo_ids}
use magento2_customer_graphq.Service.Orders.Reference.{parts_of}

one_of_first : (xs ys : List ℕ) (id : ℕ) → one_of xs id ≡ true → one_of (xs ++ ys) id ≡ true
one_of_first [] ys id h = cc
one_of_first (x ∷ xs) ys id h = ground (arith, one_of_first xs ys id)

one_of_second : (xs ys : List ℕ) (id : ℕ) → one_of ys id ≡ true → one_of (xs ++ ys) id ≡ true
one_of_second [] ys id h = h
one_of_second (x ∷ xs) ys id h = ground (arith, one_of_second xs ys id h)

module _ {D C : Type 0} (id : D → ℕ) (g h : D → C) where
  -- Two functions that agree on the documents whose ids are listed.
  map_listed :
      (listed : List ℕ) (ds : List D)
      → ((d : D) → one_of listed (id d) ≡ true → g d ≡ h d)
      → ((d : ℕ) → one_of (map id ds) d ≡ true → one_of listed d ≡ true)
      → map g ds ≡ map h ds
  map_listed listed [] agree sub = refl
  map_listed listed (d ∷ ds) agree sub =
      let here = agree d (sub (id d) (ground arith)) in
      let rest = map_listed listed ds agree (λ e k. sub e (ground arith)) in λ i. here i ∷ rest i

  map_in :
      (listed : List ℕ) (m : Groups D) (k : ℕ)
      → ((d : D) → one_of listed (id d) ≡ true → g d ≡ h d)
      → ((d : ℕ) → one_of (ids_in id m) d ≡ true → one_of listed d ≡ true)
      → map g (values_at k m) ≡ map h (values_at k m)
  unfolding values_at ids_in
  map_in listed [] k agree sub = refl
  map_in listed ((j, ds) ∷ m) k agree sub = elim (Bool-cases (j == k)) [
    | inl e ↦
        rw e
          (map_listed listed ds agree (λ d l. sub d (one_of_first (map id ds) (ids_in id m) d l)))
    | inr e ↦
        rw e (map_in listed m k agree (λ d l. sub d (one_of_second (map id ds) (ids_in id m) d l)))
  ]

  -- Two functions that agree on the documents of a map.
  map_documents :
      (m : Groups D) (k : ℕ) (ds : List D)
      → values_at k m ≡ ds
      → ((d : D) → one_of (ids_in id m) (id d) ≡ true → g d ≡ h d)
      → map g (values_at k m) ≡ map h ds
  map_documents m k ds e agree = map_in (ids_in id m) m k agree (λ d l. l) ∙ ap (map h) e

module _ (env : Env) (s : Sales) where
  values_at-loaded_comments :
      (ids : List ℕ) (id : ℕ)
      → one_of ids id ≡ true
      → values_at id (loaded_comments env ids s)
        ≡ select (λ r. r.parent_id == id) (comment_rows env ids s)
  unfolding values_at
  values_at-loaded_comments [] id h = cc
  values_at-loaded_comments (i ∷ is) id h =
      values_at-group_from (λ r. r.parent_id) id [] (comment_rows env (i ∷ is) s)

  -- An order of the page is mapped with what belongs to it.
  pub map_order-raw_parts :
      (ids : List ℕ) (o : OrderData) (label : Text)
      → one_of ids o.entity_id ≡ true
      → map_order env o (raw_parts env ids s o) label ≡ map_order env o (parts_of env s ids o) label
  unfolding map_order
  map_order-raw_parts ids o label h =
      let at_items =
        values_at-loaded (λ r. r.order_id) (λ t. map scan_item t.items) ids s o.entity_id h in
      let at_addresses =
        values_at-loaded (λ r. r.parent_id) (λ t. t.addresses) ids s o.entity_id h in
      let at_payments = values_at-loaded (λ r. r.parent_id) (λ t. t.payments) ids s o.entity_id h in
      let at_invoices = values_at-loaded (λ r. r.order_id) (λ t. t.invoices) ids s o.entity_id h in
      let at_shipments =
        values_at-loaded (λ r. r.order_id) (λ t. t.shipments) ids s o.entity_id h in
      let at_memos = values_at-loaded (λ r. r.order_id) (λ t. t.credit_memos) ids s o.entity_id h in
      let invoices_eq =
        map_documents (λ d. d.entity_id) _ _ (loaded_invoices ids s) o.entity_id _ at_invoices
          (λ d l.
            ap (λ x. map_invoice d x o.order_currency_code)
              (values_at-loaded (λ r. r.parent_id) (λ t. map scan_invoice_item t.invoice_items)
                (invoice_ids ids s) s d.entity_id l)) in
      let shipments_eq =
        map_documents (λ d. d.entity_id) _ _ (loaded_shipments ids s) o.entity_id _ at_shipments
          (λ d l i.
            map_shipment d
              (values_at-loaded (λ r. r.parent_id) (λ t. t.shipment_items) (shipment_ids ids s) s
                d.entity_id l i)
              (values_at-loaded (λ r. r.parent_id) (λ t. t.shipment_tracks) (shipment_ids ids s) s
                d.entity_id l i)) in
      let memos_eq =
        map_documents (λ d. d.entity_id) _ _ (loaded_credit_memos ids s) o.entity_id _ at_memos
          (λ d l.
            ap (λ x. map_credit_memo d x o.order_currency_code)
              (values_at-loaded (λ r. r.parent_id)
                (λ t. map scan_credit_memo_item t.credit_memo_items) (memo_ids ids s) s d.entity_id
                l)) in
      λ i.
        order_output env o label (at_items i) (at_addresses i) (at_payments i) (invoices_eq i)
          (shipments_eq i) (memos_eq i) (values_at-loaded_comments ids o.entity_id h i)
