-- ===== src/Service/Orders/Reference.antt =====
-- What `GetOrders` of internal/service/orders.go is to return, read off the tables order by order.
use magento2_customer_graphq.Base.{ℕ, List, [], ◌∷◌, map, ◌==◌}
use magento2_customer_graphq.Base.Text.{Text}
use magento2_customer_graphq.Go.Int.{pos}
use magento2_customer_graphq.Env.{Env}
use magento2_customer_graphq.World.Orders.{Sales, OrderData}
use magento2_customer_graphq.Model.Orders.{CustomerOrder, CustomerOrders}
use magento2_customer_graphq.Repository.Sql.{select}
use magento2_customer_graphq.Repository.Orders.Parts.{
  scan_item, scan_invoice_item, scan_credit_memo_item, comment_rows,
}
use magento2_customer_graphq.Repository.Orders.Labels.{label_of}
use magento2_customer_graphq.Service.Orders.Listing.{
  Parts, map_order, page_count, page_result, order_ids,
}

module _ (env : Env) (s : Sales) where
  -- What belongs to an order, and to its documents. The comments are sorted together with those of
  -- the other orders of the page.
  abbrev pub parts_of : List ℕ → OrderData → Parts
  parts_of ids o = record {
    items = select (λ r. r.order_id == o.entity_id) (map scan_item s.items);
    addresses = select (λ r. r.parent_id == o.entity_id) s.addresses;
    payments = select (λ r. r.parent_id == o.entity_id) s.payments;
    invoices = select (λ r. r.order_id == o.entity_id) s.invoices;
    invoice_items = λ id. select (λ r. r.parent_id == id) (map scan_invoice_item s.invoice_items);
    shipments = select (λ r. r.order_id == o.entity_id) s.shipments;
    shipment_items = λ id. select (λ r. r.parent_id == id) s.shipment_items;
    shipment_tracks = λ id. select (λ r. r.parent_id == id) s.shipment_tracks;
    credit_memos = select (λ r. r.order_id == o.entity_id) s.credit_memos;
    credit_memo_items =
        λ id. select (λ r. r.parent_id == id) (map scan_credit_memo_item s.credit_memo_items);
    comments = select (λ r. r.parent_id == o.entity_id) (comment_rows env ids s);
  }

  abbrev pub order_of : List (Text × Text) → List ℕ → OrderData → CustomerOrder
  order_of labels ids o = map_order env o (parts_of ids o) (label_of labels o.status)

  -- The result for the orders of a page and the number of orders in all.
  abbrev pub result_of : List (Text × Text) → ℕ → ℕ → List OrderData → ℕ → CustomerOrders
  result_of labels page size [] total = page_result page size 0 (pos 0) []
  result_of labels page size (o ∷ os) total =
      page_result page size total (page_count total size)
        (map (order_of labels (order_ids (o ∷ os))) (o ∷ os))
