-- ===== src/Repository/Orders/Parts.antt =====
-- The loads of internal/repository/order.go that fetch what belongs to a batch of orders, of
-- invoices, of shipments or of credit memos, each grouped by the id that it belongs to.
use magento2_customer_graphq.Base.{
  ℕ, Bool, false, ◌&&◌, ◌||◌, Option, none, some, List, [], ◌∷◌, ◌++◌, map, ◌==◌, if◌then◌else◌,
}
use magento2_customer_graphq.Errors.{
  Context, query_order_items, query_order_addresses, query_order_payments, query_invoices,
  query_invoice_items, query_shipments, query_shipment_items, query_shipment_tracks,
  query_credit_memos, query_credit_memo_items, query_order_comments, scan_order_item_row,
  scan_order_address_row, scan_order_payment_row, scan_invoice_row, scan_invoice_item_row,
  scan_shipment_row, scan_shipment_item_row, scan_shipment_track_row, scan_credit_memo_row,
  scan_credit_memo_item_row, scan_order_comment_row,
}
use magento2_customer_graphq.World.Orders.{
  Float, Sales, SalesTable, sales_order_item, sales_order_address, sales_order_payment,
  sales_invoice, sales_invoice_item, sales_shipment, sales_shipment_item, sales_shipment_track,
  sales_creditmemo, sales_creditmemo_item, sales_order_status_history, OrderItemRow, OrderItemData,
  OrderAddressData, OrderPaymentData, InvoiceData, CreditMemoData, DocumentItemRow, InvoiceItemData,
  CreditMemoItemData, ShipmentData, ShipmentItemData, ShipmentTrackData, OrderCommentData,
}
use magento2_customer_graphq.World.Monad.{Action, ◌>>=◌, pure, within, query}
use magento2_customer_graphq.Env.{Env}
use magento2_customer_graphq.Repository.Sql.{select}
use magento2_customer_graphq.Repository.Orders.Scanning.{scan_rows}

-- `id IN (...)`
abbrev pub one_of : List ℕ → ℕ → Bool
one_of [] id = false
one_of (i ∷ is) id = i == id || one_of is id

-- A `map[int][]*T`.
abbrev pub Groups : Type 0 → Type 0
Groups A = List (ℕ × List A)

module _ {A : Type 0} where
  -- `m[id]`
  unfoldable pub values_at : ℕ → Groups A → List A
  values_at id [] = []
  values_at id ((k, xs) ∷ m) = if k == id then xs else values_at id m

  -- `m[id] = append(m[id], x)`
  unfoldable pub add_to : ℕ → A → Groups A → Groups A
  add_to id x [] = (id, x ∷ []) ∷ []
  add_to id x ((k, xs) ∷ m) = if k == id then (k, xs ++ x ∷ []) ∷ m else (k, xs) ∷ add_to id x m

  -- The loop over the rows.
  unfoldable pub group_from : (A → ℕ) → Groups A → List A → Groups A
  unfolding add_to
  group_from key m [] = m
  group_from key m (x ∷ xs) = group_from key (add_to (key x) x m) xs

  -- One load: no statement for no ids.
  unfoldable pub load :
      Context
      → Context
      → SalesTable
      → (A → ℕ)
      → (A → ℕ)
      → (Sales → List A)
      → List ℕ
      → Action (Groups A)
  unfolding group_from scan_rows
  load c scan t id key table [] = pure []
  load c scan t id key table (i ∷ is) = do
    rows ←
        scan_rows scan t id
          (within c (query (λ w. select (λ r. one_of (i ∷ is) (key r)) (table w.sales))))
    pure (group_from key [] rows)

-- COALESCE(x, 0)
abbrev or_zero : Option Float → Float
or_zero none = 0
or_zero (some x) = x

-- No statement reads a status.
unfoldable pub scan_item : OrderItemRow → OrderItemData
scan_item r = record {
  item_id = r.item_id;
  order_id = r.order_id;
  product_type = r.product_type;
  sku = r.sku;
  name = r.name;
  price = or_zero r.price;
  qty_ordered = or_zero r.qty_ordered;
  qty_shipped = or_zero r.qty_shipped;
  qty_invoiced = or_zero r.qty_invoiced;
  qty_refunded = or_zero r.qty_refunded;
  qty_canceled = or_zero r.qty_canceled;
  row_total = or_zero r.row_total;
  tax_amount = or_zero r.tax_amount;
  discount_amount = or_zero r.discount_amount;
  status = none;
}

unfoldable pub scan_invoice_item : DocumentItemRow → InvoiceItemData
scan_invoice_item r = record {
  entity_id = r.entity_id;
  parent_id = r.parent_id;
  order_item_id = r.order_item_id;
  sku = r.sku;
  name = r.name;
  price = or_zero r.price;
  qty = r.qty;
  row_total = or_zero r.row_total;
  tax_amount = or_zero r.tax_amount;
  discount_amount = or_zero r.discount_amount;
}

unfoldable pub scan_credit_memo_item : DocumentItemRow → CreditMemoItemData
scan_credit_memo_item r = record {
  entity_id = r.entity_id;
  parent_id = r.parent_id;
  order_item_id = r.order_item_id;
  sku = r.sku;
  name = r.name;
  price = or_zero r.price;
  qty = r.qty;
  row_total = or_zero r.row_total;
  tax_amount = or_zero r.tax_amount;
  discount_amount = or_zero r.discount_amount;
}

-- `GetItems` to `GetCreditMemoItems`.
unfoldable pub get_items : List ℕ → Action (Groups OrderItemData)
unfolding load scan_item
get_items =
    load query_order_items scan_order_item_row sales_order_item (λ r. r.item_id) (λ r. r.order_id)
      (λ s. map scan_item s.items)

unfoldable pub get_addresses : List ℕ → Action (Groups OrderAddressData)
unfolding load
get_addresses =
    load query_order_addresses scan_order_address_row sales_order_address (λ r. r.entity_id)
      (λ r. r.parent_id) (λ s. s.addresses)

unfoldable pub get_payments : List ℕ → Action (Groups OrderPaymentData)
unfolding load
get_payments =
    load query_order_payments scan_order_payment_row sales_order_payment (λ r. r.entity_id)
      (λ r. r.parent_id) (λ s. s.payments)

unfoldable pub get_invoices : List ℕ → Action (Groups InvoiceData)
unfolding load
get_invoices =
    load query_invoices scan_invoice_row sales_invoice (λ r. r.entity_id) (λ r. r.order_id)
      (λ s. s.invoices)

unfoldable pub get_invoice_items : List ℕ → Action (Groups InvoiceItemData)
unfolding load scan_invoice_item
get_invoice_items =
    load query_invoice_items scan_invoice_item_row sales_invoice_item (λ r. r.entity_id)
      (λ r. r.parent_id) (λ s. map scan_invoice_item s.invoice_items)

unfoldable pub get_shipments : List ℕ → Action (Groups ShipmentData)
unfolding load
get_shipments =
    load query_shipments scan_shipment_row sales_shipment (λ r. r.entity_id) (λ r. r.order_id)
      (λ s. s.shipments)

unfoldable pub get_shipment_items : List ℕ → Action (Groups ShipmentItemData)
unfolding load
get_shipment_items =
    load query_shipment_items scan_shipment_item_row sales_shipment_item (λ r. r.entity_id)
      (λ r. r.parent_id) (λ s. s.shipment_items)

unfoldable pub get_shipment_tracks : List ℕ → Action (Groups ShipmentTrackData)
unfolding load
get_shipment_tracks =
    load query_shipment_tracks scan_shipment_track_row sales_shipment_track (λ r. r.entity_id)
      (λ r. r.parent_id) (λ s. s.shipment_tracks)

unfoldable pub get_credit_memos : List ℕ → Action (Groups CreditMemoData)
unfolding load
get_credit_memos =
    load query_credit_memos scan_credit_memo_row sales_creditmemo (λ r. r.entity_id)
      (λ r. r.order_id) (λ s. s.credit_memos)

unfoldable pub get_credit_memo_items : List ℕ → Action (Groups CreditMemoItemData)
unfolding load scan_credit_memo_item
get_credit_memo_items =
    load query_credit_memo_items scan_credit_memo_item_row sales_creditmemo_item (λ r. r.entity_id)
      (λ r. r.parent_id) (λ s. map scan_credit_memo_item s.credit_memo_items)

-- `GetComments`: those that a customer may see, in the order of their times.
abbrev pub visible : OrderCommentData → Bool
visible r = r.is_visible_on_front == 1

module _ (env : Env) where
  -- The rows in the order of the statement.
  abbrev pub comment_rows : List ℕ → Sales → List OrderCommentData
  comment_rows ids s =
      env.by_created_at (select (λ r. one_of ids r.parent_id && visible r) s.comments)

  unfoldable pub get_comments : List ℕ → Action (Groups OrderCommentData)
  unfolding group_from scan_rows
  get_comments [] = pure []
  get_comments (i ∷ is) = do
    rows ←
        scan_rows scan_order_comment_row sales_order_status_history (λ r. r.entity_id)
          (within query_order_comments (query (λ w. comment_rows (i ∷ is) w.sales)))
    pure (group_from (λ r. r.parent_id) [] rows)
