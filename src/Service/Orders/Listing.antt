-- ===== src/Service/Orders/Listing.antt =====
-- `GetOrders` and `mapOrder` of internal/service/orders.go.
use magento2_customer_graphq.Base.{ℕ, ◌+◌, ◌-◌, Option, List, [], ◌∷◌, ◌++◌, map, ◌==◌}
use magento2_customer_graphq.Base.Text.{Text, text}
use magento2_customer_graphq.Go.Int.{ℤ, pos, int64, quot}
use magento2_customer_graphq.Go.Strconv.{itoa}
use magento2_customer_graphq.Env.{Env}
use magento2_customer_graphq.Errors.{
  not_authenticated, fetch_orders, items, addresses, payments, invoices, invoice_items, shipments,
  shipment_items, shipment_tracks, credit_memos, credit_memo_items, comments,
}
use magento2_customer_graphq.World.Monad.{Action, ◌>>=◌, ◌>>◌, pure, within, fail_if}
use magento2_customer_graphq.World.Orders.{
  OrderData, OrderItemData, OrderAddressData, OrderPaymentData, InvoiceData, CreditMemoData,
  InvoiceItemData, CreditMemoItemData, ShipmentData, ShipmentItemData, ShipmentTrackData,
  OrderCommentData,
}
use magento2_customer_graphq.Model.Orders.{
  CustomerOrdersFilterInput, CustomerOrderSortInput, CustomerOrder, CustomerOrders, Invoice,
  OrderShipment, CreditMemo,
}
use magento2_customer_graphq.Repository.Orders.Conditions.{find_by_customer_id}
use magento2_customer_graphq.Repository.Orders.Parts.{
  Groups, values_at, get_items, get_addresses, get_payments, get_invoices, get_invoice_items,
  get_shipments, get_shipment_items, get_shipment_tracks, get_credit_memos, get_credit_memo_items,
  get_comments,
}
use magento2_customer_graphq.Repository.Orders.Labels.{get_status_label}
use magento2_customer_graphq.Service.Orders.{map_filter, map_sort}
use magento2_customer_graphq.Service.Orders.Mapping.{
  totals, last_of_type, address_of, map_payment, map_order_item, map_invoice, map_shipment,
  map_credit_memo, shown_comments, format_order_date,
}

-- What `mapOrder` gets beside the order; a map of the items of a document is its lookup.
pub record Parts : Type 0 where
  pub items : List OrderItemData
  pub addresses : List OrderAddressData
  pub payments : List OrderPaymentData
  pub invoices : List InvoiceData
  pub invoice_items : ℕ → List InvoiceItemData
  pub shipments : List ShipmentData
  pub shipment_items : ℕ → List ShipmentItemData
  pub shipment_tracks : ℕ → List ShipmentTrackData
  pub credit_memos : List CreditMemoData
  pub credit_memo_items : ℕ → List CreditMemoItemData
  pub comments : List OrderCommentData

-- The ids of the documents in a map.
unfoldable pub ids_in : {A : Type 0} → (A → ℕ) → Groups A → List ℕ
ids_in id [] = []
ids_in id ((k, xs) ∷ m) = map id xs ++ ids_in id m

-- `if len(ids) > 0`
abbrev pub load_some : {A : Type 0} → List ℕ → Action (Groups A) → Action (Groups A)
load_some [] m = pure []
load_some (_ ∷ _) m = m

abbrev pub order_ids : List OrderData → List ℕ
order_ids = map (λ o. o.entity_id)

-- `(totalCount + pageSize - 1) / pageSize`, for a page size above 0.
unfoldable pub page_count : ℕ → ℕ → ℤ
unfolding int64 quot
page_count total size = quot (int64 (total + size - 1)) size

-- `CustomerOrders` with its `SearchResultPageInfo`.
abbrev pub page_result : ℕ → ℕ → ℕ → ℤ → List CustomerOrder → CustomerOrders
page_result current_page page_size total pages orders = record {
  items = orders;
  total_count = total;
  current_page = current_page;
  page_size = page_size;
  total_pages = pages;
}

module _ (env : Env) where
  -- An order with its documents mapped.
  unfoldable pub order_output :
      OrderData
      → Text
      → List OrderItemData
      → List OrderAddressData
      → List OrderPaymentData
      → List Invoice
      → List OrderShipment
      → List CreditMemo
      → List OrderCommentData
      → CustomerOrder
  unfolding last_of_type map_payment map_order_item shown_comments format_order_date
  order_output d label item_list address_list payment_list bills parcels memos notes = record {
    id = itoa d.entity_id;
    order_number = d.increment_id;
    number = d.increment_id;
    order_date = format_order_date env d.created_at;
    status = label;
    shipping_method = d.shipping_method;
    shipping_address = address_of (last_of_type (text "shipping") address_list);
    billing_address = address_of (last_of_type (text "billing") address_list);
    payment_methods = map map_payment payment_list;
    items = map (map_order_item d.order_currency_code) item_list;
    total = totals d.grand_total d.subtotal d.tax_amount d.shipping_amount d.order_currency_code;
    invoices = bills;
    shipments = parcels;
    credit_memos = memos;
    comments = shown_comments notes;
  }

  -- `mapOrder` with the label of the status.
  unfoldable pub map_order : OrderData → Parts → Text → CustomerOrder
  unfolding order_output map_invoice map_shipment map_credit_memo
  map_order d p label =
      order_output d label p.items p.addresses p.payments
        (map (λ i. map_invoice i (p.invoice_items i.entity_id) d.order_currency_code) p.invoices)
        (map (λ s. map_shipment s (p.shipment_items s.entity_id) (p.shipment_tracks s.entity_id))
          p.shipments)
        (map (λ c. map_credit_memo c (p.credit_memo_items c.entity_id) d.order_currency_code)
          p.credit_memos)
        p.comments

  unfoldable pub map_orders : (OrderData → Parts) → List OrderData → Action (List CustomerOrder)
  unfolding map_order
  map_orders parts [] = pure []
  map_orders parts (o ∷ os) = do
    label ← get_status_label o.status
    rest ← map_orders parts os
    pure (map_order o (parts o) label ∷ rest)

  -- The seven loads run at the same time and only read; here they run one after the other, up to
  -- the first that fails.
  unfoldable pub load_parts : List ℕ → Action (OrderData → Parts)
  unfolding values_at ids_in
  load_parts ids = do
    item_map ← within items (get_items ids)
    address_map ← within addresses (get_addresses ids)
    payment_map ← within payments (get_payments ids)
    invoice_map ← within invoices (get_invoices ids)
    shipment_map ← within shipments (get_shipments ids)
    memo_map ← within credit_memos (get_credit_memos ids)
    comment_map ← within comments (get_comments env ids)
    let invoice_ids = ids_in (λ i. i.entity_id) invoice_map
    let shipment_ids = ids_in (λ s. s.entity_id) shipment_map
    let memo_ids = ids_in (λ c. c.entity_id) memo_map
    invoice_item_map ← load_some invoice_ids (within invoice_items (get_invoice_items invoice_ids))
    shipment_item_map ←
        load_some shipment_ids (within shipment_items (get_shipment_items shipment_ids))
    track_map ← load_some shipment_ids (within shipment_tracks (get_shipment_tracks shipment_ids))
    memo_item_map ← load_some memo_ids (within credit_memo_items (get_credit_memo_items memo_ids))
    pure (λ o. record {
      items = values_at o.entity_id item_map;
      addresses = values_at o.entity_id address_map;
      payments = values_at o.entity_id payment_map;
      invoices = values_at o.entity_id invoice_map;
      invoice_items = λ id. values_at id invoice_item_map;
      shipments = values_at o.entity_id shipment_map;
      shipment_items = λ id. values_at id shipment_item_map;
      shipment_tracks = λ id. values_at id track_map;
      credit_memos = values_at o.entity_id memo_map;
      credit_memo_items = λ id. values_at id memo_item_map;
      comments = values_at o.entity_id comment_map;
    })

  -- What is done with the orders that were found, and with their number.
  unfoldable pub list_orders : ℕ → ℕ → List OrderData → ℕ → Action CustomerOrders
  unfolding load_parts map_orders page_count
  list_orders current_page page_size [] total =
      pure (page_result current_page page_size 0 (pos 0) [])
  list_orders current_page page_size (o ∷ os) total = do
    parts ← load_parts (order_ids (o ∷ os))
    mapped ← map_orders parts (o ∷ os)
    pure (page_result current_page page_size total (page_count total page_size) mapped)

  unfoldable pub get_orders :
      ℕ
      → Option CustomerOrdersFilterInput
      → Option CustomerOrderSortInput
      → ℕ
      → ℕ
      → Action CustomerOrders
  unfolding list_orders
  get_orders customer filter sort current_page page_size = do
    fail_if (customer == 0) not_authenticated
    found ← within fetch_orders (
        find_by_customer_id env customer (map_filter filter) (map_sort sort) current_page page_size)
    list_orders current_page page_size found.0 found.1
