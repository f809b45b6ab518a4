-- ===== src/Repository/Orders/Loads.antt =====
-- What each load of internal/repository/order.go returns, as a function of the sales tables.
use magento2_customer_graphq.Base.{ℕ, List, [], ◌∷◌, map}
use magento2_customer_graphq.Env.{Env}
use magento2_customer_graphq.World.Orders.{
  Sales, OrderItemData, OrderAddressData, OrderPaymentData, InvoiceData, CreditMemoData,
  InvoiceItemData, CreditMemoItemData, ShipmentData, ShipmentItemData, ShipmentTrackData,
  OrderCommentData,
}
use magento2_customer_graphq.World.Monad.Reads.{
  Reads, pure-Reads, within-Reads, query-Reads, >>=-Reads, sales_of,
}
use magento2_customer_graphq.Repository.Orders.Scanning.{scan_rows-Reads}
use magento2_customer_graphq.Repository.Orders.Grouping.{loaded, load-Reads}
use magento2_customer_graphq.Repository.Orders.Parts.{
  Groups, get_items, get_addresses, get_payments, get_invoices, get_invoice_items, get_shipments,
  get_shipment_items, get_shipment_tracks, get_credit_memos, get_credit_memo_items, get_comments,
  group_from, comment_rows, scan_item, scan_invoice_item, scan_credit_memo_item,
}

abbrev pub loaded_items : List ℕ → Sales → Groups OrderItemData
loaded_items = loaded (λ r. r.order_id) (λ s. map scan_item s.items)

pub get_items-Reads : (ids : List ℕ) → Reads sales_of (get_items ids) (loaded_items ids)
unfolding get_items
get_items-Reads = load-Reads _ _ _ (λ r. r.item_id) (λ r. r.order_id) (λ s. map scan_item s.items)

abbrev pub loaded_addresses : List ℕ → Sales → Groups OrderAddressData
loaded_addresses = loaded (λ r. r.parent_id) (λ s. s.addresses)

pub get_addresses-Reads : (ids : List ℕ) → Reads sales_of (get_addresses ids) (loaded_addresses ids)
unfolding get_addresses
get_addresses-Reads = load-Reads _ _ _ (λ r. r.entity_id) (λ r. r.parent_id) (λ s. s.addresses)

abbrev pub loaded_payments : List ℕ → Sales → Groups OrderPaymentData
loaded_payments = loaded (λ r. r.parent_id) (λ s. s.payments)

pub get_payments-Reads : (ids : List ℕ) → Reads sales_of (get_payments ids) (loaded_payments ids)
unfolding get_payments
get_payments-Reads = load-Reads _ _ _ (λ r. r.entity_id) (λ r. r.parent_id) (λ s. s.payments)

abbrev pub loaded_invoices : List ℕ → Sales → Groups InvoiceData
loaded_invoices = loaded (λ r. r.order_id) (λ s. s.invoices)

pub get_invoices-Reads : (ids : List ℕ) → Reads sales_of (get_invoices ids) (loaded_invoices ids)
unfolding get_invoices
get_invoices-Reads = load-Reads _ _ _ (λ r. r.entity_id) (λ r. r.order_id) (λ s. s.invoices)

abbrev pub loaded_shipments : List ℕ → Sales → Groups ShipmentData
loaded_shipments = loaded (λ r. r.order_id) (λ s. s.shipments)

pub get_shipments-Reads : (ids : List ℕ) → Reads sales_of (get_shipments ids) (loaded_shipments ids)
unfolding get_shipments
get_shipments-Reads = load-Reads _ _ _ (λ r. r.entity_id) (λ r. r.order_id) (λ s. s.shipments)

abbrev pub loaded_credit_memos : List ℕ → Sales → Groups CreditMemoData
loaded_credit_memos = loaded (λ r. r.order_id) (λ s. s.credit_memos)

pub get_credit_memos-Reads :
    (ids : List ℕ) → Reads sales_of (get_credit_memos ids) (loaded_credit_memos ids)
unfolding get_credit_memos
get_credit_memos-Reads = load-Reads _ _ _ (λ r. r.entity_id) (λ r. r.order_id) (λ s. s.credit_memos)

abbrev pub loaded_invoice_items : List ℕ → Sales → Groups InvoiceItemData
loaded_invoice_items = loaded (λ r. r.parent_id) (λ s. map scan_invoice_item s.invoice_items)

pub get_invoice_items-Reads :
    (ids : List ℕ) → Reads sales_of (get_invoice_items ids) (loaded_invoice_items ids)
unfolding get_invoice_items
get_invoice_items-Reads =
    load-Reads _ _ _ (λ r. r.entity_id) (λ r. r.parent_id)
      (λ s. map scan_invoice_item s.invoice_items)

abbrev pub loaded_shipment_items : List ℕ → Sales → Groups ShipmentItemData
loaded_shipment_items = loaded (λ r. r.parent_id) (λ s. s.shipment_items)

pub get_shipment_items-Reads :
    (ids : List ℕ) → Reads sales_of (get_shipment_items ids) (loaded_shipment_items ids)
unfolding get_shipment_items
get_shipment_items-Reads =
    load-Reads _ _ _ (λ r. r.entity_id) (λ r. r.parent_id) (λ s. s.shipment_items)

abbrev pub loaded_shipment_tracks : List ℕ → Sales → Groups ShipmentTrackData
loaded_shipment_tracks = loaded (λ r. r.parent_id) (λ s. s.shipment_tracks)

pub get_shipment_tracks-Reads :
    (ids : List ℕ) → Reads sales_of (get_shipment_tracks ids) (loaded_shipment_tracks ids)
unfolding get_shipment_tracks
get_shipment_tracks-Reads =
    load-Reads _ _ _ (λ r. r.entity_id) (λ r. r.parent_id) (λ s. s.shipment_tracks)

abbrev pub loaded_credit_memo_items : List ℕ → Sales → Groups CreditMemoItemData
loaded_credit_memo_items =
    loaded (λ r. r.parent_id) (λ s. map scan_credit_memo_item s.credit_memo_items)

pub get_credit_memo_items-Reads :
    (ids : List ℕ) → Reads sales_of (get_credit_memo_items ids) (loaded_credit_memo_items ids)
unfolding get_credit_memo_items
get_credit_memo_items-Reads =
    load-Reads _ _ _ (λ r. r.entity_id) (λ r. r.parent_id)
      (λ s. map scan_credit_memo_item s.credit_memo_items)

module _ (env : Env) where
  abbrev pub loaded_comments : List ℕ → Sales → Groups OrderCommentData
  loaded_comments [] s = []
  loaded_comments (i ∷ is) s = group_from (λ r. r.parent_id) [] (comment_rows env (i ∷ is) s)

  pub get_comments-Reads :
      (ids : List ℕ) → Reads sales_of (get_comments env ids) (loaded_comments ids)
  unfolding get_comments
  get_comments-Reads [] = pure-Reads sales_of []
  get_comments-Reads (i ∷ is) =
      let rows = comment_rows env (i ∷ is) in
      >>=-Reads sales_of _ _ rows (λ rs _. group_from (λ r. r.parent_id) [] rs)
        (scan_rows-Reads _ _ (λ r. r.entity_id) _ rows
          (within-Reads sales_of _ _ rows (query-Reads rows)))
        (λ rs. pure-Reads sales_of _)
