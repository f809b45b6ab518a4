-- ===== src/World/Orders.antt =====
-- The sales tables, which the service only reads: the data types of internal/repository/order.go,
-- and the rows whose columns a statement defaults by COALESCE. A number of type float64 is its 64
-- bits.
use magento2_customer_graphq.Base.{ℕ, Bool, Option, List}
use magento2_customer_graphq.Base.Text.{Text}

abbrev pub Float : Type 0
Float = ℕ

-- `repository.OrderData`, a row of `sales_order`.
pub record OrderData : Type 0 where
  pub entity_id : ℕ
  pub increment_id : Text
  pub customer_id : ℕ
  pub store_id : ℕ
  pub status : Text
  pub state : Text
  pub created_at : Text
  pub grand_total : Float
  pub subtotal : Float
  pub tax_amount : Float
  pub shipping_amount : Float
  pub shipping_method : Option Text
  pub shipping_description : Option Text
  pub order_currency_code : Text

-- A row of `sales_order_item`.
pub record OrderItemRow : Type 0 where
  pub item_id : ℕ
  pub order_id : ℕ
  pub product_type : Option Text
  pub sku : Text
  pub name : Option Text
  pub price : Option Float
  pub qty_ordered : Option Float
  pub qty_shipped : Option Float
  pub qty_invoiced : Option Float
  pub qty_refunded : Option Float
  pub qty_canceled : Option Float
  pub row_total : Option Float
  pub tax_amount : Option Float
  pub discount_amount : Option Float

-- `repository.OrderItemData`
pub record OrderItemData : Type 0 where
  pub item_id : ℕ
  pub order_id : ℕ
  pub product_type : Option Text
  pub sku : Text
  pub name : Option Text
  pub price : Float
  pub qty_ordered : Float
  pub qty_shipped : Float
  pub qty_invoiced : Float
  pub qty_refunded : Float
  pub qty_canceled : Float
  pub row_total : Float
  pub tax_amount : Float
  pub discount_amount : Float
  pub status : Option Text

-- `repository.OrderAddressData`, a row of `sales_order_address`.
pub record OrderAddressData : Type 0 where
  pub entity_id : ℕ
  pub parent_id : ℕ
  pub address_type : Text
  pub firstname : Text
  pub lastname : Text
  pub street : Option Text
  pub city : Text
  pub region : Option Text
  pub region_id : Option ℕ
  pub postcode : Option Text
  pub country_id : Text
  pub telephone : Option Text
  pub company : Option Text
  pub prefix : Option Text
  pub suffix : Option Text
  pub fax : Option Text
  pub vat_id : Option Text
  pub middlename : Option Text

-- `repository.OrderPaymentData`, a row of `sales_order_payment`.
pub record OrderPaymentData : Type 0 where
  pub entity_id : ℕ
  pub parent_id : ℕ
  pub method : Text
  pub additional_information : Option Text

-- `repository.InvoiceData` and `repository.CreditMemoData`, rows of `sales_invoice` and
-- `sales_creditmemo`: two types with the same fields.
pub record InvoiceData : Type 0 where
  pub entity_id : ℕ
  pub order_id : ℕ
  pub increment_id : Text
  pub grand_total : Float
  pub subtotal : Float
  pub tax_amount : Float
  pub shipping_amount : Float
  pub created_at : Text

pub record CreditMemoData : Type 0 where
  pub entity_id : ℕ
  pub order_id : ℕ
  pub increment_id : Text
  pub grand_total : Float
  pub subtotal : Float
  pub tax_amount : Float
  pub shipping_amount : Float
  pub created_at : Text

-- A row of `sales_invoice_item` or of `sales_creditmemo_item`.
pub record DocumentItemRow : Type 0 where
  pub entity_id : ℕ
  pub parent_id : ℕ
  pub order_item_id : Option ℕ
  pub sku : Text
  pub name : Option Text
  pub price : Option Float
  pub qty : Float
  pub row_total : Option Float
  pub tax_amount : Option Float
  pub discount_amount : Option Float

-- `repository.InvoiceItemData` and `repository.CreditMemoItemData`
pub record InvoiceItemData : Type 0 where
  pub entity_id : ℕ
  pub parent_id : ℕ
  pub order_item_id : Option ℕ
  pub sku : Text
  pub name : Option Text
  pub price : Float
  pub qty : Float
  pub row_total : Float
  pub tax_amount : Float
  pub discount_amount : Float

pub record CreditMemoItemData : Type 0 where
  pub entity_id : ℕ
  pub parent_id : ℕ
  pub order_item_id : Option ℕ
  pub sku : Text
  pub name : Option Text
  pub price : Float
  pub qty : Float
  pub row_total : Float
  pub tax_amount : Float
  pub discount_amount : Float

-- `repository.ShipmentData`, a row of `sales_shipment`.
pub record ShipmentData : Type 0 where
  pub entity_id : ℕ
  pub order_id : ℕ
  pub increment_id : Text
  pub created_at : Text

-- `repository.ShipmentItemData`, a row of `sales_shipment_item`.
pub record ShipmentItemData : Type 0 where
  pub entity_id : ℕ
  pub parent_id : ℕ
  pub order_item_id : Option ℕ
  pub sku : Option Text
  pub name : Option Text
  pub qty : Float

-- `repository.ShipmentTrackData`, a row of `sales_shipment_track`.
pub record ShipmentTrackData : Type 0 where
  pub entity_id : ℕ
  pub parent_id : ℕ
  pub track_number : Option Text
  pub title : Option Text
  pub carrier_code : Text

-- `repository.OrderCommentData`, a row of `sales_order_status_history`.
pub record OrderCommentData : Type 0 where
  pub entity_id : ℕ
  pub parent_id : ℕ
  pub comment : Option Text
  pub created_at : Text
  pub is_visible_on_front : ℕ

pub data SalesTable : Type 0 where
  sales_order sales_order_item sales_order_address sales_order_payment : SalesTable
  sales_invoice sales_invoice_item sales_shipment sales_shipment_item : SalesTable
  sales_shipment_track sales_creditmemo sales_creditmemo_item : SalesTable
  sales_order_status_history : SalesTable

-- The tables.
pub record Sales : Type 0 where
  pub orders : List OrderData
  pub items : List OrderItemRow
  pub addresses : List OrderAddressData
  pub payments : List OrderPaymentData
  pub invoices : List InvoiceData
  pub invoice_items : List DocumentItemRow
  pub shipments : List ShipmentData
  pub shipment_items : List ShipmentItemData
  pub shipment_tracks : List ShipmentTrackData
  pub credit_memos : List CreditMemoData
  pub credit_memo_items : List DocumentItemRow
  pub comments : List OrderCommentData
  -- whether `Scan` takes the row of a table with an id: it does not where a column is NULL that is
  -- read into a field that is no pointer
  pub scans : SalesTable → ℕ → Bool
  -- `sales_order_status`: a status and its label
  pub status_labels : List (Text × Text)
