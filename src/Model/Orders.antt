-- ===== src/Model/Orders.antt =====
-- graph/model/models_gen.go: the filter and the sort of a customer's orders, and the orders.
use magento2_customer_graphq.Base.{ℕ, Option, List}
use magento2_customer_graphq.Base.Text.{Text}
use magento2_customer_graphq.Go.Int.{ℤ}
use magento2_customer_graphq.World.Orders.{Float}

pub record FilterStringTypeInput : Type 0 where
  pub eq : Option Text
  pub match_ : Option Text
  -- `[]*string`: an entry can be null.
  pub in_ : List (Option Text)

pub record FilterRangeTypeInput : Type 0 where
  pub from : Option Text
  pub to : Option Text

pub record FilterEqualTypeInput : Type 0 where
  pub eq : Option Text
  pub in_ : List (Option Text)

pub record CustomerOrdersFilterInput : Type 0 where
  pub number : Option FilterStringTypeInput
  pub order_date : Option FilterRangeTypeInput
  pub status : Option FilterEqualTypeInput
  pub grand_total : Option FilterRangeTypeInput

-- A string type of Go, that any text can be cast to.
abbrev pub SortEnum : Type 0
SortEnum = Text

pub record CustomerOrderSortInput : Type 0 where
  pub order_date : Option SortEnum
  pub number : Option SortEnum
  pub grand_total : Option SortEnum

-- The outputs. What the service never sets is left out.
pub record Money : Type 0 where
  pub value : Float
  pub currency : Text

pub record OrderAddress : Type 0 where
  pub firstname : Text
  pub lastname : Text
  pub middlename : Option Text
  pub prefix : Option Text
  pub suffix : Option Text
  pub company : Option Text
  pub street : List Text
  pub city : Text
  pub region : Option Text
  pub region_id : Option ℕ
  pub postcode : Option Text
  pub country_code : Option Text
  pub telephone : Option Text
  pub fax : Option Text
  pub vat_id : Option Text

pub record OrderItem : Type 0 where
  pub id : Text
  pub product_name : Option Text
  pub product_sku : Text
  pub product_type : Option Text
  pub product_sale_price : Money
  pub quantity_ordered : Float
  pub quantity_shipped : Float
  pub quantity_invoiced : Float
  pub quantity_refunded : Float
  pub quantity_canceled : Float
  pub status : Option Text

pub record OrderPaymentMethod : Type 0 where
  pub name : Text
  pub type_ : Text

pub record SalesCommentItem : Type 0 where
  pub message : Text
  pub timestamp : Text

-- `OrderTotal`, `InvoiceTotal` and `CreditMemoTotal`, which have the same fields.
pub record OrderTotal : Type 0 where
  pub grand_total : Money
  pub subtotal : Money
  pub total_tax : Money
  pub total_shipping : Money

pub record InvoiceItem : Type 0 where
  pub id : Text
  pub product_name : Option Text
  pub product_sku : Text
  pub product_sale_price : Money
  pub quantity_invoiced : Float

pub record Invoice : Type 0 where
  pub id : Text
  pub number : Text
  pub total : OrderTotal
  pub items : List InvoiceItem

pub record ShipmentItem : Type 0 where
  pub id : Text
  pub product_name : Option Text
  pub product_sku : Text
  pub quantity_shipped : Float

pub record ShipmentTracking : Type 0 where
  pub title : Text
  pub carrier : Text
  pub number : Option Text

pub record OrderShipment : Type 0 where
  pub id : Text
  pub number : Text
  pub tracking : List ShipmentTracking
  pub items : List ShipmentItem

pub record CreditMemoItem : Type 0 where
  pub id : Text
  pub product_name : Option Text
  pub product_sku : Text
  pub product_sale_price : Money
  pub quantity_refunded : Float

pub record CreditMemo : Type 0 where
  pub id : Text
  pub number : Text
  pub total : OrderTotal
  pub items : List CreditMemoItem

pub record CustomerOrder : Type 0 where
  pub id : Text
  pub order_number : Text
  pub number : Text
  pub order_date : Text
  pub status : Text
  pub shipping_method : Option Text
  pub shipping_address : Option OrderAddress
  pub billing_address : Option OrderAddress
  pub payment_methods : List OrderPaymentMethod
  pub items : List OrderItem
  pub total : OrderTotal
  pub invoices : List Invoice
  pub shipments : List OrderShipment
  pub credit_memos : List CreditMemo
  pub comments : List SalesCommentItem

pub record CustomerOrders : Type 0 where
  pub items : List CustomerOrder
  pub total_count : ℕ
  pub current_page : ℕ
  pub page_size : ℕ
  pub total_pages : ℤ
