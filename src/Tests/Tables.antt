-- ===== src/Tests/Tables.antt =====
-- The rows that the service only reads, at the shop of the tests: orders, custom attributes and
-- the catalog.
use magento2_customer_graphq.Base.{ℕ, true, none, some, [], ◌∷◌, if◌then◌else◌}
use magento2_customer_graphq.Base.Text.{text, text_eq}
use magento2_customer_graphq.Go.Strconv.{itoa}
use magento2_customer_graphq.World.Orders.{Sales, OrderData, OrderItemRow}
use magento2_customer_graphq.World.Catalog.{Products}
use magento2_customer_graphq.World.Attributes.{Eav}

-- Two orders of the customer 7 and one of the customer 8.
abbrev order : ℕ → ℕ → OrderData
order id customer = record {
  entity_id = id;
  increment_id = itoa id;
  customer_id = customer;
  store_id = 1;
  status = text "pending";
  state = text "new";
  created_at = text "2024-01-02 03:04:05";
  grand_total = 30;
  subtotal = 20;
  tax_amount = 4;
  shipping_amount = 6;
  shipping_method = none;
  shipping_description = none;
  order_currency_code = text "eur";
}

abbrev order_item : ℕ → ℕ → OrderItemRow
order_item id order = record {
  item_id = id;
  order_id = order;
  product_type = none;
  sku = text "sku";
  name = none;
  price = some 10;
  qty_ordered = some 2;
  qty_shipped = none;
  qty_invoiced = none;
  qty_refunded = none;
  qty_canceled = none;
  row_total = some 20;
  tax_amount = none;
  discount_amount = none;
}

abbrev pub sales : Sales
sales = record {
  orders = order 100 7 ∷ order 101 8 ∷ order 102 7 ∷ [];
  items = order_item 1 100 ∷ order_item 2 101 ∷ order_item 3 102 ∷ order_item 4 100 ∷ [];
  addresses = [];
  payments = [];
  invoices =
      record {
        entity_id = 5;
        order_id = 100;
        increment_id = text "I5";
        grand_total = 30;
        subtotal = 20;
        tax_amount = 4;
        shipping_amount = 6;
        created_at = text "2024-01-02 03:04:05";
      }
      ∷ [];
  invoice_items = [];
  shipments = [];
  shipment_items = [];
  shipment_tracks = [];
  credit_memos = [];
  credit_memo_items = [];
  comments = [];
  scans = λ t n. true;
  status_labels = (text "pending", text "Pending") ∷ [];
}

-- A custom attribute of customers, with a drop-down of two options.
abbrev pub eav : Eav
eav = record {
  attributes =
      record {
        attribute_id = 50;
        entity_type_code = text "customer";
        attribute_code = text "color";
        backend_type = text "int";
        frontend_input = text "select";
        frontend_label = none;
        is_user_defined = 1;
        is_visible = none;
      }
      ∷ [];
  values = λ table.
      if text_eq table (text "customer_entity_int")
      then record { entity_id = 7; attribute_id = 50; value = some (text "61") } ∷ []
      else [];
  options =
      record { option_id = 60; attribute_id = 50; sort_order = 1 }
      ∷ record { option_id = 61; attribute_id = 50; sort_order = 2 }
      ∷ [];
  option_labels =
      record { option_id = 60; store_id = 0; value = text "Red" }
      ∷ record { option_id = 61; store_id = 0; value = text "Blue" }
      ∷ [];
}

-- Names of the products, and a price of one of them.
abbrev pub catalog : Products
catalog = record {
  attributes = record { attribute_id = 73; entity_type_id = 4; attribute_code = text "name" } ∷ [];
  texts =
      record { entity_id = 501; store_id = 0; attribute_id = 73; value = some (text "Anvil") }
      ∷ record { entity_id = 502; store_id = 0; attribute_id = 73; value = some (text "Bell") }
      ∷ [];
  prices =
      record { entity_id = 501; customer_group_id = 0; website_id = 1; final_price = some 1 } ∷ [];
}
