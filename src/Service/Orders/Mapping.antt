-- ===== src/Service/Orders/Mapping.antt =====
-- The mappers of internal/service/orders.go: rows of the sales tables to outputs.
use magento2_customer_graphq.Base.{
  Bool, true, false, not, ◌&&◌, Option, none, some, List, [], ◌∷◌, map, if◌then◌else◌,
}
use magento2_customer_graphq.Base.Text.{Text, text, text_eq, is_empty, split}
use magento2_customer_graphq.Go.Int.{ℤ}
use magento2_customer_graphq.Go.Strconv.{itoa}
use magento2_customer_graphq.Go.Strings.{to_upper, trim_space}
use magento2_customer_graphq.Env.{Env}
use magento2_customer_graphq.World.Orders.{
  Float, OrderItemData, OrderAddressData, OrderPaymentData, InvoiceData, CreditMemoData,
  InvoiceItemData, CreditMemoItemData, ShipmentData, ShipmentItemData, ShipmentTrackData,
  OrderCommentData,
}
use magento2_customer_graphq.Model.Enums.{is_valid_country, is_valid_currency}
use magento2_customer_graphq.Model.Orders.{
  Money, OrderAddress, OrderItem, OrderPaymentMethod, SalesCommentItem, OrderTotal, InvoiceItem,
  Invoice, ShipmentItem, ShipmentTracking, OrderShipment, CreditMemoItem, CreditMemo,
}
use magento2_customer_graphq.Service.Mapper.{format_date_time}

unfoldable pub parse_currency : Text → Text
parse_currency code = let c = to_upper code in if is_valid_currency c then c else text "USD"

unfoldable pub map_money : Float → Text → Money
unfolding parse_currency
map_money amount currency = record { value = amount; currency = parse_currency currency }

-- The lines that are not blank, trimmed.
unfoldable pub trimmed_lines : List Text → List Text
trimmed_lines [] = []
trimmed_lines (line ∷ lines) =
    let l = trim_space line in if is_empty l then trimmed_lines lines else l ∷ trimmed_lines lines

abbrev street_of : Option Text → List Text
unfolding trimmed_lines
street_of none = []
street_of (some s) = trimmed_lines (split 10 s)

unfoldable pub map_order_address : OrderAddressData → OrderAddress
unfolding street_of
map_order_address d = record {
  firstname = d.firstname;
  lastname = d.lastname;
  middlename = d.middlename;
  prefix = d.prefix;
  suffix = d.suffix;
  company = d.company;
  street = street_of d.street;
  city = d.city;
  region = d.region;
  region_id = d.region_id;
  postcode = d.postcode;
  country_code =
      if not (is_empty d.country_id) && is_valid_country d.country_id
      then some d.country_id
      else none;
  telephone = d.telephone;
  fax = d.fax;
  vat_id = d.vat_id;
}

-- `mapOrderItemWithCurrency`
unfoldable pub map_order_item : Text → OrderItemData → OrderItem
unfolding map_money
map_order_item currency d = record {
  id = itoa d.item_id;
  product_name = d.name;
  product_sku = d.sku;
  product_type = d.product_type;
  product_sale_price = map_money d.price currency;
  quantity_ordered = d.qty_ordered;
  quantity_shipped = d.qty_shipped;
  quantity_invoiced = d.qty_invoiced;
  quantity_refunded = d.qty_refunded;
  quantity_canceled = d.qty_canceled;
  status = d.status;
}

unfoldable pub map_payment : OrderPaymentData → OrderPaymentMethod
map_payment d = record { name = d.method; type_ = d.method }

abbrev comment_item : OrderCommentData → Option Text → Option SalesCommentItem
comment_item d none = none
comment_item d (some c) =
    if is_empty c then none else some (record { message = c; timestamp = d.created_at })

unfoldable pub map_comment : OrderCommentData → Option SalesCommentItem
map_comment d = comment_item d d.comment

abbrev pub totals : Float → Float → Float → Float → Text → OrderTotal
unfolding map_money
totals grand_total subtotal tax_amount shipping_amount currency = record {
  grand_total = map_money grand_total currency;
  subtotal = map_money subtotal currency;
  total_tax = map_money tax_amount currency;
  total_shipping = map_money shipping_amount currency;
}

unfoldable pub map_invoice_item : Text → InvoiceItemData → InvoiceItem
unfolding map_money
map_invoice_item currency i = record {
  id = itoa i.entity_id;
  product_name = i.name;
  product_sku = i.sku;
  product_sale_price = map_money i.price currency;
  quantity_invoiced = i.qty;
}

unfoldable pub map_invoice : InvoiceData → List InvoiceItemData → Text → Invoice
unfolding totals map_invoice_item
map_invoice d items currency = record {
  id = itoa d.entity_id;
  number = d.increment_id;
  total = totals d.grand_total d.subtotal d.tax_amount d.shipping_amount currency;
  items = map (map_invoice_item currency) items;
}

abbrev title_or : Option Text → Text → Text
title_or none carrier = carrier
title_or (some t) carrier = t

unfoldable pub map_track : ShipmentTrackData → ShipmentTracking
map_track t = record {
  title = title_or t.title t.carrier_code;
  carrier = t.carrier_code;
  number = t.track_number;
}

abbrev or_empty : Option Text → Text
or_empty none = []
or_empty (some s) = s

unfoldable pub map_shipment_item : ShipmentItemData → ShipmentItem
map_shipment_item i = record {
  id = itoa i.entity_id;
  product_name = i.name;
  product_sku = or_empty i.sku;
  quantity_shipped = i.qty;
}

unfoldable pub map_shipment :
    ShipmentData → List ShipmentItemData → List ShipmentTrackData → OrderShipment
unfolding map_track map_shipment_item
map_shipment d items tracks = record {
  id = itoa d.entity_id;
  number = d.increment_id;
  tracking = map map_track tracks;
  items = map map_shipment_item items;
}

unfoldable pub map_credit_memo_item : Text → CreditMemoItemData → CreditMemoItem
unfolding map_money
map_credit_memo_item currency i = record {
  id = itoa i.entity_id;
  product_name = i.name;
  product_sku = i.sku;
  product_sale_price = map_money i.price currency;
  quantity_refunded = i.qty;
}

unfoldable pub map_credit_memo : CreditMemoData → List CreditMemoItemData → Text → CreditMemo
unfolding totals map_credit_memo_item
map_credit_memo d items currency = record {
  id = itoa d.entity_id;
  number = d.increment_id;
  total = totals d.grand_total d.subtotal d.tax_amount d.shipping_amount currency;
  items = map (map_credit_memo_item currency) items;
}

-- The last address of a type.
abbrev or_later : Bool → Option OrderAddressData → OrderAddressData → Option OrderAddressData
or_later here (some later) a = some later
or_later true none a = some a
or_later false none a = none

unfoldable pub last_of_type : Text → List OrderAddressData → Option OrderAddressData
last_of_type type_ [] = none
last_of_type type_ (a ∷ as_) = or_later (text_eq a.address_type type_) (last_of_type type_ as_) a

abbrev pub address_of : Option OrderAddressData → Option OrderAddress
unfolding map_order_address
address_of none = none
address_of (some a) = some (map_order_address a)

unfoldable pub shown_comments : List OrderCommentData → List SalesCommentItem
shown_comments [] = []
shown_comments (c ∷ cs) = elim (map_comment c) [
  | none ↦ shown_comments cs
  | some item ↦ item ∷ shown_comments cs
]

module _ (env : Env) where
  -- `getStoreTimezone`: the format of a time there.
  abbrev located : Option (ℤ → Text) → ℤ → Text
  located none = env.format_time
  located (some format) = format

  unfoldable pub format_in_store : ℤ → Text
  format_in_store t =
      if is_empty env.timezone
      then env.format_time t
      else located (env.load_location env.timezone) t

  abbrev dated : Text → Option ℤ → Option ℤ → Text
  unfolding format_in_store
  dated s (some t) _ = format_in_store t
  dated s none (some t) = format_in_store t
  dated s none none = format_date_time s

  unfoldable pub format_order_date : Text → Text
  unfolding dated
  format_order_date s = dated s (env.parse_zulu s) (env.parse_time s)
