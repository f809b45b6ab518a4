-- ===== src/Errors.antt =====
-- The errors that the services return: internal/errors/messages.go, the errors that
-- internal/repository wraps, and what the driver and magento2-go-common report.
pub mod Messages
use magento2_customer_graphq.Base.{ℕ}
use magento2_customer_graphq.Base.Text.{Text}
use magento2_customer_graphq.Go.Int.{ℤ}

-- The operation that an error passed through, in the words of its `fmt.Errorf`.
pub data Context : Type 0 where
  customer_by_id address_by_id group_by_id store_by_id : ℕ → Context
  customer_by_email : Text → Context
  update_customer delete_customer update_address delete_address : ℕ → Context
  addresses_for_customer revoke_tokens : ℕ → Context
  create_customer create_address email_check newsletter_check subscribe unsubscribe : Context
  customer_lookup address_lookup token_generation token_revocation store_reset_token : Context
  generate_salt : Context
  count_orders query_orders query_order_items query_order_addresses query_order_payments : Context
  query_invoices query_invoice_items query_shipments query_shipment_items : Context
  query_shipment_tracks query_credit_memos query_credit_memo_items query_order_comments : Context
  scan_order_row scan_order_item_row scan_order_address_row scan_order_payment_row
        scan_invoice_row :
      Context
  scan_invoice_item_row scan_shipment_row scan_shipment_item_row scan_shipment_track_row : Context
  scan_credit_memo_row scan_credit_memo_item_row scan_order_comment_row : Context
  fetch_orders items addresses payments invoices invoice_items shipments shipment_items : Context
  shipment_tracks credit_memos credit_memo_items comments invalid_customer_id : Context
  load_attributes scan_value query_values : Text → Context
  option_labels : ℕ → Context
  invalid_address_uid : Context
  address_by_int : ℤ → Context
  get_wishlist_items : Context
  get_wishlist create_wishlist count_wishlist_items lookup_product save_item remove_items : Context

pub data Error : Type 0 where
  -- `ErrAuthFailed`
  auth_failed : Error
  password_too_short : ℕ → Error
  password_too_long : Error
  password_classes_short : ℕ → Error
  password_mismatch password_token_bad password_reset_expiry : Error
  email_already_exists : Error
  no_such_email : Text → Error
  confirmation_token_invalid : Error
  address_not_owned : Error
  address_default_billing_delete address_default_shipping_delete : ℕ → Error
  email_confirmation_required account_locked : Error
  email_invalid_format email_invalid email_address_not_valid : Error
  -- `mgerrors.ErrUnauthorized`
  unauthorized : Error
  -- internal/service, graph/schema.resolvers.go and internal/repository/wishlist.go
  not_authenticated attribute_not_found wishlist_not_authorized product_not_found : Error
  invalid_item_id : Text → Error
  -- What base64 or strconv say of a UID
  malformed_uid : Error
  -- `sql.ErrNoRows`, and any other failure of a statement
  no_rows database : Error
  jwt_not_configured jwt_failed salt_failed : Error
  wrap : Context → Error → Error
