-- ===== src/Errors/Messages.antt =====
-- The texts of the errors, and the category that internal/app/app.go presents them with.
use magento2_customer_graphq.Base.{
  suc, ◌≡◌, refl, true, Option, none, some, List, [], ◌∷◌, ◌++◌, if◌then◌else◌, ◌||◌,
}
use magento2_customer_graphq.Base.Text.{Text, text}
use magento2_customer_graphq.Go.Int.{ℤ, pos, negsuc}
use magento2_customer_graphq.Go.Strconv.{itoa}
use magento2_customer_graphq.Go.Strings.{contains, contains_after}
use magento2_customer_graphq.Errors.{
  Context, Error, wrap, unauthorized, no_rows, database, jwt_not_configured, jwt_failed,
  salt_failed, malformed_uid, customer_by_id, address_by_id, group_by_id, store_by_id,
  customer_by_email, update_customer, delete_customer, update_address, delete_address,
  addresses_for_customer, revoke_tokens, create_customer, create_address, email_check,
  newsletter_check, subscribe, unsubscribe, customer_lookup, address_lookup, token_generation,
  token_revocation, store_reset_token, generate_salt, count_orders, query_orders, query_order_items,
  query_order_addresses, query_order_payments, query_invoices, query_invoice_items, query_shipments,
  query_shipment_items, query_shipment_tracks, query_credit_memos, query_credit_memo_items,
  query_order_comments, scan_order_row, scan_order_item_row, scan_order_address_row,
  scan_order_payment_row, scan_invoice_row, scan_invoice_item_row, scan_shipment_row,
  scan_shipment_item_row, scan_shipment_track_row, scan_credit_memo_row, scan_credit_memo_item_row,
  scan_order_comment_row, fetch_orders, items, addresses, payments, invoices, invoice_items,
  shipments, shipment_items, shipment_tracks, credit_memos, credit_memo_items, comments,
  invalid_customer_id, load_attributes, scan_value, query_values, option_labels,
  invalid_address_uid, address_by_int, get_wishlist_items, get_wishlist, create_wishlist,
  count_wishlist_items, lookup_product, save_item, remove_items, password_too_short,
  password_too_long, password_classes_short, password_mismatch, password_token_bad,
  password_reset_expiry, auth_failed, email_already_exists, no_such_email,
  confirmation_token_invalid, address_not_owned, address_default_billing_delete,
  address_default_shipping_delete, email_confirmation_required, account_locked,
  email_invalid_format, email_invalid, email_address_not_valid, not_authenticated,
  attribute_not_found, wishlist_not_authorized, product_not_found, invalid_item_id,
}

-- `%d` of an id.
abbrev print : ℤ → Text
print (pos n) = itoa n
print (negsuc n) = text "-" ++ itoa (suc n)

-- What `fmt.Errorf` puts before the error that it wraps.
unfoldable pub prefix_of : Context → Text
unfolding itoa
prefix_of (customer_by_id n) = text "customer " ++ (itoa n ++ text " not found: ")
prefix_of (address_by_id n) = text "address " ++ (itoa n ++ text " not found: ")
prefix_of (group_by_id n) = text "customer group " ++ (itoa n ++ text " not found: ")
prefix_of (store_by_id n) = text "store " ++ (itoa n ++ text " not found: ")
prefix_of (customer_by_email s) = text "customer " ++ (s ++ text " not found: ")
prefix_of (update_customer n) = text "update customer " ++ (itoa n ++ text " failed: ")
prefix_of (delete_customer n) = text "delete customer " ++ (itoa n ++ text " failed: ")
prefix_of (update_address n) = text "update address " ++ (itoa n ++ text " failed: ")
prefix_of (delete_address n) = text "delete address " ++ (itoa n ++ text " failed: ")
prefix_of (addresses_for_customer n) = text "get addresses for customer " ++ (itoa n ++ text ": ")
prefix_of (revoke_tokens n) = text "revoke tokens for customer " ++ (itoa n ++ text ": ")
prefix_of create_customer = text "create customer failed: "
prefix_of create_address = text "create address failed: "
prefix_of email_check = text "email check failed: "
prefix_of newsletter_check = text "newsletter check: "
prefix_of subscribe = text "subscribe: "
prefix_of unsubscribe = text "unsubscribe: "
prefix_of customer_lookup = text "customer not found: "
prefix_of address_lookup = text "address not found: "
prefix_of token_generation = text "token generation failed: "
prefix_of token_revocation = text "token revocation failed: "
prefix_of store_reset_token = text "failed to store reset token: "
prefix_of generate_salt = text "generate salt failed: "
prefix_of count_orders = text "count orders failed: "
prefix_of query_orders = text "query orders failed: "
prefix_of query_order_items = text "query order items failed: "
prefix_of query_order_addresses = text "query order addresses failed: "
prefix_of query_order_payments = text "query order payments failed: "
prefix_of query_invoices = text "query invoices failed: "
prefix_of query_invoice_items = text "query invoice items failed: "
prefix_of query_shipments = text "query shipments failed: "
prefix_of query_shipment_items = text "query shipment items failed: "
prefix_of query_shipment_tracks = text "query shipment tracks failed: "
prefix_of query_credit_memos = text "query credit memos failed: "
prefix_of query_credit_memo_items = text "query credit memo items failed: "
prefix_of query_order_comments = text "query order comments failed: "
prefix_of scan_order_row = text "scan order row failed: "
prefix_of scan_order_item_row = text "scan order item row failed: "
prefix_of scan_order_address_row = text "scan order address row failed: "
prefix_of scan_order_payment_row = text "scan order payment row failed: "
prefix_of scan_invoice_row = text "scan invoice row failed: "
prefix_of scan_invoice_item_row = text "scan invoice item row failed: "
prefix_of scan_shipment_row = text "scan shipment row failed: "
prefix_of scan_shipment_item_row = text "scan shipment item row failed: "
prefix_of scan_shipment_track_row = text "scan shipment track row failed: "
prefix_of scan_credit_memo_row = text "scan credit memo row failed: "
prefix_of scan_credit_memo_item_row = text "scan credit memo item row failed: "
prefix_of scan_order_comment_row = text "scan order comment row failed: "
prefix_of fetch_orders = text "fetch orders: "
prefix_of items = text "items: "
prefix_of addresses = text "addresses: "
prefix_of payments = text "payments: "
prefix_of invoices = text "invoices: "
prefix_of invoice_items = text "invoice items: "
prefix_of shipments = text "shipments: "
prefix_of shipment_items = text "shipment items: "
prefix_of shipment_tracks = text "shipment tracks: "
prefix_of credit_memos = text "credit memos: "
prefix_of credit_memo_items = text "credit memo items: "
prefix_of comments = text "comments: "
prefix_of invalid_customer_id = text "invalid customer id: "
prefix_of (load_attributes s) = text "load " ++ (s ++ text " EAV attributes: ")
prefix_of (scan_value s) = text "scan " ++ (s ++ text " value: ")
prefix_of (query_values s) = text "query " ++ (s ++ text ": ")
prefix_of (option_labels n) = text "get option labels for attribute " ++ (itoa n ++ text ": ")
prefix_of invalid_address_uid = text "invalid address uid: "
prefix_of (address_by_int z) = text "address " ++ (print z ++ text " not found: ")
prefix_of get_wishlist_items = text "get wishlist items: "
prefix_of get_wishlist = text "get wishlist: "
prefix_of create_wishlist = text "create wishlist: "
prefix_of count_wishlist_items = text "count wishlist items: "
prefix_of lookup_product = text "lookup product: "
prefix_of save_item = text "save wishlist item: "
prefix_of remove_items = text "remove wishlist items: "

-- The text that is not the repository's own is a parameter.
module _ (external : Error → Text) where
  unfoldable pub message : Error → Text
  unfolding itoa prefix_of
  message (password_too_short n) =
      text "the password needs at least "
      ++ (itoa n ++ text " characters. Create a new password and try again")
  message password_too_long = text "please enter a valid password with at most 256 characters"
  message (password_classes_short n) =
      text "minimum of different classes of characters in password is "
      ++ (itoa n
          ++ text ". Classes of characters: Lower Case, Upper Case, Digits, Special Characters")
  message password_mismatch =
      text "The password doesn't match this account. Verify the password and try again."
  message password_token_bad = text "the password token is mismatched. Reset and try again"
  message password_reset_expiry = text "your password reset link has expired"
  message auth_failed =
      text
        "The account sign-in was incorrect or your account is disabled temporarily. Please wait and try again later."
  message email_already_exists =
      text "a customer with the same email address already exists in an associated website"
  message (no_such_email s) = text "no such entity with email = " ++ s
  message confirmation_token_invalid =
      text "the confirmation token is invalid. Verify the token and try again"
  message address_not_owned = text "address doesn't belong to this customer"
  message (address_default_billing_delete n) =
      text "Customer Address "
      ++ (itoa n ++ text " is set as default billing address and can not be deleted")
  message (address_default_shipping_delete n) =
      text "Customer Address "
      ++ (itoa n ++ text " is set as default shipping address and can not be deleted")
  message email_confirmation_required = text "This account isn't confirmed. Verify and try again."
  message account_locked = text "The account is locked."
  message email_invalid_format = text "The email address has an invalid format."
  message email_invalid = text "Email is invalid"
  message email_address_not_valid = text "Email address is not valid"
  message not_authenticated = text "customer not authenticated"
  message attribute_not_found = text "attribute not found"
  message wishlist_not_authorized = text "The current customer isn't authorized."
  message product_not_found = text "product not found"
  message (invalid_item_id s) = text "invalid item id: " ++ s
  message jwt_not_configured =
      text "JWT manager not configured " ++ (226 ∷ 128 ∷ 148 ∷ text " set MAGENTO_CRYPT_KEY")
  message unauthorized = external unauthorized
  message malformed_uid = external malformed_uid
  message no_rows = external no_rows
  message database = external database
  message jwt_failed = external jwt_failed
  message salt_failed = external salt_failed
  message (wrap c e) = prefix_of c ++ message e

-- `extensions.category`
pub data Category : Type 0 where
  graphql_authorization graphql_authentication : Category

-- The switch of `magentoErrorPresenter`.
unfoldable pub category : Text → Option Category
unfolding contains
category msg =
    if contains (text "isn't authorized") msg
    then some graphql_authorization
    else if contains (text "account sign-in was incorrect") msg
        || contains (text "token has been revoked") msg
    then some graphql_authentication
    else none

-- An error on its way through the layers.
abbrev pub wrapped : List Context → Error → Error
wrapped [] e = e
wrapped (c ∷ cs) e = wrap c (wrapped cs e)

module _ (external : Error → Text) where
  contains-wrapped :
      (sub : Text) (cs : List Context) (e : Error)
      → contains sub (message external e) ≡ true
      → contains sub (message external (wrapped cs e)) ≡ true
  unfolding message
  contains-wrapped sub [] e h = h
  contains-wrapped sub (c ∷ cs) e h =
      contains_after sub (prefix_of c) (message external (wrapped cs e))
        (contains-wrapped sub cs e h)

  -- A refusal for lack of a customer is presented as one of authorization, however it was wrapped,
  -- where its text says so.
  pub category-unauthorized :
      (cs : List Context)
      → contains (text "isn't authorized") (external unauthorized) ≡ true
      → category (message external (wrapped cs unauthorized)) ≡ some graphql_authorization
  unfolding category message
  category-unauthorized cs h = rw (contains-wrapped _ cs unauthorized h) refl

  -- So are the refusals of the wishlists; a login that is refused is presented as one of
  -- authentication.
  pub own_categories :
      (category (message external wishlist_not_authorized) ≡ some graphql_authorization)
      × (category (message external auth_failed) ≡ some graphql_authentication)
      × (category (message external not_authenticated) ≡ none)
  unfolding category message contains
  own_categories = (refl, refl, refl)
