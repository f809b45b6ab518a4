-- ===== src/Graph/Resolvers.antt =====
-- The resolvers of graph/schema.resolvers.go that take a UID, and those of the fields of a customer
-- and of an address. The parent object is one that the services made, so that its `ID` is the text
-- of an id, which Atoi reads back.
use magento2_customer_graphq.Base.{ℕ, Bool, Option, none, some, List, []}
use magento2_customer_graphq.Base.Text.{Text, text}
use magento2_customer_graphq.Go.Int.{ℤ, pos, negsuc}
use magento2_customer_graphq.Go.Strconv.{itoa}
use magento2_customer_graphq.Errors.{
  no_rows, malformed_uid, invalid_address_uid, address_by_int, address_lookup,
}
use magento2_customer_graphq.World.Monad.{Action, ◌>>=◌, ◌>>◌, pure, fail, within, statement}
use magento2_customer_graphq.Env.{Env}
use magento2_customer_graphq.Model.{CustomerAddress, CustomerAddressInput}
use magento2_customer_graphq.Model.Orders.{
  CustomerOrdersFilterInput, CustomerOrderSortInput, CustomerOrders,
}
use magento2_customer_graphq.Model.Attributes.{AttributeValueInterface}
use magento2_customer_graphq.Repository.Wishlist.{get_or_create, count_items}
use magento2_customer_graphq.Service.Tokens.{signed_in}
use magento2_customer_graphq.Service.Addresses.{update_address, delete_address}
use magento2_customer_graphq.Service.Attributes.{get_custom_attributes}
use magento2_customer_graphq.Service.Orders.Listing.{get_orders}
use magento2_customer_graphq.Graph.{decode_uid}
use magento2_customer_graphq.Graph.Wishlists.{Wishlist}

abbrev pub or_default : ℕ → Option ℕ → ℕ
or_default d none = d
or_default d (some n) = n

module _ (env : Env) where
  -- No row has an id below 0.
  abbrev pub missing_address : {A : Type 0} → ℤ → Action A
  missing_address id = do
    signed_in env
    within address_lookup (within (address_by_int id) (statement >> fail no_rows))

  -- `id, err := decodeUID(uid)`, and a call with the id.
  abbrev pub at_uid : {A : Type 0} → (ℕ → Action A) → Option ℤ → Action A
  at_uid k none = within invalid_address_uid (fail malformed_uid)
  at_uid k (some (pos id)) = k id
  at_uid k (some (negsuc n)) = missing_address (negsuc n)

  unfoldable pub update_customer_address_v2 : Text → CustomerAddressInput → Action CustomerAddress
  update_customer_address_v2 uid input = at_uid (λ id. update_address env id input) (decode_uid uid)

  unfoldable pub delete_customer_address_v2 : Text → Action Bool
  delete_customer_address_v2 uid = at_uid (delete_address env) (decode_uid uid)

  -- The fields of the customer with the id `obj`.
  unfoldable pub orders :
      ℕ
      → Option CustomerOrdersFilterInput
      → Option ℕ
      → Option ℕ
      → Option CustomerOrderSortInput
      → Action CustomerOrders
  orders obj filter current_page page_size sort =
      get_orders env obj filter sort (or_default 1 current_page) (or_default 20 page_size)

  unfoldable pub custom_attributes : ℕ → List Text → Action (List AttributeValueInterface)
  custom_attributes obj codes = get_custom_attributes env (text "customer") obj codes

  unfoldable pub wishlist : ℕ → Action Wishlist
  wishlist obj = do
    id ← get_or_create env obj
    count ← count_items id
    pure (record { id = itoa id; items_count = count })

  -- The field of an address, whose id may be null.
  unfoldable pub custom_attributes_v2 : Option ℕ → List Text → Action (List AttributeValueInterface)
  custom_attributes_v2 none codes = pure []
  custom_attributes_v2 (some id) codes =
      get_custom_attributes env (text "customer_address") id codes
