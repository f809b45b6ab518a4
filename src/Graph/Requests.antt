-- ===== src/Graph/Requests.antt =====
-- A request, and what it leaves: the fields of graph/schema.resolvers.go that a client can ask for.
use magento2_customer_graphq.Base.{ℕ, Option, List}
use magento2_customer_graphq.Base.Text.{Text}
use magento2_customer_graphq.World.Monad.{Action, ignore}
use magento2_customer_graphq.Env.{Env}
use magento2_customer_graphq.Model.{
  CustomerInput, CustomerCreateInput, CustomerUpdateInput, CustomerAddressInput, ConfirmEmailInput,
}
use magento2_customer_graphq.Model.Orders.{CustomerOrdersFilterInput, CustomerOrderSortInput}
use magento2_customer_graphq.Service.Tokens
use magento2_customer_graphq.Service.Accounts
use magento2_customer_graphq.Service.Reset
use magento2_customer_graphq.Service.Addresses
use magento2_customer_graphq.Graph
use magento2_customer_graphq.Graph.Wishlists
use magento2_customer_graphq.Graph.Wishlists.{WishlistItemInput}
use magento2_customer_graphq.Graph.Resolvers
use magento2_customer_graphq.Graph.Wishlists.Listing

-- One constructor for each field of a query or a mutation, and for each field of a customer or an
-- address that has a resolver.
pub data Request : Type 0 where
  customer customer_group : Request
  is_email_available : Text → Request
  orders :
      ℕ
      → Option CustomerOrdersFilterInput
      → Option ℕ
      → Option ℕ
      → Option CustomerOrderSortInput
      → Request
  wishlist : ℕ → Request
  items_v2 : ℕ → Option ℕ → Option ℕ → Request
  custom_attributes : ℕ → List Text → Request
  custom_attributes_v2 : Option ℕ → List Text → Request
  generate_customer_token : Text → Text → Request
  revoke_customer_token : Request
  create_customer : CustomerInput → Request
  create_customer_v2 : CustomerCreateInput → Request
  update_customer : CustomerInput → Request
  update_customer_v2 : CustomerUpdateInput → Request
  change_customer_password update_customer_email : Text → Text → Request
  delete_customer : Request
  create_customer_address : CustomerAddressInput → Request
  update_customer_address : ℕ → CustomerAddressInput → Request
  update_customer_address_v2 : Text → CustomerAddressInput → Request
  delete_customer_address : ℕ → Request
  delete_customer_address_v2 : Text → Request
  request_password_reset_email : Text → Request
  reset_password : Text → Text → Text → Request
  confirm_email : ConfirmEmailInput → Request
  resend_confirmation_email : Text → Request
  add_products_to_wishlist : Text → List WishlistItemInput → Request
  remove_products_from_wishlist : Text → List Text → Request

-- The resolver of the field, with its answer dropped.
unfoldable pub handle : Env → Request → Action (Unit {0})
handle env customer = ignore (Accounts.get_customer env)
handle env customer_group = ignore (Accounts.get_customer_group env)
handle env (is_email_available email) = ignore (Tokens.is_email_available env email)
handle env (orders obj filter page size sort) =
    ignore (Resolvers.orders env obj filter page size sort)
handle env (wishlist obj) = ignore (Resolvers.wishlist env obj)
handle env (items_v2 obj size page) = ignore (Listing.items_v2 env obj size page)
handle env (custom_attributes obj codes) = ignore (Resolvers.custom_attributes env obj codes)
handle env (custom_attributes_v2 obj codes) = ignore (Resolvers.custom_attributes_v2 env obj codes)
handle env (generate_customer_token email password) =
    ignore (Tokens.generate_token env email password)
handle env revoke_customer_token = ignore (Tokens.revoke_token env)
handle env (create_customer input) = ignore (Graph.create_customer env input)
handle env (create_customer_v2 input) = ignore (Accounts.create_customer env input)
handle env (update_customer input) = ignore (Graph.update_customer env input)
handle env (update_customer_v2 input) = ignore (Accounts.update_customer env input)
handle env (change_customer_password current new) =
    ignore (Accounts.change_password env current new)
handle env (update_customer_email email password) =
    ignore (Accounts.update_email env email password)
handle env delete_customer = ignore (Accounts.delete_customer env)
handle env (create_customer_address input) = ignore (Addresses.create_address env input)
handle env (update_customer_address id input) = ignore (Addresses.update_address env id input)
handle env (update_customer_address_v2 uid input) =
    ignore (Resolvers.update_customer_address_v2 env uid input)
handle env (delete_customer_address id) = ignore (Addresses.delete_address env id)
handle env (delete_customer_address_v2 uid) = ignore (Resolvers.delete_customer_address_v2 env uid)
handle env (request_password_reset_email email) =
    ignore (Reset.request_password_reset_email env email)
handle env (reset_password email token new) = ignore (Reset.reset_password env email token new)
handle env (confirm_email input) = ignore (Reset.confirm_email env input)
handle env (resend_confirmation_email email) = ignore (Reset.resend_confirmation_email env email)
handle env (add_products_to_wishlist id items) =
    ignore (Wishlists.add_products_to_wishlist env id items)
handle env (remove_products_from_wishlist id ids) =
    ignore (Wishlists.remove_products_from_wishlist env id ids)
