-- ===== src/History/Addresses.antt =====
-- The addresses of a customer in a history of requests that others make.
use magento2_customer_graphq.Base.{List, ℕ, ◌≡◌, ◌≢◌, ap, ◌∙◌, Option, none, some, arith}
use magento2_customer_graphq.Go.Int.{ℤ, pos, negsuc}
use magento2_customer_graphq.Env.{Env}
use magento2_customer_graphq.World.{World, AddressData}
use magento2_customer_graphq.World.Monad.{Action}
use magento2_customer_graphq.Repository.Sql.{find}
use magento2_customer_graphq.Repository.Address.{has_id}
use magento2_customer_graphq.Service.Addresses.Ownership.{shows, foreign_address_kept}
use magento2_customer_graphq.Graph
use magento2_customer_graphq.Graph.{decode_uid}
use magento2_customer_graphq.Graph.Resolvers
use magento2_customer_graphq.Graph.Resolvers.{at_uid, missing_address}
use magento2_customer_graphq.Graph.Requests
use magento2_customer_graphq.Graph.Requests.{Request, handle}
use magento2_customer_graphq.History.Accounts.{
  generate_token-Keeps, create_customer-Keeps, update_customer-Keeps, change_password-Keeps,
  update_email-Keeps, delete_customer-Keeps,
}
use magento2_customer_graphq.History.Profiles.{
  revoke_token-Keeps, is_email_available-Keeps, get_customer-Keeps, get_customer_group-Keeps,
}
use magento2_customer_graphq.History.Resets.{
  request_password_reset_email-Keeps, reset_password-Keeps, confirm_email-Keeps,
  resend_confirmation_email-Keeps,
}
use magento2_customer_graphq.History.Orders.{get_orders-Keeps}
use magento2_customer_graphq.History.Wishlists.{
  add_products_to_wishlist-Keeps, remove_products_from_wishlist-Keeps, wishlist-Keeps,
  items_v2-Keeps,
}
use magento2_customer_graphq.History.Attributes.{get_custom_attributes-Keeps}
use magento2_customer_graphq.History.{request, weather, History, start, ◌then◌}

module _ (env : Env) (j : ℕ) (w : World) (a : AddressData) (e : shows j w ≡ some a)
    (foreign : a.parent_id ≢ env.customer_id) where
  -- A table that was left alone.
  kept_by : {rows : List AddressData} → rows ≡ w.addresses → find (has_id j) rows ≡ some a
  kept_by h = ap (find (has_id j)) h ∙ e

  missing-shows : (A : Type 0) (id : ℤ) → shows j (missing_address env {A = A} id w).1 ≡ some a
  missing-shows A id = ground arith

  at_uid-shows :
      {A : Type 0} (k : ℕ → Action A) (id : Option ℤ)
      → ((n : ℕ) → shows j (k n w).1 ≡ some a)
      → shows j (at_uid env k id w).1 ≡ some a
  at_uid-shows k none h = e
  at_uid-shows k (some (pos n)) h = h n
  at_uid-shows {A = A} k (some (negsuc n)) h = missing-shows A (negsuc n)

  handle-shows : (r : Request) → shows j (handle env r w).1 ≡ some a
  unfolding handle Resolvers.update_customer_address_v2 Resolvers.delete_customer_address_v2
      Resolvers.orders Resolvers.custom_attributes Resolvers.custom_attributes_v2
      Graph.create_customer Graph.update_customer
  handle-shows Requests.customer = kept_by (ap (λ p. p.0) (get_customer-Keeps env w))
  handle-shows Requests.customer_group = kept_by (ap (λ p. p.0) (get_customer_group-Keeps env w))
  handle-shows (Requests.is_email_available email) =
      kept_by (ap (λ p. p.0) (is_email_available-Keeps env email w))
  handle-shows (Requests.orders obj filter page size sort) =
      kept_by (ap (λ p. p.0) (get_orders-Keeps env obj filter sort _ _ w))
  handle-shows (Requests.wishlist obj) = kept_by (ap (λ p. p.0) (wishlist-Keeps env obj w))
  handle-shows (Requests.items_v2 obj size page) =
      kept_by (ap (λ p. p.0) (items_v2-Keeps env obj size page w))
  handle-shows (Requests.custom_attributes obj codes) =
      kept_by (ap (λ p. p.0) (get_custom_attributes-Keeps env _ obj codes w))
  handle-shows (Requests.custom_attributes_v2 none codes) = e
  handle-shows (Requests.custom_attributes_v2 (some id) codes) =
      kept_by (ap (λ p. p.0) (get_custom_attributes-Keeps env _ id codes w))
  handle-shows (Requests.generate_customer_token email password) =
      kept_by (generate_token-Keeps env email password w)
  handle-shows Requests.revoke_customer_token = kept_by (ap (λ p. p.0) (revoke_token-Keeps env w))
  handle-shows (Requests.create_customer input) = kept_by (create_customer-Keeps env _ w)
  handle-shows (Requests.create_customer_v2 input) = kept_by (create_customer-Keeps env input w)
  handle-shows (Requests.update_customer input) = kept_by (update_customer-Keeps env _ w)
  handle-shows (Requests.update_customer_v2 input) = kept_by (update_customer-Keeps env input w)
  handle-shows (Requests.change_customer_password current new) =
      kept_by (change_password-Keeps env current new w)
  handle-shows (Requests.update_customer_email email password) =
      kept_by (update_email-Keeps env email password w)
  handle-shows Requests.delete_customer = kept_by (delete_customer-Keeps env w)
  handle-shows (Requests.create_customer_address input) =
      (foreign_address_kept env j w a e foreign).0 input
  handle-shows (Requests.update_customer_address id input) =
      (foreign_address_kept env j w a e foreign).1 id input
  handle-shows (Requests.update_customer_address_v2 uid input) =
      at_uid-shows _ (decode_uid uid) (λ id. (foreign_address_kept env j w a e foreign).1 id input)
  handle-shows (Requests.delete_customer_address id) =
      (foreign_address_kept env j w a e foreign).2 id
  handle-shows (Requests.delete_customer_address_v2 uid) =
      at_uid-shows _ (decode_uid uid) (foreign_address_kept env j w a e foreign).2
  handle-shows (Requests.request_password_reset_email email) =
      kept_by (request_password_reset_email-Keeps env email w)
  handle-shows (Requests.reset_password email token new) =
      kept_by (reset_password-Keeps env email token new w)
  handle-shows (Requests.confirm_email input) = kept_by (confirm_email-Keeps env input w)
  handle-shows (Requests.resend_confirmation_email email) =
      kept_by (ap (λ p. p.0) (resend_confirmation_email-Keeps env email w))
  handle-shows (Requests.add_products_to_wishlist id its) =
      kept_by (ap (λ p. p.0) (add_products_to_wishlist-Keeps env id its w))
  handle-shows (Requests.remove_products_from_wishlist id ids) =
      kept_by (ap (λ p. p.0) (remove_products_from_wishlist-Keeps env id ids w))

-- A request that does not come from the customer.
abbrev pub NotFrom : ℕ → Env → Request → World → Type 0
NotFrom owner env r w = owner ≢ env.customer_id

-- However many requests other customers and visitors make, of whatever kind and with whatever
-- arguments, and whichever statements fail: the row of an address stays as it is.
pub address_kept_in_history :
    (j : ℕ) (a : AddressData) (u v : World)
    → History (NotFrom a.parent_id) u v
    → shows j u ≡ some a
    → shows j v ≡ some a
address_kept_in_history j a u v (start w) e = e
address_kept_in_history j a u v (request env r w foreign then rest) e =
    address_kept_in_history j a _ v rest (handle-shows env j w a e foreign r)
address_kept_in_history j a u v (weather failing w then rest) e =
    address_kept_in_history j a _ v rest e
