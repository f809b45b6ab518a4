-- ===== src/History/Credentials.antt =====
-- The password of an account in a history of requests of all kinds.
use magento2_customer_graphq.Base.{ℕ, ◌≡◌, ◌≢◌, ap, ◌∙◌, Option, none, some, List, arith}
use magento2_customer_graphq.Base.Text.{Text}
use magento2_customer_graphq.Go.Int.{ℤ, pos, negsuc}
use magento2_customer_graphq.Env.{Env}
use magento2_customer_graphq.World.{World, AddressData, CustomerRow}
use magento2_customer_graphq.Repository.Sql.{find}
use magento2_customer_graphq.Repository.Customer.{has_id}
use magento2_customer_graphq.World.Monad.{Action}
use magento2_customer_graphq.Service.Accounts.Foreign.{foreign_account_kept}
use magento2_customer_graphq.Service.Addresses.Accounts.{foreign_account_kept_by_addresses}
use magento2_customer_graphq.Graph
use magento2_customer_graphq.Graph.{decode_uid}
use magento2_customer_graphq.Graph.Resolvers
use magento2_customer_graphq.Graph.Resolvers.{at_uid, missing_address}
use magento2_customer_graphq.Graph.Requests
use magento2_customer_graphq.Graph.Requests.{Request, handle}
use magento2_customer_graphq.History.Profiles.{
  revoke_token-Keeps, is_email_available-Keeps, get_customer-Keeps, get_customer_group-Keeps,
}
use magento2_customer_graphq.History.Resets.{resend_confirmation_email-Keeps}
use magento2_customer_graphq.History.Orders.{get_orders-Keeps}
use magento2_customer_graphq.History.Wishlists.{
  add_products_to_wishlist-Keeps, remove_products_from_wishlist-Keeps, wishlist-Keeps,
  items_v2-Keeps,
}
use magento2_customer_graphq.History.Attributes.{get_custom_attributes-Keeps}
use magento2_customer_graphq.History.Passwords.{hash_in, Has}
use magento2_customer_graphq.History.Visitors.{
  generate_token-Stays, create_customer-Stays, request_password_reset_email-Stays,
  confirm_email-Stays,
}
use magento2_customer_graphq.History.Takeover.{TokenUnknown, reset_password-holds}
use magento2_customer_graphq.History.{request, weather, History, start, ◌then◌}

-- A reset does not give the token that the account has at that time.
abbrev pub IsUnforced : ℕ → Env → Request → World → Type 0
IsUnforced j env (Requests.reset_password email token new) w = TokenUnknown j env email token w
IsUnforced j env r w = Unit

-- A request that is not the customer's own, in this sense.
abbrev pub IsOutside : ℕ → Env → Request → World → Type 0
IsOutside j env r w = (env.customer_id ≢ j) × IsUnforced j env r w

module _ (env : Env) (j : ℕ) (h : Option Text) (w : World) (e : Has j h w)
    (other : env.customer_id ≢ j) where
  -- Two tables that were left alone.
  kept_by :
      {p : List AddressData × List CustomerRow}
      → p ≡ (w.addresses, w.customers)
      → hash_in (find (has_id j) p.1) ≡ some h
  kept_by k = ap (λ p. hash_in (find (has_id j) p.1)) k ∙ e

  missing-Has : (A : Type 0) (id : ℤ) → Has j h (missing_address env {A = A} id w).1
  missing-Has A id = ground arith

  at_uid-Has :
      {A : Type 0} (k : ℕ → Action A) (id : Option ℤ)
      → ((n : ℕ) → Has j h (k n w).1)
      → Has j h (at_uid env k id w).1
  at_uid-Has k none s = e
  at_uid-Has k (some (pos n)) s = s n
  at_uid-Has {A = A} k (some (negsuc n)) s = missing-Has A (negsuc n)

  handle-Has : (r : Request) → IsUnforced j env r w → Has j h (handle env r w).1
  unfolding handle Resolvers.update_customer_address_v2 Resolvers.delete_customer_address_v2
      Resolvers.orders Resolvers.custom_attributes Resolvers.custom_attributes_v2
      Graph.create_customer Graph.update_customer
  handle-Has Requests.customer k = kept_by (get_customer-Keeps env w)
  handle-Has Requests.customer_group k = kept_by (get_customer_group-Keeps env w)
  handle-Has (Requests.is_email_available email) k = kept_by (is_email_available-Keeps env email w)
  handle-Has (Requests.orders obj filter page size sort) k =
      kept_by (get_orders-Keeps env obj filter sort _ _ w)
  handle-Has (Requests.wishlist obj) k = kept_by (wishlist-Keeps env obj w)
  handle-Has (Requests.items_v2 obj size page) k = kept_by (items_v2-Keeps env obj size page w)
  handle-Has (Requests.custom_attributes obj codes) k =
      kept_by (get_custom_attributes-Keeps env _ obj codes w)
  handle-Has (Requests.custom_attributes_v2 (some id) codes) k =
      kept_by (get_custom_attributes-Keeps env _ id codes w)
  handle-Has Requests.revoke_customer_token k = kept_by (revoke_token-Keeps env w)
  handle-Has (Requests.resend_confirmation_email email) k =
      kept_by (resend_confirmation_email-Keeps env email w)
  handle-Has (Requests.add_products_to_wishlist id its) k =
      kept_by (add_products_to_wishlist-Keeps env id its w)
  handle-Has (Requests.remove_products_from_wishlist id ids) k =
      kept_by (remove_products_from_wishlist-Keeps env id ids w)
  handle-Has (Requests.custom_attributes_v2 none codes) k = e
  handle-Has (Requests.generate_customer_token email password) k =
      generate_token-Stays j h env email password w e
  handle-Has (Requests.create_customer input) k = create_customer-Stays j h env _ w e
  handle-Has (Requests.create_customer_v2 input) k = create_customer-Stays j h env input w e
  handle-Has (Requests.request_password_reset_email email) k =
      request_password_reset_email-Stays j h env email w e
  handle-Has (Requests.confirm_email input) k = confirm_email-Stays j h env input w e
  handle-Has (Requests.reset_password email token new) k =
      reset_password-holds j h env email token new w k e
  handle-Has (Requests.update_customer input) k =
      ap hash_in ((foreign_account_kept env j w other).0 _) ∙ e
  handle-Has (Requests.update_customer_v2 input) k =
      ap hash_in ((foreign_account_kept env j w other).0 input) ∙ e
  handle-Has (Requests.change_customer_password current new) k =
      ap hash_in ((foreign_account_kept env j w other).1 current new) ∙ e
  handle-Has (Requests.update_customer_email email password) k =
      ap hash_in ((foreign_account_kept env j w other).2 email password) ∙ e
  handle-Has Requests.delete_customer k = ap hash_in (foreign_account_kept env j w other).3 ∙ e
  handle-Has (Requests.create_customer_address input) k =
      ap hash_in ((foreign_account_kept_by_addresses env j w other).0 input) ∙ e
  handle-Has (Requests.update_customer_address id input) k =
      ap hash_in ((foreign_account_kept_by_addresses env j w other).1 id input) ∙ e
  handle-Has (Requests.update_customer_address_v2 uid input) k =
      at_uid-Has _ (decode_uid uid)
        (λ id. ap hash_in ((foreign_account_kept_by_addresses env j w other).1 id input) ∙ e)
  handle-Has (Requests.delete_customer_address id) k =
      ap hash_in ((foreign_account_kept_by_addresses env j w other).2 id) ∙ e
  handle-Has (Requests.delete_customer_address_v2 uid) k =
      at_uid-Has _ (decode_uid uid)
        (λ id. ap hash_in ((foreign_account_kept_by_addresses env j w other).2 id) ∙ e)

-- However many requests others make, of whatever kind, and whichever statements fail: the hash of
-- an account's password stays as it is, as long as no request is signed in as the account and no
-- reset of its password gives the token that the account has at that time.
pub password_kept_in_history :
    (j : ℕ) (h : Option Text) (u v : World) → History (IsOutside j) u v → Has j h u → Has j h v
password_kept_in_history j h u v (start w) e = e
password_kept_in_history j h u v (request env r w (other, unforced) then rest) e =
    password_kept_in_history j h _ v rest (handle-Has env j h w e other r unforced)
password_kept_in_history j h u v (weather failing w then rest) e =
    password_kept_in_history j h _ v rest e
