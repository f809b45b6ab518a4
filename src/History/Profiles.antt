-- ===== src/History/Profiles.antt =====
-- Operations of internal/service/customer.go that leave `customer_address_entity` and
-- `customer_entity` alone.
use magento2_customer_graphq.Base.{
  ℕ, refl, Bool, true, false, Option, none, some, List, [], ◌∷◌, arith, Bool-cases, inl, inr, ◌==◌,
}
use magento2_customer_graphq.Base.Text.{Text}
use magento2_customer_graphq.Errors.{token_revocation, customer_lookup}
use magento2_customer_graphq.World.{AddressData}
use magento2_customer_graphq.World.Monad.{Action, ◌>>=◌, attempt, within}
use magento2_customer_graphq.World.Monad.Frame.{Keeps, when-Keeps}
use magento2_customer_graphq.Env.{Env, newsletter_active, email_availability_check}
use magento2_customer_graphq.Model.{CustomerCreateInput}
use magento2_customer_graphq.Repository.Customer.{CustomerData, get_by_id, email_exists}
use magento2_customer_graphq.Repository.Cache.{get_group, website_id_for_store}
use magento2_customer_graphq.Repository.Token.{revoke_all_for_customer}
use magento2_customer_graphq.Repository.Newsletter.{is_subscribed}
use magento2_customer_graphq.Repository.Address.{get_region, get_by_customer_id}
use magento2_customer_graphq.Service.Mapper.{map_customer, map_group, map_address, map_addresses}
use magento2_customer_graphq.Service.Password.{validate_password}
use magento2_customer_graphq.Service.Tokens.{
  signed_in, revoke_token, availability, is_email_available,
}
use magento2_customer_graphq.Service.Accounts.{
  get_customer, list_or_nil, get_customer_group, subscribe_new, true_or, subscribe_found,
  change_subscription,
}
use magento2_customer_graphq.History.Statements.{
  the_rows, reads, then_reads, get_by_id-Keeps, website_id_for_store-Keeps, email_exists-Keeps,
  revoke_all-Keeps, subscribe-Keeps, unsubscribe-Keeps, is_subscribed-Keeps,
  get_by_customer_id-Keeps, get_group-Keeps,
}

pub map_group-Keeps : (id : ℕ) → Keeps the_rows (map_group id)
unfolding map_group
map_group-Keeps id = reads (get_group id) _ (get_group-Keeps id) (λ g w. refl)

pub map_customer-Keeps : (c : CustomerData) → Keeps the_rows (map_customer c)
unfolding map_customer
map_customer-Keeps c =
    reads (attempt (map_group c.group_id)) _ (map_group-Keeps c.group_id) (λ g w. refl)

pub profile-Keeps : (id : ℕ) → Keeps the_rows (get_by_id id >>= map_customer)
profile-Keeps id = reads (get_by_id id) map_customer (get_by_id-Keeps id) map_customer-Keeps

map_address-Keeps :
    (a : AddressData) (billing shipping : Option ℕ)
    → Keeps the_rows (map_address a billing shipping)
unfolding map_address get_region
map_address-Keeps a billing shipping w = ground arith

map_addresses-Keeps :
    (as_ : List AddressData) (billing shipping : Option ℕ)
    → Keeps the_rows (map_addresses as_ billing shipping)
unfolding map_addresses
map_addresses-Keeps [] billing shipping = λ w. refl
map_addresses-Keeps (a ∷ as_) billing shipping =
    reads (map_address a billing shipping) _ (map_address-Keeps a billing shipping) (λ o.
      reads (map_addresses as_ billing shipping) _ (map_addresses-Keeps as_ billing shipping)
        (λ os w. refl))

module _ (env : Env) where
  pub website_rows :
      {B : Type 0} (f : ℕ → Action B)
      → ((website : ℕ) → Keeps the_rows (f website))
      → Keeps the_rows (website_id_for_store env.store_id >>= f)
  website_rows f =
      reads (website_id_for_store env.store_id) f (website_id_for_store-Keeps env.store_id)

  pub validate_password-Keeps : (password : Text) → Keeps the_rows (validate_password env password)
  unfolding validate_password
  validate_password-Keeps password w = ground arith

  pub revoke_token-Keeps : Keeps the_rows (revoke_token env)
  unfolding revoke_token
  revoke_token-Keeps =
      then_reads (signed_in env) _ (λ w. refl)
        (then_reads (within token_revocation (revoke_all_for_customer env env.customer_id)) _
          (revoke_all-Keeps env env.customer_id) (λ w. refl))

  availability-Keeps :
      (email : Text) (checked : Bool) → Keeps the_rows (availability env email checked)
  unfolding availability
  availability-Keeps email false = λ w. refl
  availability-Keeps email true = website_rows _ (λ website.
      reads (email_exists env email website) _ (email_exists-Keeps env email website) (λ b w. refl))

  pub is_email_available-Keeps : (email : Text) → Keeps the_rows (is_email_available env email)
  unfolding is_email_available
  is_email_available-Keeps email w =
      ground
        (arith, availability-Keeps email (env.get_bool email_availability_check env.store_id) w)

  pub get_customer-Keeps : Keeps the_rows (get_customer env)
  unfolding get_customer
  get_customer-Keeps =
      then_reads (signed_in env) _ (λ w. refl)
        (reads (within customer_lookup (get_by_id env.customer_id)) _
          (get_by_id-Keeps env.customer_id)
          (λ c. reads (map_customer c) _ (map_customer-Keeps c) (λ o.
            reads (attempt (get_by_customer_id env.customer_id)) _
              (get_by_customer_id-Keeps env.customer_id)
              (λ rows.
                reads (map_addresses (list_or_nil rows) c.default_billing c.default_shipping) _
                  (map_addresses-Keeps (list_or_nil rows) c.default_billing c.default_shipping)
                  (λ as_.
                    reads (attempt (is_subscribed env.customer_id)) _
                      (is_subscribed-Keeps env.customer_id) (λ s w. refl))))))

  pub get_customer_group-Keeps : Keeps the_rows (get_customer_group env)
  unfolding get_customer_group
  get_customer_group-Keeps = elim (Bool-cases (env.customer_id == 0)) [
    | inl e ↦ rw e (map_group-Keeps 0)
    | inr e ↦ rw e (
        reads (get_by_id env.customer_id) _ (get_by_id-Keeps env.customer_id)
          (λ c. map_group-Keeps c.group_id))
  ]

  pub subscribe_new-Keeps :
      (input : CustomerCreateInput) (id : ℕ) → Keeps the_rows (subscribe_new env input id)
  unfolding subscribe_new
  subscribe_new-Keeps input id = when-Keeps the_rows (true_or false input.is_subscribed) _ (
      when-Keeps the_rows (env.get_int newsletter_active env.store_id 1 == 1) _
        (subscribe-Keeps env id env.store_id input.email))

  subscribe_found-Keeps :
      (found : Option CustomerData) (wanted : Bool)
      → Keeps the_rows (subscribe_found env found wanted)
  unfolding subscribe_found
  subscribe_found-Keeps none true = λ w. refl
  subscribe_found-Keeps (some c) true = subscribe-Keeps env env.customer_id env.store_id c.email
  subscribe_found-Keeps none false = unsubscribe-Keeps env env.customer_id
  subscribe_found-Keeps (some c) false = unsubscribe-Keeps env env.customer_id

  pub change_subscription-Keeps :
      (wanted : Option Bool) → Keeps the_rows (change_subscription env wanted)
  unfolding change_subscription
  change_subscription-Keeps none = λ w. refl
  change_subscription-Keeps (some wanted) =
      reads (attempt (get_by_id env.customer_id)) _ (get_by_id-Keeps env.customer_id)
        (λ found. subscribe_found-Keeps found wanted)
