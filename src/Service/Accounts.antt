-- ===== src/Service/Accounts.antt =====
-- internal/service/customer.go: the profile, registration, changes of password and email address,
-- deletion, and the customer's group.
pub mod Frames
pub mod Unique
pub mod Gate
pub mod Deletion
pub mod Foreign
pub mod Password
use magento2_customer_graphq.Base.{
  ℕ, ◌+◌, ◌/◌, Bool, true, false, not, Option, none, some, List, [], ◌∷◌, ◌++◌, length, ◌==◌,
  if◌then◌else◌,
}
use magento2_customer_graphq.Base.Text.{Text}
use magento2_customer_graphq.Errors.{email_already_exists, password_mismatch, customer_lookup}
use magento2_customer_graphq.World.{welcome}
use magento2_customer_graphq.World.Monad.{
  Action, ◌>>=◌, ◌>>◌, pure, fail_if, within, attempt, ignore, deref, when, send,
}
use magento2_customer_graphq.Env.{Env, newsletter_active}
use magento2_customer_graphq.Model.{
  Customer, CustomerGroup, CustomerAddress, CustomerCreateInput, CustomerUpdateInput,
}
use magento2_customer_graphq.Repository.Customer.{
  CustomerData, Assign, set_firstname, set_lastname, set_middlename, set_prefix, set_suffix,
  set_dob, set_taxvat, set_gender, set_password_hash, set_email, get_by_id, email_exists, update,
  create, delete,
}
use magento2_customer_graphq.Repository.Password.{rounds_checked, verify_password, hash_password}
use magento2_customer_graphq.Repository.Cache.{website_id_for_store}
use magento2_customer_graphq.Repository.Token.{revoke_all_for_customer}
use magento2_customer_graphq.Repository.Address.{get_by_customer_id}
use magento2_customer_graphq.Repository.Newsletter.{
  is_subscribed, subscribe_customer, unsubscribe_customer,
}
use magento2_customer_graphq.Service.Mapper.{map_customer, map_addresses, map_group, field}
use magento2_customer_graphq.Service.Password.{validate_password}
use magento2_customer_graphq.Service.Tokens.{signed_in}

-- The pages of 20 addresses.
abbrev with_addresses : List CustomerAddress → Customer → Customer
with_addresses [] c = record c { addresses = []; addresses_v2 = none }
with_addresses (a ∷ as_) c = record c {
  addresses = a ∷ as_;
  addresses_v2 = some (record {
    items = a ∷ as_;
    total_count = length (a ∷ as_);
    page_info = record {
      current_page = 1;
      page_size = 20;
      total_pages = (length (a ∷ as_) + 19) / 20;
    };
  });
}

abbrev pub list_or_nil : {A : Type 0} → Option (List A) → List A
list_or_nil none = []
list_or_nil (some l) = l

abbrev pub true_or : Bool → Option Bool → Bool
true_or d none = d
true_or d (some b) = b

-- The row that a registration asks for.
unfoldable pub new_customer : CustomerCreateInput → ℕ → ℕ → Text → CustomerData
new_customer input website store hash = record {
  entity_id = 0;
  website_id = website;
  email = input.email;
  group_id = 1;
  store_id = store;
  created_at = [];
  updated_at = [];
  is_active = 0;
  prefix = input.prefix;
  firstname = some input.firstname;
  middlename = input.middlename;
  lastname = some input.lastname;
  suffix = input.suffix;
  dob = input.date_of_birth;
  password_hash = hash;
  default_billing = none;
  default_shipping = none;
  taxvat = input.taxvat;
  confirmation = none;
  gender = input.gender;
  rp_token = none;
  rp_token_created_at = none;
  failures_num = 0;
  lock_expires = none;
}

-- The map `fields` of `UpdateCustomer`.
unfoldable pub update_fields : CustomerUpdateInput → List Assign
update_fields input =
    field set_firstname input.firstname
    ++ (field set_lastname input.lastname
        ++ (field set_middlename input.middlename
            ++ (field set_prefix input.prefix
                ++ (field set_suffix input.suffix
                    ++ (field set_dob input.date_of_birth
                        ++ (field set_taxvat input.taxvat ++ field set_gender input.gender))))))

module _ (env : Env) where
  unfoldable pub get_customer : Action Customer
  get_customer = do
    signed_in env
    c ← within customer_lookup (get_by_id env.customer_id)
    customer ← map_customer c
    rows ← attempt (get_by_customer_id env.customer_id)
    addresses ← map_addresses (list_or_nil rows) c.default_billing c.default_shipping
    subscribed ← attempt (is_subscribed env.customer_id)
    pure (record (with_addresses addresses customer) {
      is_subscribed = some (true_or false subscribed);
    })

  -- The subscription that a registration may ask for; its error is only logged.
  unfoldable pub subscribe_new : CustomerCreateInput → ℕ → Action (Unit {0})
  subscribe_new input id = when (true_or false input.is_subscribed) (
      when (env.get_int newsletter_active env.store_id 1 == 1)
        (ignore (subscribe_customer env id env.store_id input.email)))

  unfoldable pub create_customer : CustomerCreateInput → Action Customer
  unfolding new_customer subscribe_new
  create_customer input = do
    website ← website_id_for_store env.store_id
    validate_password env input.password
    exists ← email_exists env input.email website
    fail_if exists email_already_exists
    hash ← hash_password env input.password
    id ← create env (new_customer input website env.store_id hash)
    subscribe_new input id
    c ← get_by_id id
    customer ← map_customer c
    send (welcome input.email (input.firstname ++ 32 ∷ input.lastname))
    pure customer

  -- `if input.IsSubscribed != nil { ... }`; the email of a customer that was not found is a nil
  -- dereference.
  unfoldable pub subscribe_found : Option CustomerData → Bool → Action (Unit {0})
  subscribe_found found true = do
    c ← deref found
    ignore (subscribe_customer env env.customer_id env.store_id c.email)
  subscribe_found found false = ignore (unsubscribe_customer env env.customer_id)

  unfoldable pub change_subscription : Option Bool → Action (Unit {0})
  unfolding subscribe_found
  change_subscription none = pure tt
  change_subscription (some wanted) = do
    found ← attempt (get_by_id env.customer_id)
    subscribe_found found wanted

  unfoldable pub update_customer : CustomerUpdateInput → Action Customer
  unfolding update_fields change_subscription
  update_customer input = do
    signed_in env
    update env env.customer_id (update_fields input)
    change_subscription input.is_subscribed
    c ← get_by_id env.customer_id
    map_customer c

  -- Behind the test of the current password; the row that was read is not used again.
  unfoldable pub replace_password : Text → CustomerData → Action Customer
  replace_password new c = do
    validate_password env new
    hash ← hash_password env new
    update env env.customer_id (set_password_hash hash ∷ [])
    ignore (revoke_all_for_customer env env.customer_id)
    c' ← get_by_id env.customer_id
    map_customer c'

  unfoldable pub change_password : Text → Text → Action Customer
  unfolding replace_password
  change_password current new = do
    signed_in env
    c ← get_by_id env.customer_id
    rounds_checked c.password_hash
    fail_if (not (verify_password env c.password_hash current)) password_mismatch
    replace_password new c

  unfoldable pub replace_email : Text → CustomerData → Action Customer
  replace_email email c = do
    website ← website_id_for_store env.store_id
    exists ← email_exists env email website
    fail_if exists email_already_exists
    update env env.customer_id (set_email email ∷ [])
    c' ← get_by_id env.customer_id
    map_customer c'

  unfoldable pub update_email : Text → Text → Action Customer
  unfolding replace_email
  update_email email password = do
    signed_in env
    c ← get_by_id env.customer_id
    rounds_checked c.password_hash
    fail_if (not (verify_password env c.password_hash password)) password_mismatch
    replace_email email c

  unfoldable pub delete_customer : Action Bool
  delete_customer = do
    signed_in env
    ignore (revoke_all_for_customer env env.customer_id)
    delete env.customer_id
    pure true

  -- Who is not signed in has the group 0.
  unfoldable pub get_customer_group : Action CustomerGroup
  get_customer_group =
      if env.customer_id == 0
      then map_group 0
      else (get_by_id env.customer_id >>= λ c. map_group c.group_id)
