-- ===== src/History/Accounts.antt =====
-- The operations of internal/service/customer.go that write to accounts leave
-- `customer_address_entity` alone.
use magento2_customer_graphq.Base.{ℕ, refl, Bool, true, false, not, [], ◌∷◌, arith}
use magento2_customer_graphq.Base.Text.{Text}
use magento2_customer_graphq.Errors.{
  auth_failed, email_already_exists, password_mismatch, token_generation,
}
use magento2_customer_graphq.World.Monad.{Action, ◌>>=◌, ◌>>◌, fail_if, or_fail, within, ignore}
use magento2_customer_graphq.World.Monad.Frame.{Keeps, >>=-Keeps, >>-Keeps, when-Keeps}
use magento2_customer_graphq.Env.{Env}
use magento2_customer_graphq.Model.{Customer as Output, CustomerCreateInput, CustomerUpdateInput}
use magento2_customer_graphq.Repository.Customer.{
  CustomerData, get_by_id, get_by_email, set_lock_expires, reset_login_failures, email_exists,
  increment_login_failure, get_login_failures, create, update, delete, set_password_hash, set_email,
}
use magento2_customer_graphq.Repository.Cache.{website_id_for_store}
use magento2_customer_graphq.Repository.Password.{rounds_checked, verify_password, hash_password}
use magento2_customer_graphq.Repository.Token
use magento2_customer_graphq.Repository.Token.{revoke_all_for_customer}
use magento2_customer_graphq.Service.Mapper.{map_customer}
use magento2_customer_graphq.Service.Password.{validate_password}
use magento2_customer_graphq.Service.Security.{
  check_account_lockout, record_login_failure, lock_text,
}
use magento2_customer_graphq.Service.Tokens.{signed_in, login_result, login_with, generate_token}
use magento2_customer_graphq.Service.Accounts.{
  subscribe_new, create_customer, new_customer, change_subscription, update_customer, update_fields,
  replace_password, replace_email, change_password, update_email, delete_customer,
}
use magento2_customer_graphq.Service.Addresses.Frames.{the_addresses}
use magento2_customer_graphq.History.Statements.{
  the_rows, in_addresses, get_by_id-Keeps, get_by_email-Keeps, website_id_for_store-Keeps,
  email_exists-Keeps, hash_password-Keeps, update-Keeps, create-Keeps, delete-Keeps,
  revoke_all-Keeps, token-Keeps, reset_login_failures-Keeps, get_login_failures-Keeps,
  increment_login_failure-Keeps,
}
use magento2_customer_graphq.History.Profiles.{
  map_customer-Keeps, profile-Keeps, validate_password-Keeps, subscribe_new-Keeps,
  change_subscription-Keeps,
}

-- A step of the operation, and what follows it.
abbrev pub step :
    {A B : Type 0} (m : Action A) (f : A → Action B)
    → Keeps the_addresses m
    → ((a : A) → Keeps the_addresses (f a))
    → Keeps the_addresses (m >>= f)
step = >>=-Keeps the_addresses

abbrev pub then_ :
    {B : Type 0} (m : Action (Unit {0})) (k : Action B)
    → Keeps the_addresses m
    → Keeps the_addresses k
    → Keeps the_addresses (m >> k)
then_ = >>-Keeps the_addresses

-- A step that only reads.
abbrev pub read :
    {A B : Type 0} (m : Action A) (f : A → Action B)
    → Keeps the_rows m
    → ((a : A) → Keeps the_addresses (f a))
    → Keeps the_addresses (m >>= f)
read m f h = step m f (in_addresses m h)

abbrev pub then_read :
    {B : Type 0} (m : Action (Unit {0})) (k : Action B)
    → Keeps the_rows m
    → Keeps the_addresses k
    → Keeps the_addresses (m >> k)
then_read m k h = then_ m k (in_addresses m h)

profile_addresses : (id : ℕ) → Keeps the_addresses (get_by_id id >>= map_customer)
profile_addresses id = in_addresses (get_by_id id >>= map_customer) (profile-Keeps id)

module _ (env : Env) where
  signed-Keeps :
      {B : Type 0} (k : Action B) → Keeps the_addresses k → Keeps the_addresses (signed_in env >> k)
  signed-Keeps k = then_ (signed_in env) k (λ w. refl)

  pub website-Keeps :
      {B : Type 0} (f : ℕ → Action B)
      → ((website : ℕ) → Keeps the_addresses (f website))
      → Keeps the_addresses (website_id_for_store env.store_id >>= f)
  website-Keeps f =
      read (website_id_for_store env.store_id) f (website_id_for_store-Keeps env.store_id)

  record_login_failure-Keeps : (id : ℕ) → Keeps the_addresses (record_login_failure env id)
  unfolding record_login_failure
  record_login_failure-Keeps id =
      then_ (increment_login_failure env id) _ (increment_login_failure-Keeps env id) (
        read (get_login_failures id) _ (get_login_failures-Keeps id) (λ n.
          when-Keeps the_addresses _ _
            (update-Keeps env id (set_lock_expires (lock_text env) ∷ []))))

  login_result-Keeps : (id : ℕ) (right : Bool) → Keeps the_addresses (login_result env id right)
  unfolding login_result
  login_result-Keeps id false =
      then_ (record_login_failure env id) _ (record_login_failure-Keeps id) (λ w. refl)
  login_result-Keeps id true =
      then_ (reset_login_failures id) _ (reset_login_failures-Keeps id)
        (in_addresses (within token_generation (Token.create env id)) (token-Keeps env id))

  login_with-Keeps :
      (password : Text) (c : CustomerData) → Keeps the_addresses (login_with env password c)
  unfolding login_with check_account_lockout
  login_with-Keeps password c w =
      ground
        (arith, login_result-Keeps c.entity_id (verify_password env c.password_hash password) w)

  pub generate_token-Keeps :
      (email password : Text) → Keeps the_addresses (generate_token env email password)
  unfolding generate_token
  generate_token-Keeps email password = website-Keeps _ (λ website.
      read (or_fail auth_failed (get_by_email env email website)) _
        (get_by_email-Keeps env email website) (login_with-Keeps password))

  pub create_customer-Keeps :
      (input : CustomerCreateInput) → Keeps the_addresses (create_customer env input)
  unfolding create_customer
  create_customer-Keeps input = website-Keeps _ (λ website.
      then_read (validate_password env input.password) _
        (validate_password-Keeps env input.password)
        (read (email_exists env input.email website) _ (email_exists-Keeps env input.email website)
          (λ exists.
            then_ (fail_if exists email_already_exists) _ (λ w. refl)
              (read (hash_password env input.password) _ (hash_password-Keeps env input.password)
                (λ hash.
                  step (create env (new_customer input website env.store_id hash)) _
                    (create-Keeps env (new_customer input website env.store_id hash))
                    (λ id.
                      then_read (subscribe_new env input id) _ (subscribe_new-Keeps env input id) (
                        read (get_by_id id) _ (get_by_id-Keeps id)
                          (λ c. read (map_customer c) _ (map_customer-Keeps c) (λ o w. refl)))))))))

  pub update_customer-Keeps :
      (input : CustomerUpdateInput) → Keeps the_addresses (update_customer env input)
  unfolding update_customer
  update_customer-Keeps input = signed-Keeps _ (
      then_ (update env env.customer_id (update_fields input)) _
        (update-Keeps env env.customer_id (update_fields input))
        (then_read (change_subscription env input.is_subscribed) _
          (change_subscription-Keeps env input.is_subscribed) (profile_addresses env.customer_id)))

  replace_password-Keeps :
      (new : Text) (c : CustomerData) → Keeps the_addresses (replace_password env new c)
  unfolding replace_password
  replace_password-Keeps new c =
      then_read (validate_password env new) _ (validate_password-Keeps env new) (
        read (hash_password env new) _ (hash_password-Keeps env new) (λ hash.
          then_ (update env env.customer_id (set_password_hash hash ∷ [])) _
            (update-Keeps env env.customer_id (set_password_hash hash ∷ []))
            (then_read (ignore (revoke_all_for_customer env env.customer_id)) _
              (revoke_all-Keeps env env.customer_id) (profile_addresses env.customer_id))))

  replace_email-Keeps :
      (email : Text) (c : CustomerData) → Keeps the_addresses (replace_email env email c)
  unfolding replace_email
  replace_email-Keeps email c = website-Keeps _ (λ website.
      read (email_exists env email website) _ (email_exists-Keeps env email website) (λ exists.
        then_ (fail_if exists email_already_exists) _ (λ w. refl)
          (then_ (update env env.customer_id (set_email email ∷ [])) _
            (update-Keeps env env.customer_id (set_email email ∷ []))
            (profile_addresses env.customer_id))))

  -- Behind the test of the password.
  gated-Keeps :
      (password : Text) (k : CustomerData → Action Output)
      → ((c : CustomerData) → Keeps the_addresses (k c))
      → Keeps the_addresses (
          signed_in env
          >> (get_by_id env.customer_id >>= λ c.
              rounds_checked c.password_hash
              >> (fail_if (not (verify_password env c.password_hash password)) password_mismatch
                  >> k c)))
  gated-Keeps password k h = signed-Keeps _ (
      read (get_by_id env.customer_id) _ (get_by_id-Keeps env.customer_id) (λ c.
        then_ (rounds_checked c.password_hash) _ (λ w. refl)
          (then_ (fail_if (not (verify_password env c.password_hash password)) password_mismatch)
            (k c) (λ w. refl) (h c))))

  pub change_password-Keeps :
      (current new : Text) → Keeps the_addresses (change_password env current new)
  unfolding change_password
  change_password-Keeps current new =
      gated-Keeps current (replace_password env new) (replace_password-Keeps new)

  pub update_email-Keeps :
      (email password : Text) → Keeps the_addresses (update_email env email password)
  unfolding update_email
  update_email-Keeps email password =
      gated-Keeps password (replace_email env email) (replace_email-Keeps email)

  pub delete_customer-Keeps : Keeps the_addresses (delete_customer env)
  unfolding delete_customer
  delete_customer-Keeps = signed-Keeps _ (
      then_read (ignore (revoke_all_for_customer env env.customer_id)) _
        (revoke_all-Keeps env env.customer_id)
        (then_ (delete env.customer_id) _ (delete-Keeps env.customer_id) (λ w. refl)))
