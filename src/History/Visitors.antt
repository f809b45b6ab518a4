-- ===== src/History/Visitors.antt =====
-- The password of an account under the operations of internal/service/customer.go that need no
-- signed-in customer.
use magento2_customer_graphq.Base.{
  ℕ, refl, Bool, true, false, not, Option, none, some, [], ◌∷◌, arith,
}
use magento2_customer_graphq.Base.Text.{Text}
use magento2_customer_graphq.Errors.{
  auth_failed, token_generation, email_already_exists, email_invalid, email_invalid_format,
  no_such_email, confirmation_token_invalid,
}
use magento2_customer_graphq.Env.{Env}
use magento2_customer_graphq.World.Monad.{
  Action, ◌>>=◌, ◌>>◌, fail_if, attempt, or_fail, within, when, deref,
}
use magento2_customer_graphq.World.Monad.Frame.{Keeps, deref-Keeps}
use magento2_customer_graphq.Model.{CustomerCreateInput, ConfirmEmailInput}
use magento2_customer_graphq.Repository.Customer
use magento2_customer_graphq.Repository.Customer.{
  CustomerData, get_by_id, get_by_email, email_exists, has_email, set_lock_expires, set_rp_token,
  set_rp_token_created_at, set_confirmation, increment_login_failure, get_login_failures,
  reset_login_failures,
}
use magento2_customer_graphq.Repository.Password.{verify_password, hash_password}
use magento2_customer_graphq.Repository.Cache.{website_id_for_store}
use magento2_customer_graphq.Repository.Token
use magento2_customer_graphq.Service.Mapper.{map_customer}
use magento2_customer_graphq.Service.Password.{validate_password}
use magento2_customer_graphq.Service.Security.{
  is_valid_email, check_account_lockout, record_login_failure, lock_text,
}
use magento2_customer_graphq.Service.Tokens.{login_result, login_with, generate_token}
use magento2_customer_graphq.Service.Accounts.{create_customer, new_customer, subscribe_new}
use magento2_customer_graphq.Service.Reset.{
  request_password_reset_email, send_reset, or_true, reset_token, holds, confirm_email,
}
use magento2_customer_graphq.History.Statements.{
  the_rows, get_by_id-Keeps, get_by_email-Keeps, website_id_for_store-Keeps, email_exists-Keeps,
  hash_password-Keeps, token-Keeps, get_login_failures-Keeps,
}
use magento2_customer_graphq.History.Profiles.{
  validate_password-Keeps, subscribe_new-Keeps, map_customer-Keeps,
}
use magento2_customer_graphq.History.Passwords.{
  Stays, reads-Stays, step-Stays, update-Stays, increment-Stays, create-Stays, reset-Stays,
}

module _ (j : ℕ) (h : Option Text) where
  -- A step that only reads.
  abbrev pub look :
      {A B : Type 0} (m : Action A) (f : A → Action B)
      → Keeps the_rows m
      → ((a : A) → Stays j h (f a))
      → Stays j h (m >>= f)
  look m f k = step-Stays j h m f (reads-Stays j h m k)

  -- A step without a value that only reads, such as a test.
  abbrev pub then_look :
      {B : Type 0} (m : Action (Unit {0})) (k : Action B)
      → Keeps the_rows m
      → Stays j h k
      → Stays j h (m >> k)
  then_look m k r s = look m (λ _. k) r (λ _. s)

  when-Stays : (c : Bool) (m : Action (Unit {0})) → Stays j h m → Stays j h (when c m)
  when-Stays true m k = k
  when-Stays false m k = λ w e. e

  module _ (env : Env) where
    pub website-Stays :
        {B : Type 0} (f : ℕ → Action B)
        → ((website : ℕ) → Stays j h (f website))
        → Stays j h (website_id_for_store env.store_id >>= f)
    website-Stays f =
        look (website_id_for_store env.store_id) f (website_id_for_store-Keeps env.store_id)

    record_login_failure-Stays : (id : ℕ) → Stays j h (record_login_failure env id)
    unfolding record_login_failure Customer.assign_all
    record_login_failure-Stays id =
        step-Stays j h (increment_login_failure env id) _ (increment-Stays j h env id) (λ _.
          look (get_login_failures id) _ (get_login_failures-Keeps id) (λ n.
            when-Stays _ _
              (update-Stays j h env id (set_lock_expires (lock_text env)) [] (λ r. refl))))

    login_result-Stays : (id : ℕ) (right : Bool) → Stays j h (login_result env id right)
    unfolding login_result
    login_result-Stays id false =
        step-Stays j h (record_login_failure env id) _ (record_login_failure-Stays id) (λ _ w e. e)
    login_result-Stays id true =
        step-Stays j h (reset_login_failures id) _ (reset-Stays j h id) (λ _.
          reads-Stays j h (within token_generation (Token.create env id)) (token-Keeps env id))

    login_with-Stays : (password : Text) (c : CustomerData) → Stays j h (login_with env password c)
    unfolding login_with check_account_lockout
    login_with-Stays password c w e =
        ground
          (arith, login_result-Stays c.entity_id (verify_password env c.password_hash password) w e)

    pub generate_token-Stays :
        (email password : Text) → Stays j h (generate_token env email password)
    unfolding generate_token
    generate_token-Stays email password = website-Stays _ (λ website.
        look (or_fail auth_failed (get_by_email env email website)) _
          (get_by_email-Keeps env email website) (login_with-Stays password))

    pub create_customer-Stays :
        (input : CustomerCreateInput) → Stays j h (create_customer env input)
    unfolding create_customer
    create_customer-Stays input = website-Stays _ (λ website.
        then_look (validate_password env input.password) _
          (validate_password-Keeps env input.password)
          (look (email_exists env input.email website) _
            (email_exists-Keeps env input.email website)
            (λ exists.
              then_look (fail_if exists email_already_exists) _ (λ w. refl)
                (look (hash_password env input.password) _ (hash_password-Keeps env input.password)
                  (λ hash.
                    step-Stays j h
                      (Customer.create env (new_customer input website env.store_id hash)) _
                      (create-Stays j h env (new_customer input website env.store_id hash))
                      (λ id.
                        then_look (subscribe_new env input id) _ (subscribe_new-Keeps env input id)
                          (look (get_by_id id) _ (get_by_id-Keeps id) (λ c.
                            look (map_customer c) _ (map_customer-Keeps c) (λ o w e. e)))))))))

    send_reset-Stays : (email : Text) (c : CustomerData) → Stays j h (send_reset env email c)
    unfolding send_reset Customer.assign_all
    send_reset-Stays email c w e = ground (
      arith,
      update-Stays j h env c.entity_id (set_rp_token (some (reset_token env)))
          (set_rp_token_created_at (some (env.format_time env.now)) ∷ []) (λ r. refl) w e,
    )

    or_true-Stays :
        (email : Text) (found : Option CustomerData)
        → Stays j h (or_true env found (send_reset env email))
    or_true-Stays email none = λ w e. e
    or_true-Stays email (some c) = send_reset-Stays email c

    pub request_password_reset_email-Stays :
        (email : Text) → Stays j h (request_password_reset_email env email)
    unfolding request_password_reset_email
    request_password_reset_email-Stays email =
        then_look (fail_if (not (is_valid_email email)) email_invalid_format) _ (λ w. refl)
          (website-Stays _ (λ website.
            look (attempt (get_by_email env email website)) _ (get_by_email-Keeps env email website)
              (or_true-Stays email)))

    confirmed-Stays :
        (id : ℕ)
        → Stays j h do
          Customer.update env id (set_confirmation none ∷ [])
          found ← attempt (get_by_id id)
          c ← deref found
          map_customer c
    unfolding Customer.assign_all
    confirmed-Stays id =
        step-Stays j h (Customer.update env id (set_confirmation none ∷ [])) _
          (update-Stays j h env id (set_confirmation none) [] (λ r. refl))
          (λ _. look (attempt (get_by_id id)) _ (get_by_id-Keeps id) (λ found.
            look (deref found) _ (deref-Keeps the_rows found)
              (λ c. reads-Stays j h (map_customer c) (map_customer-Keeps c))))

    pub confirm_email-Stays : (input : ConfirmEmailInput) → Stays j h (confirm_email env input)
    unfolding confirm_email
    confirm_email-Stays input =
        then_look (fail_if (not (is_valid_email input.email)) email_invalid) _ (λ w. refl)
          (website-Stays _ (λ website.
            look (or_fail (no_such_email input.email) (get_by_email env input.email website)) _
              (get_by_email-Keeps env input.email website)
              (λ c.
                then_look
                  (fail_if (not (holds c.confirmation input.confirmation_key))
                    confirmation_token_invalid)
                  _ (λ w. refl) (confirmed-Stays c.entity_id))))
