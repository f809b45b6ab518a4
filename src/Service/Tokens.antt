-- ===== src/Service/Tokens.antt =====
-- internal/service/customer.go: signing in and out, and the availability of an email address.
pub mod Login
pub mod BruteForce
use magento2_customer_graphq.Base.{ℕ, Bool, true, false, not, Option, none, some, ◌==◌}
use magento2_customer_graphq.Base.Text.{Text, is_empty}
use magento2_customer_graphq.Errors.{
  auth_failed, unauthorized, email_invalid, email_confirmation_required, token_generation,
  token_revocation,
}
use magento2_customer_graphq.World.Monad.{Action, ◌>>=◌, ◌>>◌, pure, fail, fail_if, within, or_fail}
use magento2_customer_graphq.Env.{Env, email_availability_check}
use magento2_customer_graphq.Repository.Customer.{
  CustomerData, get_by_email, email_exists, reset_login_failures,
}
use magento2_customer_graphq.Repository.Password.{rounds_checked, verify_password}
use magento2_customer_graphq.Repository.Cache.{website_id_for_store}
use magento2_customer_graphq.Repository.Token
use magento2_customer_graphq.Repository.Token.{revoke_all_for_customer}
use magento2_customer_graphq.Service.Security.{
  is_valid_email, check_account_lockout, record_login_failure,
}

-- A confirmation key that is set marks an account as unconfirmed.
abbrev pub is_unconfirmed : Option Text → Bool
is_unconfirmed none = false
is_unconfirmed (some key) = not (is_empty key)

module _ (env : Env) where
  -- `if customerID == 0 { return nil, mgerrors.ErrUnauthorized }`
  abbrev pub signed_in : Action (Unit {0})
  signed_in = fail_if (env.customer_id == 0) unauthorized

  -- What follows the checks of the account, by the test of the password.
  unfoldable pub login_result : ℕ → Bool → Action Text
  login_result id false = record_login_failure env id >> fail auth_failed
  login_result id true = reset_login_failures id >> within token_generation (Token.create env id)

  -- The checks on an account that was found.
  unfoldable pub login_with : Text → CustomerData → Action Text
  unfolding login_result
  login_with password c = do
    fail_if (not (c.is_active == 1)) auth_failed
    check_account_lockout env c
    fail_if (is_unconfirmed c.confirmation) email_confirmation_required
    rounds_checked c.password_hash
    login_result c.entity_id (verify_password env c.password_hash password)

  unfoldable pub generate_token : Text → Text → Action Text
  unfolding login_with
  generate_token email password = do
    website ← website_id_for_store env.store_id
    c ← or_fail auth_failed (get_by_email env email website)
    login_with password c

  unfoldable pub revoke_token : Action Bool
  revoke_token = do
    signed_in
    within token_revocation (revoke_all_for_customer env env.customer_id)
    pure true

  -- Where the check is disabled, every address is available.
  unfoldable pub availability : Text → Bool → Action Bool
  availability email false = pure true
  availability email true = do
    website ← website_id_for_store env.store_id
    exists ← email_exists env email website
    pure (not exists)

  unfoldable pub is_email_available : Text → Action Bool
  unfolding availability
  is_email_available email = do
    fail_if (not (is_valid_email email)) email_invalid
    availability email (env.get_bool email_availability_check env.store_id)
