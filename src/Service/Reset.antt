-- ===== src/Service/Reset.antt =====
-- internal/service/customer.go: the reset of a password, and the confirmation of an email address.
pub mod Guard
pub mod SingleUse
pub mod Requests
use magento2_customer_graphq.Base.{
  ℕ, ◌+◌, Bool, true, false, not, Option, none, some, [], ◌∷◌, ◌++◌, if◌then◌else◌,
}
use magento2_customer_graphq.Base.Text.{Text, text, text_eq, is_empty}
use magento2_customer_graphq.Go.Int.{ltb_ℤ, pos_part, neg_part, sub_ℕ}
use magento2_customer_graphq.Go.Hex.{hex_encode}
use magento2_customer_graphq.Errors.{
  account_locked, confirmation_token_invalid, email_address_not_valid, email_invalid,
  email_invalid_format, no_such_email, password_reset_expiry, password_token_bad, store_reset_token,
}
use magento2_customer_graphq.World.{password_reset, email_confirmation}
use magento2_customer_graphq.World.Monad.{
  Action, ◌>>=◌, ◌>>◌, pure, fail_if, within, or_fail, attempt, ignore, deref, send,
}
use magento2_customer_graphq.Env.{Env, days, reset_link_expiration_period}
use magento2_customer_graphq.Model.{Customer, ConfirmEmailInput}
use magento2_customer_graphq.Repository.Customer.{
  CustomerData, set_password_hash, set_rp_token, set_rp_token_created_at, set_confirmation,
  get_by_id, get_by_email, update,
}
use magento2_customer_graphq.Repository.Password.{hash_password}
use magento2_customer_graphq.Repository.Cache.{website_id_for_store}
use magento2_customer_graphq.Repository.Token.{revoke_all_for_customer}
use magento2_customer_graphq.Service.Mapper.{map_customer}
use magento2_customer_graphq.Service.Password.{validate_password}
use magento2_customer_graphq.Service.Security.{is_valid_email, is_customer_locked}

-- `v != nil && *v == s`
abbrev pub holds : Option Text → Text → Bool
holds none s = false
holds (some t) s = text_eq t s

module _ (env : Env) where
  abbrev pub reset_token : Text
  reset_token = hex_encode env.reset_bytes

  abbrev reset_url : Text → Text
  reset_url email =
      env.storefront_url
      ++ (text "/reset-password?token="
          ++ (env.query_escape reset_token ++ (text "&email=" ++ env.query_escape email)))

  -- For an account that was found.
  unfoldable pub send_reset : Text → CustomerData → Action Bool
  send_reset email c = do
    fail_if (is_customer_locked env c) account_locked
    within store_reset_token (
        update env c.entity_id (
          set_rp_token (some reset_token)
          ∷ set_rp_token_created_at (some (env.format_time env.now))
          ∷ []))
    send (password_reset email (reset_url email))
    pure true

  abbrev pub or_true : Option CustomerData → (CustomerData → Action Bool) → Action Bool
  or_true none k = pure true
  or_true (some c) k = k c

  unfoldable pub request_password_reset_email : Text → Action Bool
  unfolding send_reset
  request_password_reset_email email = do
    fail_if (not (is_valid_email email)) email_invalid_format
    website ← website_id_for_store env.store_id
    found ← attempt (get_by_email env email website)
    or_true found (send_reset email)

  -- `time.Since(created) > expiryDuration`, where the time can be parsed.
  unfoldable pub is_expired : Option Text → Bool
  is_expired none = false
  is_expired (some s) = elim (env.parse_time s) [
    | none ↦ false
    | some created ↦
        ltb_ℤ (days (env.get_int reset_link_expiration_period env.store_id 1))
          (sub_ℕ (pos_part env.now + neg_part created) (pos_part created + neg_part env.now))
  ]

  -- The hash is replaced, the token is used up, and the sessions end.
  unfoldable pub replace_password : ℕ → Text → Action Bool
  replace_password id new = do
    hash ← hash_password env new
    update env id (set_password_hash hash ∷ set_rp_token none ∷ set_rp_token_created_at none ∷ [])
    ignore (revoke_all_for_customer env id)
    pure true

  -- For a token that is the account's.
  abbrev pub token_ok : Text → CustomerData → Action Bool
  token_ok new c = do
    fail_if (is_expired c.rp_token_created_at) password_reset_expiry
    validate_password env new
    replace_password c.entity_id new

  -- For an account that was found.
  unfoldable pub reset_with : Text → Text → CustomerData → Action Bool
  unfolding is_expired replace_password
  reset_with token new c = do
    fail_if (is_customer_locked env c) account_locked
    fail_if (not (holds c.rp_token token)) password_token_bad
    token_ok new c

  unfoldable pub reset_password : Text → Text → Text → Action Bool
  unfolding reset_with
  reset_password email token new = do
    fail_if (not (is_valid_email email)) email_invalid_format
    website ← website_id_for_store env.store_id
    c ← or_fail (no_such_email email) (get_by_email env email website)
    reset_with token new c

  unfoldable pub confirm_email : ConfirmEmailInput → Action Customer
  confirm_email input = do
    fail_if (not (is_valid_email input.email)) email_invalid
    website ← website_id_for_store env.store_id
    c ← or_fail (no_such_email input.email) (get_by_email env input.email website)
    fail_if (not (holds c.confirmation input.confirmation_key)) confirmation_token_invalid
    update env c.entity_id (set_confirmation none ∷ [])
    found ← attempt (get_by_id c.entity_id)
    c' ← deref found
    map_customer c'

  abbrev confirm_url : Text → Text → Text
  confirm_url email key =
      env.storefront_url
      ++ (text "/confirm-email?email="
          ++ (env.query_escape email ++ (text "&key=" ++ env.query_escape key)))

  -- The message goes to an account that is not confirmed.
  unfoldable pub resend : Text → Option CustomerData → Action Bool
  resend email none = pure true
  resend email (some c) = elim c.confirmation [
    | none ↦ pure true
    | some key ↦
        if is_empty key
        then pure true
        else (send (email_confirmation email (confirm_url email key)) >> pure true)
  ]

  abbrev pub then_resend : Text → ℕ → Option CustomerData → Action Bool
  then_resend email website none = pure true
  then_resend email website (some _) = attempt (get_by_email env email website) >>= resend email

  unfoldable pub resend_confirmation_email : Text → Action Bool
  unfolding resend
  resend_confirmation_email email = do
    fail_if (not (is_valid_email email)) email_address_not_valid
    website ← website_id_for_store env.store_id
    found ← attempt (get_by_email env email website)
    then_resend email website found
