-- ===== src/History/Resets.antt =====
-- Resets and confirmations, in internal/service/customer.go, leave `customer_address_entity` alone.
use magento2_customer_graphq.Base.{
  ℕ, refl, not, Option, none, some, [], ◌∷◌, arith, Option-cases, Bool-cases, inl, inr,
}
use magento2_customer_graphq.Base.Text.{Text, is_empty}
use magento2_customer_graphq.Errors.{
  no_such_email, email_invalid, email_invalid_format, email_address_not_valid,
  confirmation_token_invalid, password_reset_expiry,
}
use magento2_customer_graphq.World.Monad.{◌>>=◌, ◌>>◌, fail_if, attempt, or_fail, ignore, deref}
use magento2_customer_graphq.World.Monad.Frame.{Keeps, deref-Keeps}
use magento2_customer_graphq.Env.{Env}
use magento2_customer_graphq.Model.{ConfirmEmailInput}
use magento2_customer_graphq.Repository.Customer.{
  CustomerData, get_by_id, get_by_email, update, set_password_hash, set_rp_token,
  set_rp_token_created_at, set_confirmation,
}
use magento2_customer_graphq.Repository.Password.{hash_password}
use magento2_customer_graphq.Repository.Token.{revoke_all_for_customer}
use magento2_customer_graphq.Service.Mapper.{map_customer}
use magento2_customer_graphq.Service.Password.{validate_password}
use magento2_customer_graphq.Service.Security.{is_valid_email}
use magento2_customer_graphq.Service.Reset.{
  request_password_reset_email, send_reset, or_true, reset_token, reset_password, reset_with,
  token_ok, is_expired, replace_password, holds, confirm_email, resend, then_resend,
  resend_confirmation_email,
}
use magento2_customer_graphq.Service.Addresses.Frames.{the_addresses}
use magento2_customer_graphq.History.Statements.{
  the_rows, reads, then_reads, in_addresses, get_by_id-Keeps, get_by_email-Keeps,
  hash_password-Keeps, update-Keeps, revoke_all-Keeps,
}
use magento2_customer_graphq.History.Accounts.{read, then_read, step, then_, website-Keeps}
use magento2_customer_graphq.History.Profiles.{
  website_rows, validate_password-Keeps, map_customer-Keeps,
}

module _ (env : Env) where
  send_reset-Keeps :
      (email : Text) (c : CustomerData) → Keeps the_addresses (send_reset env email c)
  unfolding send_reset
  send_reset-Keeps email c w = ground (
    arith,
    update-Keeps env c.entity_id
        (set_rp_token (some (reset_token env))
          ∷ set_rp_token_created_at (some (env.format_time env.now))
          ∷ [])
        w,
  )

  or_true-Keeps :
      (email : Text) (found : Option CustomerData)
      → Keeps the_addresses (or_true env found (send_reset env email))
  or_true-Keeps email none = λ w. refl
  or_true-Keeps email (some c) = send_reset-Keeps email c

  pub request_password_reset_email-Keeps :
      (email : Text) → Keeps the_addresses (request_password_reset_email env email)
  unfolding request_password_reset_email
  request_password_reset_email-Keeps email =
      then_ (fail_if (not (is_valid_email email)) email_invalid_format) _ (λ w. refl)
        (website-Keeps env _ (λ website.
          read (attempt (get_by_email env email website)) _ (get_by_email-Keeps env email website)
            (or_true-Keeps email)))

  replace_password-Keeps : (id : ℕ) (new : Text) → Keeps the_addresses (replace_password env id new)
  unfolding replace_password
  replace_password-Keeps id new =
      read (hash_password env new) _ (hash_password-Keeps env new) (λ hash.
        let fields =
          set_password_hash hash ∷ set_rp_token none ∷ set_rp_token_created_at none ∷ [] in
        then_ (update env id fields) _ (update-Keeps env id fields) (
          then_read (ignore (revoke_all_for_customer env id)) _ (revoke_all-Keeps env id)
            (λ w. refl)))

  token_ok-Keeps : (new : Text) (c : CustomerData) → Keeps the_addresses (token_ok env new c)
  token_ok-Keeps new c =
      then_ (fail_if (is_expired env c.rp_token_created_at) password_reset_expiry) _ (λ w. refl)
        (then_read (validate_password env new) _ (validate_password-Keeps env new)
          (replace_password-Keeps c.entity_id new))

  reset_with-Keeps :
      (token new : Text) (c : CustomerData) → Keeps the_addresses (reset_with env token new c)
  unfolding reset_with
  reset_with-Keeps token new c w = ground (arith, token_ok-Keeps new c w)

  pub reset_password-Keeps :
      (email token new : Text) → Keeps the_addresses (reset_password env email token new)
  unfolding reset_password
  reset_password-Keeps email token new =
      then_ (fail_if (not (is_valid_email email)) email_invalid_format) _ (λ w. refl)
        (website-Keeps env _ (λ website.
          read (or_fail (no_such_email email) (get_by_email env email website)) _
            (get_by_email-Keeps env email website) (reset_with-Keeps token new)))

  confirmed-Keeps :
      (id : ℕ)
      → Keeps the_addresses do
        update env id (set_confirmation none ∷ [])
        found ← attempt (get_by_id id)
        c ← deref found
        map_customer c
  confirmed-Keeps id =
      then_ (update env id (set_confirmation none ∷ [])) _
        (update-Keeps env id (set_confirmation none ∷ []))
        (read (attempt (get_by_id id)) _ (get_by_id-Keeps id) (λ found.
          step (deref found) _ (deref-Keeps the_addresses found)
            (λ c. in_addresses (map_customer c) (map_customer-Keeps c))))

  pub confirm_email-Keeps :
      (input : ConfirmEmailInput) → Keeps the_addresses (confirm_email env input)
  unfolding confirm_email
  confirm_email-Keeps input =
      then_ (fail_if (not (is_valid_email input.email)) email_invalid) _ (λ w. refl)
        (website-Keeps env _ (λ website.
          read (or_fail (no_such_email input.email) (get_by_email env input.email website)) _
            (get_by_email-Keeps env input.email website)
            (λ c.
              then_
                (fail_if (not (holds c.confirmation input.confirmation_key))
                  confirmation_token_invalid)
                _ (λ w. refl) (confirmed-Keeps c.entity_id))))

  resend-Keeps :
      (email : Text) (found : Option CustomerData) → Keeps the_rows (resend env email found)
  unfolding resend
  resend-Keeps email none = λ w. refl
  resend-Keeps email (some c) = λ w. elim (Option-cases c.confirmation) [
    | inl e ↦ rw e refl
    | inr (key, e) ↦ elim (Bool-cases (is_empty key)) [
      | inl f ↦ rw (e, f) refl
      | inr f ↦ rw (e, f) refl
    ]
  ]

  then_resend-Keeps :
      (email : Text) (website : ℕ) (found : Option CustomerData)
      → Keeps the_rows (then_resend env email website found)
  then_resend-Keeps email website none = λ w. refl
  then_resend-Keeps email website (some c) =
      reads (attempt (get_by_email env email website)) _ (get_by_email-Keeps env email website)
        (resend-Keeps email)

  pub resend_confirmation_email-Keeps :
      (email : Text) → Keeps the_rows (resend_confirmation_email env email)
  unfolding resend_confirmation_email
  resend_confirmation_email-Keeps email =
      then_reads (fail_if (not (is_valid_email email)) email_address_not_valid) _ (λ w. refl)
        (website_rows env _ (λ website.
          reads (attempt (get_by_email env email website)) _ (get_by_email-Keeps env email website)
            (then_resend-Keeps email website)))
