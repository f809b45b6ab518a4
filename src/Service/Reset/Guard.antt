-- ===== src/Service/Reset/Guard.antt =====
-- `ResetPassword` of internal/service/customer.go: what it asks for.
use magento2_customer_graphq.Base.{ℕ, ◌≡◌, sym, ap, ◌∙◌, Bool, true, false, Option, none, some, not}
use mathlib.Core.Path.{subst}
use magento2_customer_graphq.Base.Text.{Text, text_eq_iff}
use magento2_customer_graphq.Errors.{
  no_such_email, password_token_bad, account_locked, password_reset_expiry, email_invalid_format,
}
use magento2_customer_graphq.World.{World, CustomerRow}
use magento2_customer_graphq.World.Monad.{ok, or_fail, ◌>>=◌, ◌>>◌, fail_if}
use magento2_customer_graphq.World.Monad.Laws.{
  >>=-eq-ok, fail_if-eq-ok, or_fail-eq-ok, not-eq-false,
}
use magento2_customer_graphq.Env.{Env}
use magento2_customer_graphq.Repository.Sql.{find}
use magento2_customer_graphq.Repository.Customer.{
  CustomerData, has_email, scan_customer, get_by_email,
}
use magento2_customer_graphq.Repository.Customer.Quiet.{get_by_email_found}
use magento2_customer_graphq.Repository.Cache.{website_id_for_store}
use magento2_customer_graphq.Repository.Cache.Coherence.{website_id_for_store_customers}
use magento2_customer_graphq.Service.Password.{validate_password}
use magento2_customer_graphq.Service.Password.Strength.{IsStrong, IsStrong-of_validated}
use magento2_customer_graphq.Service.Security.{runs_until, is_customer_locked, is_valid_email}
use magento2_customer_graphq.Service.Reset.{
  reset_password, reset_with, replace_password, token_ok, is_expired, holds,
}

module _ (env : Env) where
  -- The row that a reset with `token` is for.
  pub record MayReset (email token new : Text) (website : ℕ) (w : World) (row : CustomerRow)
      : Type 0 where
    pub found : find (has_email env email website) w.customers ≡ some row
    pub unlocked : runs_until env row.lock_expires ≡ false
    pub held : row.rp_token ≡ some token
    pub fresh : is_expired env row.rp_token_created_at ≡ false
    pub strong : IsStrong env new

  holds-eq : (o : Option Text) (t : Text) → holds o t ≡ true → o ≡ some t
  holds-eq none t h = cc
  holds-eq (some s) t h = ap some ((text_eq_iff s t).0 h)

  reset_with-eq-ok :
      (token new : Text) (c : CustomerData) (w : World) {b : Bool} {w' : World}
      → reset_with env token new c w ≡ (ok b, w')
      → (is_customer_locked env c ≡ false)
        × (holds c.rp_token token ≡ true)
        × (is_expired env c.rp_token_created_at ≡ false)
        × IsStrong env new
  unfolding reset_with
  reset_with-eq-ok token new c w h =
      let (unlocked, h1) =
        fail_if-eq-ok (is_customer_locked env c) account_locked
          (fail_if (not (holds c.rp_token token)) password_token_bad >> token_ok env new c) w h in
      let (held, h2) =
        fail_if-eq-ok (not (holds c.rp_token token)) password_token_bad (token_ok env new c) w h1 in
      let (fresh, h3) =
        fail_if-eq-ok (is_expired env c.rp_token_created_at) password_reset_expiry
          (validate_password env new >> replace_password env c.entity_id new) w h2 in
      let (_, v, checked, _) =
        >>=-eq-ok (validate_password env new) (λ _. replace_password env c.entity_id new) w h3 in
      (
        unlocked,
        not-eq-false (holds c.rp_token token) held,
        fresh,
        IsStrong-of_validated env new w checked,
      )

  found-MayReset :
      (email token new : Text) (website : ℕ) (v w : World) (c : CustomerData) (u : World)
      → v.customers ≡ w.customers
      → get_by_email env email website v ≡ (ok c, u)
      → {b : Bool} {w' : World} → reset_with env token new c u ≡ (ok b, w')
      → (row : CustomerRow) × MayReset email token new website w row
  unfolding scan_customer is_customer_locked
  found-MayReset email token new website v w c u e f h =
      let (r, found, same, _) = get_by_email_found env email website v {c = c} {w' = u} f in
      let (unlocked, held, fresh, strong) = reset_with-eq-ok token new c u h in
      (
        r,
        record {
          found = subst (λ rows. find (has_email env email website) rows ≡ some r) e found;
          unlocked = rw same at unlocked;
          held = holds-eq r.rp_token token (rw same at held);
          fresh = rw same at fresh;
          strong = strong;
        },
      )

  -- Whatever statement fails on the way: a password is only reset for an account with this address
  -- that has no running lock and holds this very token, not expired, and only to a password of the
  -- configured strength.
  pub reset_password-MayReset :
      (email token new : Text) (w : World) {b : Bool} {w' : World}
      → reset_password env email token new w ≡ (ok b, w')
      → (website : ℕ) × (row : CustomerRow) × MayReset email token new website w row
  unfolding reset_password
  reset_password-MayReset email token new w {b} {w'} h =
      let lookup =
        λ (website : ℕ). or_fail (no_such_email email) (get_by_email env email website) in
      let (_, h1) =
        fail_if-eq-ok (not (is_valid_email email)) email_invalid_format
          (website_id_for_store env.store_id >>= λ website.
            lookup website >>= reset_with env token new)
          w h in
      let (website, v, e, k) =
        >>=-eq-ok (website_id_for_store env.store_id)
          (λ website. lookup website >>= reset_with env token new) w h1 in
      let (c, u, f, l) = >>=-eq-ok (lookup website) (reset_with env token new) v k in
      let (row, may) =
        found-MayReset email token new website v w c u
          (ap (λ t. t.1.customers) (sym e) ∙ website_id_for_store_customers env.store_id w)
          (or_fail-eq-ok (no_such_email email) (get_by_email env email website) v f) l in
      (website, row, may)
