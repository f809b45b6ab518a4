-- ===== src/Service/Tokens/Login.antt =====
-- `GenerateToken` of internal/service/customer.go: who is let in, and what an attempt writes.
use magento2_customer_graphq.Base.{
  ℕ, ◌≡◌, ◌≢◌, refl, sym, ◌∙◌, ap, Bool, true, false, none, some, [], arith,
}
use mathlib.Core.Path.{subst}
use magento2_customer_graphq.Base.Text.{Text}
use magento2_customer_graphq.Errors.{auth_failed}
use magento2_customer_graphq.World.{World, CustomerRow}
use magento2_customer_graphq.World.Monad.{ok, err, or_fail, ◌>>=◌}
use magento2_customer_graphq.World.Monad.Laws.{>>=-eq-ok, or_fail-eq-ok}
use magento2_customer_graphq.Env.{Env}
use magento2_customer_graphq.Repository.Sql.{
  find, update_where, find-update_where_hit, find-update_where_ne,
}
use magento2_customer_graphq.Repository.Customer.{
  CustomerData, has_id, has_email, scan_customer, coalesce, on_customers, no_failures, get_by_email,
}
use magento2_customer_graphq.Repository.Customer.Quiet.{
  get_by_email_quiet, get_by_email_found, reset_login_failures_quiet,
}
use magento2_customer_graphq.Repository.Cache.{website_id_for_store}
use magento2_customer_graphq.Repository.Cache.Coherence.{
  website_of, store_seen, website_id_for_store_quiet, website_id_for_store_customers,
}
use magento2_customer_graphq.Repository.Password.{argon2_panics, verify_password}
use magento2_customer_graphq.Repository.Token
use magento2_customer_graphq.Service.Security.{runs_until, check_account_lockout}
use magento2_customer_graphq.Service.Security.Lockout.{
  failed_rows, locks, record_login_failure_quiet,
}
use magento2_customer_graphq.Service.Tokens.{generate_token, login_with, is_unconfirmed}

module _ (env : Env) (email : Text) where
  -- `r` is the row of a confirmed, active account with this address on the store's website and a hash
  -- for which argon2 does not panic, and no statement to come fails.
  pub record IsAccount (w : World) (r : CustomerRow) : Type 0 where
    pub quiet : w.faults ≡ []
    pub by_email : find (has_email env email (website_of env.store_id w)) w.customers ≡ some r
    pub by_id : find (has_id r.entity_id) w.customers ≡ some r
    pub active : r.is_active ≡ 1
    pub confirmed : is_unconfirmed r.confirmation ≡ false
    pub runs : argon2_panics (coalesce [] r.password_hash) ≡ false

  -- The password is that of the row.
  abbrev pub matches : CustomerRow → Text → Bool
  matches r password = verify_password env (coalesce [] r.password_hash) password

  module _ (password : Text) (w : World) (r : CustomerRow) (account : IsAccount w r) where
    -- A locked account is refused before the password is looked at.
    pub generate_token_locked :
        runs_until env r.lock_expires ≡ true
        → generate_token env email password w ≡ (err auth_failed, store_seen env.store_id w)
    unfolding generate_token check_account_lockout scan_customer
    generate_token_locked locked = ground (
      arith,
      website_id_for_store_quiet env.store_id w account.quiet,
      get_by_email_quiet env email (website_of env.store_id w) (store_seen env.store_id w) r
          account.quiet account.by_email,
      account.active,
    )

    -- Where no statement fails, for the address of an active and confirmed account with no running
    -- lock: a wrong password is refused, the account's failures are one more, and the account is
    -- locked from the configured number of failures on.
    pub generate_token_mismatch :
        runs_until env r.lock_expires ≡ false
        → matches r password ≡ false
        → generate_token env email password w ≡ (
          err auth_failed,
          on_customers (failed_rows env r.entity_id (locks env r)) (store_seen env.store_id w),
        )
    unfolding generate_token check_account_lockout scan_customer
    generate_token_mismatch free wrong = ground (
      arith,
      website_id_for_store_quiet env.store_id w account.quiet,
      get_by_email_quiet env email (website_of env.store_id w) (store_seen env.store_id w) r
          account.quiet account.by_email,
      account.active,
      account.confirmed,
      account.runs,
      record_login_failure_quiet env r.entity_id (store_seen env.store_id w) r account.quiet refl
          account.by_id,
    )

    pub generate_token_match :
        (token : Text)
        → runs_until env r.lock_expires ≡ false
        → matches r password ≡ true
        → ((v : World) → Token.create env r.entity_id v ≡ (ok token, v))
        → generate_token env email password w ≡ (
          ok token,
          on_customers (update_where (has_id r.entity_id) no_failures) (store_seen env.store_id w),
        )
    unfolding generate_token check_account_lockout scan_customer
    generate_token_match token free right signed = ground (
      arith,
      website_id_for_store_quiet env.store_id w account.quiet,
      get_by_email_quiet env email (website_of env.store_id w) (store_seen env.store_id w) r
          account.quiet account.by_email,
      account.active,
      account.confirmed,
      account.runs,
      reset_login_failures_quiet r.entity_id (store_seen env.store_id w) account.quiet,
      signed (
          on_customers (update_where (has_id r.entity_id) no_failures) (store_seen env.store_id w)),
    )

    -- Where no statement fails, for the address of an active and confirmed account with no running
    -- lock and a hash that does not ask argon2 for 0 rounds, and a JWT manager that signs: the right
    -- password gives the signed token; afterwards the
    -- account has no failures counted, no time of a first failure and no lock, and its password and
    -- activity as before, and every other account has the row that it had.
    pub generate_token_takes_effect :
        (token : Text)
        → runs_until env r.lock_expires ≡ false
        → matches r password ≡ true
        → ((v : World) → Token.create env r.entity_id v ≡ (ok token, v))
        → (v : World) × (row : CustomerRow) × (generate_token env email password w ≡ (ok token, v))
          × (find (has_id r.entity_id) v.customers ≡ some row)
          × (row.failures_num ≡ some 0)
          × (row.first_failure ≡ none)
          × (row.lock_expires ≡ none)
          × (row.password_hash ≡ r.password_hash)
          × (row.is_active ≡ r.is_active)
          × ((j : ℕ) → j ≢ r.entity_id → find (has_id j) v.customers ≡ find (has_id j) w.customers)
    unfolding no_failures
    generate_token_takes_effect token free right signed = (
      on_customers (update_where (has_id r.entity_id) no_failures) (store_seen env.store_id w),
      no_failures r,
      generate_token_match token free right signed,
      find-update_where_hit (has_id r.entity_id) (has_id r.entity_id) no_failures w.customers r
          (λ s. refl) (ground arith) account.by_id,
      refl,
      refl,
      refl,
      refl,
      refl,
      λ j ne.
          find-update_where_ne (has_id j) (has_id r.entity_id) no_failures w.customers
            (λ s h. (ground arith, ground arith)),
    )

  -- Who a token may be given to.
  pub record MayLogin (password : Text) (w : World) : Type 0 where
    pub website : ℕ
    pub row : CustomerRow
    pub found : find (has_email env email website) w.customers ≡ some row
    pub active : row.is_active ≡ 1
    pub unlocked : runs_until env row.lock_expires ≡ false
    pub confirmed : is_unconfirmed row.confirmation ≡ false
    pub right : matches row password ≡ true

  login_with-eq-ok :
      (password : Text) (c : CustomerData) (w : World) {token : Text} {w' : World}
      → login_with env password c w ≡ (ok token, w')
      → (c.is_active ≡ 1)
        × (runs_until env c.lock_expires ≡ false)
        × (is_unconfirmed c.confirmation ≡ false)
        × (verify_password env c.password_hash password ≡ true)
  unfolding login_with check_account_lockout
  login_with-eq-ok password c w h = ground arith

  found-MayLogin :
      (password : Text) (website : ℕ) (v w : World) (c : CustomerData) (u : World)
      → v.customers ≡ w.customers
      → get_by_email env email website v ≡ (ok c, u)
      → {token : Text} {w' : World} → login_with env password c u ≡ (ok token, w')
      → MayLogin password w
  unfolding scan_customer
  found-MayLogin password website v w c u e f h =
      let (r, found, same, _) = get_by_email_found env email website v {c = c} {w' = u} f in
      let (active, free, confirmed, right) = login_with-eq-ok password c u h in
      record {
        website = website;
        row = r;
        found = subst (λ rows. find (has_email env email website) rows ≡ some r) e found;
        active = rw same at active;
        unlocked = rw same at free;
        confirmed = rw same at confirmed;
        right = rw same at right;
      }

  -- Whatever statement fails on the way: a token is given only for the address of an active,
  -- confirmed account with no running lock, and only for its password.
  pub generate_token-MayLogin :
      (password : Text) (w : World) {token : Text} {w' : World}
      → generate_token env email password w ≡ (ok token, w')
      → MayLogin password w
  unfolding generate_token
  generate_token-MayLogin password w {token} {w'} h =
      let (website, v, e, k) =
        >>=-eq-ok (website_id_for_store env.store_id)
          (λ website.
            or_fail auth_failed (get_by_email env email website) >>= login_with env password)
          w h in
      let (c, u, f, l) =
        >>=-eq-ok (or_fail auth_failed (get_by_email env email website)) (login_with env password) v
          k in
      found-MayLogin password website v w c u
        (ap (λ t. t.1.customers) (sym e) ∙ website_id_for_store_customers env.store_id w)
        (or_fail-eq-ok auth_failed (get_by_email env email website) v f) l
