-- ===== src/Service/Reset/SingleUse.antt =====
-- `ResetPassword` of internal/service/customer.go: what it leaves, and that a token is used once.
use magento2_customer_graphq.Base.{
  ℕ, ◌≡◌, refl, sym, ap, Bool, true, false, none, some, List, [], ◌∷◌, arith, All, ==_refl, ◌==◌,
}
use magento2_customer_graphq.Base.Text.{Text, text_eq_refl}
use magento2_customer_graphq.Go.Strconv.{IsByte}
use magento2_customer_graphq.Go.Int.{ℤ}
use mathlib.Core.Option
use mathlib.Core.Path.{subst}
use magento2_customer_graphq.Errors.{password_token_bad}
use magento2_customer_graphq.World.{World, CustomerRow, RevocationRow, OauthRow}
use magento2_customer_graphq.World.Monad.{ok, err}
use magento2_customer_graphq.Env.{Env, unix}
use magento2_customer_graphq.Repository.Sql.{find, update_where, find-update_where_hit}
use magento2_customer_graphq.Repository.Customer.{
  has_id, has_email, scan_customer, updated, assign_all, set_password_hash, set_rp_token,
  set_rp_token_created_at, update, coalesce,
}
use magento2_customer_graphq.Repository.Customer.Quiet.{get_by_email_quiet}
use magento2_customer_graphq.Repository.Password.{hash_of, verify_password, hash_password}
use magento2_customer_graphq.Repository.Password.RoundTrip.{verify_password-hash_of_iff}
use magento2_customer_graphq.Repository.Token.{
  revoke, live_of, revoked_token, revoke_all_for_customer,
}
use magento2_customer_graphq.Repository.Cache.Coherence.{
  website_of, store_seen, website_of-store_seen, website_id_for_store_quiet,
}
use magento2_customer_graphq.Service.Password.Strength.{validate_password-ok_iff}
use magento2_customer_graphq.Service.Security.{is_customer_locked, is_valid_email}
use magento2_customer_graphq.Service.Reset.{reset_password, reset_with, replace_password}
use magento2_customer_graphq.Service.Reset.Guard.{MayReset}

abbrev pub revoked_row : ℕ → RevocationRow → Bool
revoked_row id r = r.user_id == id

pub find-revoke :
    (id : ℕ) (t : ℤ) (rs : List RevocationRow)
    → Option.map (λ (r : RevocationRow). r.revoke_before) (find (revoked_row id) (revoke id t rs))
      ≡ some t
unfolding find revoke
find-revoke id t [] = rw (==_refl id) refl
find-revoke id t (r ∷ rs) = ground (arith, find-revoke id t rs)

pub none_live :
    (id : ℕ) (ts : List OauthRow)
    → All (λ t. live_of id t ≡ false) (update_where (live_of id) revoked_token ts)
unfolding update_where
none_live id [] = tt
none_live id (t ∷ ts) = (ground arith, none_live id ts)

module _ (env : Env) where
  -- The three columns of the statement.
  abbrev pub reset_row : Text → CustomerRow → CustomerRow
  reset_row hash =
      updated env (set_password_hash hash ∷ set_rp_token none ∷ set_rp_token_created_at none ∷ [])

  -- The world after the statements of a reset.
  abbrev pub after_reset : ℕ → Text → World → World
  after_reset id hash w = record w {
    customers = update_where (has_id id) (reset_row hash) w.customers;
    revocations = revoke id (unix env.now) w.revocations;
    oauth_tokens = update_where (live_of id) revoked_token w.oauth_tokens;
  }

  replace_password_quiet :
      (id : ℕ) (new hash : Text) (w : World)
      → w.faults ≡ []
      → hash_password env new w ≡ (ok hash, w)
      → replace_password env id new w ≡ (ok true, after_reset id hash w)
  unfolding replace_password revoke_all_for_customer update
  replace_password_quiet id new hash w q e = ground arith

  module _ (email token new : Text) (w : World) (r : CustomerRow) (hash : Text) (q : w.faults ≡ [])
      (valid : is_valid_email email ≡ true)
      (may : MayReset env email token new (website_of env.store_id w) w r)
      (hashed : (v : World) → hash_password env new v ≡ (ok hash, v)) where
    pub reset_password_quiet :
        reset_password env email token new w
        ≡ (ok true, after_reset r.entity_id hash (store_seen env.store_id w))
    unfolding reset_password reset_with is_customer_locked scan_customer
    reset_password_quiet = ground (
      arith,
      website_id_for_store_quiet env.store_id w q,
      get_by_email_quiet env email (website_of env.store_id w) (store_seen env.store_id w) r q
          may.found,
      may.unlocked,
      may.held,
      may.fresh,
      text_eq_refl token,
      (validate_password-ok_iff env new (store_seen env.store_id w)).1 may.strong,
      replace_password_quiet r.entity_id new hash (store_seen env.store_id w) q
          (hashed (store_seen env.store_id w)),
    )

    reset_row-key :
        (s : CustomerRow)
        → has_email env email (website_of env.store_id w) (reset_row hash s)
          ≡ has_email env email (website_of env.store_id w) s
    unfolding updated assign_all
    reset_row-key s = refl

    pub found_after :
        find
          (has_email env email (website_of env.store_id w))
          (after_reset r.entity_id hash (store_seen env.store_id w)).customers
        ≡ some (reset_row hash r)
    found_after =
        find-update_where_hit (has_email env email (website_of env.store_id w)) (has_id r.entity_id)
          (reset_row hash) w.customers r reset_row-key (==_refl r.entity_id) may.found

    used_up :
        (other again : Text)
        → reset_password env email other again
            (after_reset r.entity_id hash (store_seen env.store_id w))
          ≡ (
            err password_token_bad,
            store_seen env.store_id (after_reset r.entity_id hash (store_seen env.store_id w)),
          )
    unfolding reset_password reset_with is_customer_locked scan_customer updated assign_all
    used_up other again =
        let after = after_reset r.entity_id hash (store_seen env.store_id w) in
        ground (
          arith,
          website_id_for_store_quiet env.store_id after q,
          website_of-store_seen env.store_id w,
          get_by_email_quiet env email (website_of env.store_id w) (store_seen env.store_id after)
              (reset_row hash r) q found_after,
          may.unlocked,
        )

module _ (env : Env) (email token new salt : Text) (w : World) (r : CustomerRow)
    (quiet : w.faults ≡ []) (valid : is_valid_email email ≡ true)
    (may : MayReset env email token new (website_of env.store_id w) w r)
    (salted : env.salt ≡ some salt) (bytes : All IsByte salt) where
  hashed : (v : World) → hash_password env new v ≡ (ok (hash_of env salt new), v)
  unfolding hash_password
  hashed v = rw salted refl

  -- The account with the address has a password hash that the new password verifies against and no
  -- reset token, its tokens from before now are revoked, and no OAuth token of it is live.
  abbrev pub IsReset : World → Type 0
  IsReset v =
      ((row : CustomerRow) × (find (has_email env email (website_of env.store_id w)) v.customers
          ≡ some row)
        × (verify_password env (coalesce [] row.password_hash) new ≡ true)
        × (row.rp_token ≡ none))
      × (Option.map (λ (t : RevocationRow). t.revoke_before)
            (find (revoked_row r.entity_id) v.revocations)
          ≡ some (unix env.now))
      × All (λ t. live_of r.entity_id t ≡ false) v.oauth_tokens

  -- Every later reset for the address is refused as one with a wrong token, and changes no customer.
  abbrev IsUsedUp : World → Type 0
  IsUsedUp v =
      (other again : Text)
      → ((reset_password env email other again v).0 ≡ err password_token_bad)
        × ((reset_password env email other again v).1.customers ≡ v.customers)

  after : World
  after = after_reset env r.entity_id (hash_of env salt new) (store_seen env.store_id w)

  reset_here : (ok true, after) ≡ reset_password env email token new w
  unfolding after
  reset_here =
      sym
        (reset_password_quiet env email token new w r (hash_of env salt new) quiet valid may hashed)

  after-IsReset : IsReset after
  unfolding after updated assign_all
  after-IsReset = (
    (
      reset_row env (hash_of env salt new) r,
      found_after env email token new w r (hash_of env salt new) quiet valid may hashed,
      (verify_password-hash_of_iff env salt new new bytes).1 refl,
      refl,
    ),
    find-revoke r.entity_id (unix env.now) w.revocations,
    none_live r.entity_id w.oauth_tokens,
  )

  after-IsUsedUp : IsUsedUp after
  unfolding after
  after-IsUsedUp other again =
      rw (used_up env email token new w r (hash_of env salt new) quiet valid may hashed other again)
        (refl, refl)

  -- Where no statement fails, for a well-formed address, an account that may be reset with this token
  -- and a salt that could be drawn: the reset returns true and leaves the account with the new
  -- password, no token and all its sessions ended.
  pub reset_password_takes_effect :
      ((reset_password env email token new w).0 ≡ ok true)
      × IsReset (reset_password env email token new w).1
  reset_password_takes_effect =
      (sym (ap (λ t. t.0) reset_here), subst (λ t. IsReset t.1) reset_here after-IsReset)

  -- Where no statement fails, for a well-formed address, an account that may be reset with this token
  -- and a salt that could be drawn: after the reset no token opens the account a second time. Every
  -- later reset for the address, with any token and password, is refused as one with a wrong token,
  -- and changes no customer.
  pub reset_password_once :
      (other again : Text)
      → let v = (reset_password env email token new w).1 in
        ((reset_password env email other again v).0 ≡ err password_token_bad)
        × ((reset_password env email other again v).1.customers ≡ v.customers)
  reset_password_once = subst (λ t. IsUsedUp t.1) reset_here after-IsUsedUp
