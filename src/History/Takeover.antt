-- ===== src/History/Takeover.antt =====
-- What it takes to change the password of an account.
use magento2_customer_graphq.Base.{
  ℕ, ◌≡◌, ◌≢◌, refl, ap, sym, ◌∙◌, true, false, not, Option, none, some, List, [], ◌∷◌, arith, ◌==◌,
  Bool-cases, inl, inr,
}
use mathlib.Core.Path.{subst}
use magento2_customer_graphq.Base.Text.{Text}
use magento2_customer_graphq.Errors.{
  Error, email_invalid_format, no_such_email, account_locked, password_token_bad,
  password_reset_expiry,
}
use magento2_customer_graphq.Env.{Env}
use magento2_customer_graphq.World.{World, CustomerRow}
use magento2_customer_graphq.World.Monad.{
  Action, Outcome, ok, err, panic, ◌>>=◌, fail_if, or_fail, ignore,
}
use magento2_customer_graphq.World.Monad.Frame.{>>=-holds}
use magento2_customer_graphq.Repository.Sql.{find, find-update_where_ne}
use magento2_customer_graphq.Repository.Customer
use magento2_customer_graphq.Repository.Customer.{
  CustomerData, has_id, has_email, get_by_email, scan_customer, updated, set_password_hash,
  set_rp_token, set_rp_token_created_at,
}
use magento2_customer_graphq.Repository.Customer.Quiet.{get_by_email_found}
use magento2_customer_graphq.Repository.Password.{hash_password}
use magento2_customer_graphq.Repository.Token.{revoke_all_for_customer}
use magento2_customer_graphq.Repository.Cache.{website_id_for_store}
use magento2_customer_graphq.Repository.Cache.Coherence.{website_id_for_store_customers}
use magento2_customer_graphq.Service.Password.{validate_password}
use magento2_customer_graphq.Service.Security.{is_valid_email, is_customer_locked}
use magento2_customer_graphq.Service.Reset.{
  reset_password, reset_with, is_expired, replace_password, holds,
}
use magento2_customer_graphq.Service.Accounts.Foreign.{assign_all-id}
use magento2_customer_graphq.History.Statements.{
  website_id_for_store-Keeps, get_by_email-Keeps, hash_password-Keeps, revoke_all-Keeps,
}
use magento2_customer_graphq.History.Profiles.{validate_password-Keeps}
use magento2_customer_graphq.History.Passwords.{Has, Stays, reads-Stays, account-Stays, step-Stays}
use magento2_customer_graphq.History.Visitors.{look, then_look}

-- The token is not that of the account, whichever store the request names.
abbrev pub TokenUnknown : ℕ → Env → Text → Text → World → Type 0
TokenUnknown j env email token w =
    (website : ℕ) (r : CustomerRow)
    → find (has_email env email website) w.customers ≡ some r
    → r.entity_id ≡ j
    → holds r.rp_token token ≡ false

-- A call whose error is replaced.
replaced_ok :
    {A : Type 0} (e : Error) (m : Action A) (w : World) (a : A)
    → (or_fail e m w).0 ≡ ok a
    → m w ≡ (ok a, (m w).1)
replaced_ok {A = A} e m w a q = λ i. (go (m w) q i, (m w).1)
  where
    go : (p : Outcome A × World) → (or_fail e (λ _. p) w).0 ≡ ok a → p.0 ≡ ok a
    go (ok b, v) q = q
    go (err x, v) q = cc
    go (panic, v) q = cc

module _ (j : ℕ) (h : Option Text) (env : Env) where
  other_row :
      (id : ℕ) (fs : List Customer.Assign) (r : CustomerRow)
      → id ≢ j
      → has_id id r ≡ true
      → (has_id j r ≡ false) × (has_id j (updated env fs r) ≡ false)
  unfolding updated
  other_row id fs r ne k = (ground arith, ground (arith, assign_all-id fs r))

  -- A write to another account.
  other-Stays :
      (id : ℕ) (f : Customer.Assign) (fs : List Customer.Assign)
      → id ≢ j
      → Stays j h (Customer.update env id (f ∷ fs))
  unfolding Customer.update
  other-Stays id f fs ne = account-Stays j h (Customer.update env id (f ∷ fs)) (λ w. ground (
    arith,
    find-update_where_ne (has_id j) (has_id id) (updated env (f ∷ fs)) w.customers
        (λ r k. other_row id (f ∷ fs) r ne k),
  ))

  -- A reset of another account, whatever the token.
  reset_with-Stays_other :
      (token new : Text) (c : CustomerData)
      → c.entity_id ≢ j
      → Stays j h (reset_with env token new c)
  unfolding reset_with replace_password
  reset_with-Stays_other token new c ne =
      then_look j h (fail_if (is_customer_locked env c) account_locked) _ (λ w. refl)
        (then_look j h (fail_if (not (holds c.rp_token token)) password_token_bad) _ (λ w. refl)
          (then_look j h (fail_if (is_expired env c.rp_token_created_at) password_reset_expiry) _
            (λ w. refl)
            (then_look j h (validate_password env new) _ (validate_password-Keeps env new) (
              look j h (hash_password env new) _ (hash_password-Keeps env new) (λ hash.
                step-Stays j h
                  (Customer.update env c.entity_id (
                    set_password_hash hash ∷ set_rp_token none ∷ set_rp_token_created_at none ∷ []))
                  _
                  (other-Stays c.entity_id (set_password_hash hash)
                    (set_rp_token none ∷ set_rp_token_created_at none ∷ []) ne)
                  (λ _.
                    then_look j h (ignore (revoke_all_for_customer env c.entity_id)) _
                      (revoke_all-Keeps env c.entity_id) (λ w e. e)))))))

  -- A reset with a wrong token.
  reset_with-Stays_refused :
      (token new : Text) (c : CustomerData)
      → holds c.rp_token token ≡ false
      → Stays j h (reset_with env token new c)
  unfolding reset_with
  reset_with-Stays_refused token new c wrong w e = ground arith

  found-Stays :
      (token new : Text) (c : CustomerData)
      → (c.entity_id ≡ j → holds c.rp_token token ≡ false)
      → Stays j h (reset_with env token new c)
  found-Stays token new c unknown = elim (Bool-cases (c.entity_id == j)) [
    | inl e ↦ reset_with-Stays_refused token new c (unknown (ground arith))
    | inr e ↦ reset_with-Stays_other token new c (λ k. ground arith)
  ]

  scanned_unknown :
      (token : Text) (r : CustomerRow)
      → (r.entity_id ≡ j → holds r.rp_token token ≡ false)
      → (scan_customer r).entity_id ≡ j
      → holds (scan_customer r).rp_token token ≡ false
  unfolding scan_customer
  scanned_unknown token r k = k

  -- A reset whose token is not the account's.
  pub reset_password-holds :
      (email token new : Text) (w : World)
      → TokenUnknown j env email token w
      → Has j h w
      → Has j h (reset_password env email token new w).1
  unfolding reset_password
  reset_password-holds email token new w unknown e =
      let get = λ (website : ℕ). or_fail (no_such_email email) (get_by_email env email website) in
      let rest = λ (website : ℕ). get website >>= reset_with env token new in
      >>=-holds (Has j h) (fail_if (not (is_valid_email email)) email_invalid_format)
        (λ _. website_id_for_store env.store_id >>= rest) w e
        (λ _ _.
          >>=-holds (Has j h) (website_id_for_store env.store_id) rest w
            (reads-Stays j h (website_id_for_store env.store_id)
              (website_id_for_store-Keeps env.store_id) w e)
            (λ website _.
              let u = (website_id_for_store env.store_id w).1 in
              let e' : Has j h u =
                reads-Stays j h (website_id_for_store env.store_id)
                  (website_id_for_store-Keeps env.store_id) w e in
              >>=-holds (Has j h) (get website) (reset_with env token new) u
                (reads-Stays j h (get website) (get_by_email-Keeps env email website) u e')
                (λ c q.
                  let (r, row, read, same) =
                    get_by_email_found env email website u
                      (replaced_ok (no_such_email email) (get_by_email env email website) u c q) in
                  let at_w =
                    sym (
                      ap (find (has_email env email website))
                        (website_id_for_store_customers env.store_id w))
                    ∙ row in
                  found-Stays token new c
                    (subst (λ d. d.entity_id ≡ j → holds d.rp_token token ≡ false) (sym read)
                      (scanned_unknown token r (unknown website r at_w)))
                    (get website u).1
                    (reads-Stays j h (get website) (get_by_email-Keeps env email website) u e'))))
