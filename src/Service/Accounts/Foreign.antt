-- ===== src/Service/Accounts/Foreign.antt =====
-- The rows of other accounts under the operations of internal/service/customer.go.
use magento2_customer_graphq.Base.{
  ℕ, ◌≡◌, ◌≢◌, refl, ap, ◌∙◌, Bool, true, false, not, Option, none, some, List, [], ◌∷◌, arith,
}
use magento2_customer_graphq.Base.Text.{Text}
use magento2_customer_graphq.Errors.{email_already_exists, password_mismatch}
use magento2_customer_graphq.World.{World, CustomerRow}
use magento2_customer_graphq.World.Monad.{Action, ◌>>=◌, ◌>>◌, ignore, attempt, fail_if}
use magento2_customer_graphq.World.Monad.Frame.{Keeps, >>=-Keeps, >>-Keeps}
use magento2_customer_graphq.Env.{Env}
use magento2_customer_graphq.Model.{Customer as Output, CustomerUpdateInput}
use magento2_customer_graphq.Repository.Sql.{find, find-update_where_ne}
use magento2_customer_graphq.Repository.Customer
use magento2_customer_graphq.Repository.Customer.{
  CustomerData, Assign, has_id, assign, assign_all, updated, get_by_id, set_default_billing,
  set_default_shipping, set_password_hash, set_email, email_exists,
}
use magento2_customer_graphq.Repository.Newsletter.{subscribe_customer, unsubscribe_customer}
use magento2_customer_graphq.Repository.Password.{rounds_checked, verify_password, hash_password}
use magento2_customer_graphq.Service.Password.{validate_password}
use magento2_customer_graphq.Repository.Token.{revoke_all_for_customer}
use magento2_customer_graphq.Repository.Cache.{website_id_for_store}
use magento2_customer_graphq.Repository.Cache.Coherence.{website_id_for_store_customers}
use magento2_customer_graphq.Service.Mapper.{map_customer}
use magento2_customer_graphq.Service.Tokens.{signed_in}
use magento2_customer_graphq.Service.Accounts.{
  change_subscription, subscribe_found, update_customer, update_fields, change_password,
  replace_password, update_email, replace_email, delete_customer,
}
use magento2_customer_graphq.Service.Accounts.Deletion.{
  account, revoked-customers, delete_customer-others,
}
use magento2_customer_graphq.Service.Accounts.Frames.{
  the_customers, get_by_id-Keeps, map_customer-Keeps, validate_password-Keeps, hash_password-Keeps,
  email_exists-Keeps,
}

assign-id : (f : Assign) (r : CustomerRow) → (assign f r).entity_id ≡ r.entity_id
unfolding assign
assign-id (Customer.set_firstname v) r = refl
assign-id _ r = refl

pub assign_all-id : (fs : List Assign) (r : CustomerRow) → (assign_all fs r).entity_id ≡ r.entity_id
unfolding assign_all
assign_all-id [] r = refl
assign_all-id (f ∷ fs) r = assign_all-id fs (assign f r) ∙ assign-id f r

module _ (j : ℕ) where
  -- What keeps the table keeps the row.
  pub row_of : {A : Type 0} (m : Action A) → Keeps the_customers m → Keeps (account j) m
  row_of m h w = ap (find (has_id j)) (h w)

  pub get-Keeps : (id : ℕ) → Keeps (account j) (get_by_id id)
  get-Keeps id = row_of (get_by_id id) (get_by_id-Keeps id)

  map-Keeps : (c : CustomerData) → Keeps (account j) (map_customer c)
  map-Keeps c = row_of (map_customer c) (map_customer-Keeps c)

  mapped-Keeps : (id : ℕ) → Keeps (account j) (get_by_id id >>= map_customer)
  mapped-Keeps id = >>=-Keeps (account j) (get_by_id id) map_customer (get-Keeps id) map-Keeps

  module _ (env : Env) (ne : env.customer_id ≢ j) where
    updated-other :
        (fs : List Assign) (r : CustomerRow)
        → has_id env.customer_id r ≡ true
        → (has_id j r ≡ false) × (has_id j (updated env fs r) ≡ false)
    unfolding updated
    updated-other fs r h = (ground arith, ground (arith, assign_all-id fs r))

    pub update-Keeps :
        (fs : List Assign) → Keeps (account j) (Customer.update env env.customer_id fs)
    unfolding Customer.update
    update-Keeps [] w = refl
    update-Keeps (f ∷ fs) w = ground (
      arith,
      find-update_where_ne (has_id j) (has_id env.customer_id) (updated env (f ∷ fs)) w.customers
          (updated-other (f ∷ fs)),
    )

    found-Keeps :
        (found : Option CustomerData) (wanted : Bool)
        → Keeps (account j) (subscribe_found env found wanted)
    unfolding subscribe_found subscribe_customer unsubscribe_customer
    found-Keeps none true w = refl
    found-Keeps (some c) true w = ground arith
    found-Keeps none false w = ground arith
    found-Keeps (some c) false w = ground arith

    subscription-Keeps : (wanted : Option Bool) → Keeps (account j) (change_subscription env wanted)
    unfolding change_subscription
    subscription-Keeps none w = refl
    subscription-Keeps (some wanted) w =
        >>=-Keeps (account j) (attempt (get_by_id env.customer_id))
          (λ found. subscribe_found env found wanted) (get-Keeps env.customer_id)
          (λ found. found-Keeps found wanted) w

    pub signed-Keeps :
        {A : Type 0} (k : Action A) → Keeps (account j) k → Keeps (account j) (signed_in env >> k)
    signed-Keeps k h = >>-Keeps (account j) (signed_in env) k (λ w. refl) h

    update_customer-Keeps :
        (input : CustomerUpdateInput) → Keeps (account j) (update_customer env input)
    unfolding update_customer
    update_customer-Keeps input = signed-Keeps _ (
        >>-Keeps (account j) (Customer.update env env.customer_id (update_fields input))
          (change_subscription env input.is_subscribed
            >> (get_by_id env.customer_id >>= map_customer))
          (update-Keeps (update_fields input))
          (>>-Keeps (account j) (change_subscription env input.is_subscribed)
            (get_by_id env.customer_id >>= map_customer) (subscription-Keeps input.is_subscribed)
            (mapped-Keeps env.customer_id)))

    replace_password-Keeps :
        (new : Text) (c : CustomerData) → Keeps (account j) (replace_password env new c)
    unfolding replace_password
    replace_password-Keeps new c =
        >>-Keeps (account j) (validate_password env new) _
          (row_of (validate_password env new) (validate_password-Keeps env new))
          (>>=-Keeps (account j) (hash_password env new) _
            (row_of (hash_password env new) (hash_password-Keeps env new))
            (λ hash.
              >>-Keeps (account j)
                (Customer.update env env.customer_id (set_password_hash hash ∷ [])) _
                (update-Keeps (set_password_hash hash ∷ []))
                (>>-Keeps (account j) (ignore (revoke_all_for_customer env env.customer_id)) _
                  (λ w. ap (find (has_id j)) (revoked-customers env env.customer_id w))
                  (mapped-Keeps env.customer_id))))

    exists-Keeps :
        (c : Bool) (k : Action Output)
        → Keeps (account j) k
        → Keeps (account j) (fail_if c email_already_exists >> k)
    exists-Keeps c k h = >>-Keeps (account j) (fail_if c email_already_exists) k (λ w. refl) h

    replace_email-Keeps :
        (email : Text) (c : CustomerData) → Keeps (account j) (replace_email env email c)
    unfolding replace_email
    replace_email-Keeps email c =
        >>=-Keeps (account j) (website_id_for_store env.store_id) _
          (λ w. ap (find (has_id j)) (website_id_for_store_customers env.store_id w))
          (λ website.
            >>=-Keeps (account j) (email_exists env email website) _
              (row_of (email_exists env email website) (email_exists-Keeps env email website))
              (λ exists. exists-Keeps exists _ (
                >>-Keeps (account j) (Customer.update env env.customer_id (set_email email ∷ [])) _
                  (update-Keeps (set_email email ∷ [])) (mapped-Keeps env.customer_id))))

    -- Behind the test of the password.
    gated-Keeps :
        (password : Text) (k : CustomerData → Action Output)
        → ((c : CustomerData) → Keeps (account j) (k c))
        → Keeps (account j) (
            signed_in env
            >> (get_by_id env.customer_id >>= λ c.
                rounds_checked c.password_hash
                >> (fail_if (not (verify_password env c.password_hash password)) password_mismatch
                    >> k c)))
    gated-Keeps password k h = signed-Keeps _ (
        >>=-Keeps (account j) (get_by_id env.customer_id) _ (get-Keeps env.customer_id) (λ c.
          >>-Keeps (account j) (rounds_checked c.password_hash) _ (λ w. refl)
            (>>-Keeps (account j)
              (fail_if (not (verify_password env c.password_hash password)) password_mismatch) (k c)
              (λ w. refl) (h c))))

    change_password-Keeps :
        (current new : Text) → Keeps (account j) (change_password env current new)
    unfolding change_password
    change_password-Keeps current new =
        gated-Keeps current (replace_password env new) (replace_password-Keeps new)

    update_email-Keeps :
        (email password : Text) → Keeps (account j) (update_email env email password)
    unfolding update_email
    update_email-Keeps email password =
        gated-Keeps password (replace_email env email) (replace_email-Keeps email)

-- Whatever statements fail: the row of an account other than the caller's is the same after a call
-- of updateCustomer, changeCustomerPassword, updateCustomerEmail or deleteCustomer, whatever the
-- arguments.
pub foreign_account_kept :
    (env : Env) (j : ℕ) (w : World)
    → env.customer_id ≢ j
    → ((input : CustomerUpdateInput) → account j (update_customer env input w).1 ≡ account j w)
      × ((current new : Text) → account j (change_password env current new w).1 ≡ account j w)
      × ((email password : Text) → account j (update_email env email password w).1 ≡ account j w)
      × (account j (delete_customer env w).1 ≡ account j w)
foreign_account_kept env j w ne = (
  λ input. update_customer-Keeps j env ne input w,
  λ current new. change_password-Keeps j env ne current new w,
  λ email password. update_email-Keeps j env ne email password w,
  delete_customer-others env j w ne,
)
