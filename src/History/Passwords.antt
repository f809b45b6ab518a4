-- ===== src/History/Passwords.antt =====
-- The password of an account in a history of requests.
use magento2_customer_graphq.Base.{
  ℕ, ◌≡◌, refl, ap, ◌∙◌, Bool, Option, none, some, List, [], ◌∷◌, ◌++◌, arith, Option-cases, inl,
  inr,
}
use magento2_customer_graphq.Base.Text.{Text}
use magento2_customer_graphq.Env.{Env}
use magento2_customer_graphq.World.{World, CustomerRow}
use magento2_customer_graphq.World.Monad.{Action, ◌>>=◌}
use magento2_customer_graphq.World.Monad.Frame.{Keeps, >>=-holds}
use magento2_customer_graphq.Repository.Sql.{find, update_where, find-append_of_some}
use magento2_customer_graphq.Repository.Customer
use magento2_customer_graphq.Repository.Customer.{
  CustomerData, Assign, has_id, assign_all, updated, one_more_failure, no_failures, inserted,
  increment_login_failure, reset_login_failures, get_login_failures, get_by_email,
}
use magento2_customer_graphq.Service.Accounts.Deletion.{account}
use magento2_customer_graphq.Service.Accounts.Foreign.{assign_all-id}
use magento2_customer_graphq.History.Statements.{the_rows}

-- The hash in a row that may be there.
abbrev pub hash_in : Option CustomerRow → Option (Option Text)
hash_in none = none
hash_in (some r) = some r.password_hash

-- An update that leaves the ids and the hashes is not seen in the hash.
hash_in-update_where :
    (j : ℕ) (q : CustomerRow → Bool) (f : CustomerRow → CustomerRow) (rs : List CustomerRow)
    → ((r : CustomerRow) → (f r).entity_id ≡ r.entity_id)
    → ((r : CustomerRow) → (f r).password_hash ≡ r.password_hash)
    → hash_in (find (has_id j) (update_where q f rs)) ≡ hash_in (find (has_id j) rs)
unfolding find update_where
hash_in-update_where j q f [] same_id same_hash = refl
hash_in-update_where j q f (r ∷ rs) same_id same_hash =
    ground (arith, same_id r, same_hash r, hash_in-update_where j q f rs same_id same_hash)

-- Nor is a row that is added, if there is one already.
hash_in-append :
    (j : ℕ) (rs ss : List CustomerRow) (h : Option Text)
    → hash_in (find (has_id j) rs) ≡ some h
    → hash_in (find (has_id j) (rs ++ ss)) ≡ some h
hash_in-append j rs ss h e = elim (Option-cases (find (has_id j) rs)) [
  | inl n ↦ absurd (ground arith)
  | inr (r, f) ↦ rw (find-append_of_some (has_id j) rs ss r f) (ground arith)
]

module _ (j : ℕ) (h : Option Text) where
  abbrev pub Has : World → Type 0
  Has w = hash_in (account j w) ≡ some h

  abbrev pub Stays : {A : Type 0} → Action A → Type 0
  Stays m = (w : World) → Has w → Has (m w).1

  pub reads-Stays : {A : Type 0} (m : Action A) → Keeps the_rows m → Stays m
  reads-Stays m k w e = ap (λ p. hash_in (find (has_id j) p.1)) (k w) ∙ e

  pub account-Stays : {A : Type 0} (m : Action A) → Keeps (account j) m → Stays m
  account-Stays m k w e = ap hash_in (k w) ∙ e

  pub step-Stays :
      {A B : Type 0} (m : Action A) (f : A → Action B)
      → Stays m
      → ((a : A) → Stays (f a))
      → Stays (m >>= f)
  step-Stays m f k k' w e = >>=-holds Has m f w (k w e) (λ a q. k' a (m w).1 (k w e))

  module _ (env : Env) where
    -- An update that leaves the hash.
    pub update-Stays :
        (id : ℕ) (f : Assign) (fs : List Assign)
        → ((r : CustomerRow) → (assign_all (f ∷ fs) r).password_hash ≡ r.password_hash)
        → Stays (Customer.update env id (f ∷ fs))
    unfolding Customer.update updated
    update-Stays id f fs same w e = ground (
      arith,
      hash_in-update_where j (has_id id) (updated env (f ∷ fs)) w.customers (assign_all-id (f ∷ fs))
          same,
    )

    pub increment-Stays : (id : ℕ) → Stays (increment_login_failure env id)
    unfolding increment_login_failure one_more_failure
    increment-Stays id w e = ground (
      arith,
      hash_in-update_where j (has_id id) (one_more_failure env) w.customers (λ r. refl) (λ r. refl),
    )

    pub create-Stays : (c : CustomerData) → Stays (Customer.create env c)
    unfolding Customer.create
    create-Stays c w e =
        ground (arith, hash_in-append j w.customers (inserted env w.next_customer c ∷ []) h e)

  pub reset-Stays : (id : ℕ) → Stays (reset_login_failures id)
  unfolding reset_login_failures no_failures
  reset-Stays id w e =
      ground
        (arith, hash_in-update_where j (has_id id) no_failures w.customers (λ r. refl) (λ r. refl))
