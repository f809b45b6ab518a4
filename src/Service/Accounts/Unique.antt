-- ===== src/Service/Accounts/Unique.antt =====
-- `CreateCustomer` of internal/service/customer.go: one account for an address on a website.
use magento2_customer_graphq.Base.{
  ℕ, ◌≡◌, refl, sym, ap, ◌∙◌, Bool, true, false, Bool-cases, inl, inr, ◌&&◌, List, [], ◌∷◌, ◌++◌,
  arith, All, All-append, ◌==◌, ltb, length,
}
use mathlib.Core.Path.{subst}
use magento2_customer_graphq.Base.Text.{Text}
use magento2_customer_graphq.World.{World, CustomerRow, welcome}
use magento2_customer_graphq.World.Monad.{Action, ok, ◌>>=◌, ◌>>◌, fail_if, pure, send, next_fault}
use magento2_customer_graphq.World.Monad.Frame.{Keeps, >>=-Keeps, >>-Keeps, >>=-holds}
use magento2_customer_graphq.Errors.{Error, email_already_exists}
use magento2_customer_graphq.Env.{Env}
use magento2_customer_graphq.Model.{Customer, CustomerCreateInput}
use magento2_customer_graphq.Repository.Sql.{select}
use magento2_customer_graphq.Repository.Customer.{
  has_email, email_exists, create, inserted, get_by_id,
}
use magento2_customer_graphq.Repository.Password.{hash_password}
use magento2_customer_graphq.Repository.Cache.{website_id_for_store}
use magento2_customer_graphq.Repository.Cache.Coherence.{website_id_for_store_customers}
use magento2_customer_graphq.Service.Mapper.{map_customer}
use magento2_customer_graphq.Service.Password.{validate_password}
use magento2_customer_graphq.Service.Accounts.{create_customer, new_customer, subscribe_new}
use magento2_customer_graphq.Service.Accounts.Frames.{
  the_customers, get_by_id-Keeps, map_customer-Keeps, validate_password-Keeps, email_exists-Keeps,
  hash_password-Keeps, subscribe_new-Keeps,
}

module _ (env : Env) where
  -- The later row takes the address of the earlier one.
  abbrev pub clashes : CustomerRow → CustomerRow → Bool
  clashes earlier later =
      env.collate earlier.email later.email && (earlier.website_id == later.website_id)

  -- No row takes the address of an earlier row of the same website.
  abbrev pub IsUnique : List CustomerRow → Type 0
  IsUnique [] = Unit
  IsUnique (r ∷ rs) = All (λ s. clashes r s ≡ false) rs × IsUnique rs

  none_selected :
      (p : CustomerRow → Bool) (rs : List CustomerRow)
      → ltb 0 (length (select p rs)) ≡ false
      → All (λ r. p r ≡ false) rs
  unfolding select
  none_selected p [] h = tt
  none_selected p (r ∷ rs) h = ground (arith, none_selected p rs)

  IsUnique-append :
      (rs : List CustomerRow) (s : CustomerRow)
      → IsUnique rs
      → All (λ r. clashes r s ≡ false) rs
      → IsUnique (rs ++ s ∷ [])
  IsUnique-append [] s u h = (tt, tt)
  IsUnique-append (r ∷ rs) s (u, us) (h, hs) =
      (All-append (λ s. clashes r s ≡ false) rs (s ∷ []) u (h, tt), IsUnique-append rs s us hs)

  counted :
      (email : Text) (website : ℕ) (w : World)
      → (email_exists env email website w).0 ≡ ok false
      → ltb 0 (length (select (has_email env email website) w.customers)) ≡ false
  unfolding email_exists
  counted email website w h = ground arith

  passed : (c : Bool) (e : Error) (w : World) {u : Unit {0}} → (fail_if c e w).0 ≡ ok u → c ≡ false
  passed true e w h = ground arith
  passed false e w h = refl

  abbrev HasUnique : World → Type 0
  HasUnique w = IsUnique w.customers

  -- The customer that was made.
  abbrev made : CustomerCreateInput → ℕ → Action Customer
  made input id = do
    subscribe_new env input id
    c ← get_by_id id
    customer ← map_customer c
    send (welcome input.email (input.firstname ++ 32 ∷ input.lastname))
    pure customer

  abbrev insert : CustomerCreateInput → ℕ → Text → Action ℕ
  insert input website hash = create env (new_customer input website env.store_id hash)

  -- After the check of the address.
  abbrev hash_and_insert : CustomerCreateInput → ℕ → Action Customer
  hash_and_insert input website = do
    hash ← hash_password env input.password
    id ← insert input website hash
    made input id

  abbrev check_and_insert : CustomerCreateInput → ℕ → Action Customer
  check_and_insert input website = do
    exists ← email_exists env input.email website
    fail_if exists email_already_exists
    hash_and_insert input website

  create-IsUnique :
      (input : CustomerCreateInput) (website : ℕ) (hash : Text) (w : World)
      → All (λ r. has_email env input.email website r ≡ false) w.customers
      → IsUnique w.customers
      → IsUnique (create env (new_customer input website env.store_id hash) w).1.customers
  unfolding create new_customer inserted
  create-IsUnique input website hash w free u = elim (Bool-cases (next_fault w.faults)) [
    | inl e ↦ rw e u
    | inr e ↦ rw e (IsUnique-append w.customers _ u free)
  ]

  made-Keeps : (input : CustomerCreateInput) (id : ℕ) → Keeps the_customers (made input id)
  made-Keeps input id =
      >>-Keeps the_customers (subscribe_new env input id) _ (subscribe_new-Keeps env input id) (
        >>=-Keeps the_customers (get_by_id id) _ (get_by_id-Keeps id) (λ c.
          >>=-Keeps the_customers (map_customer c) _ (map_customer-Keeps c) (λ customer w. refl)))

  hash_and_insert-IsUnique :
      (input : CustomerCreateInput) (website : ℕ) (w : World)
      → All (λ r. has_email env input.email website r ≡ false) w.customers
      → IsUnique w.customers
      → IsUnique (hash_and_insert input website w).1.customers
  hash_and_insert-IsUnique input website w free u =
      let same = sym (hash_password-Keeps env input.password w) in
      >>=-holds HasUnique (hash_password env input.password)
        (λ hash. insert input website hash >>= made input) w (subst IsUnique same u)
        (λ hash _.
          let v = (hash_password env input.password w).1 in
          let done =
            create-IsUnique input website hash v
              (subst (All (λ r. has_email env input.email website r ≡ false)) same free)
              (subst IsUnique same u) in
          >>=-holds HasUnique (insert input website hash) (made input) v done (λ id _.
            subst IsUnique (sym (made-Keeps input id (insert input website hash v).1)) done))

  check_and_insert-IsUnique :
      (input : CustomerCreateInput) (website : ℕ) (w : World)
      → IsUnique w.customers
      → IsUnique (check_and_insert input website w).1.customers
  check_and_insert-IsUnique input website w u =
      let same = sym (email_exists-Keeps env input.email website w) in
      let v = (email_exists env input.email website w).1 in
      >>=-holds HasUnique (email_exists env input.email website)
        (λ exists. fail_if exists email_already_exists >> hash_and_insert input website) w
        (subst IsUnique same u)
        (λ exists seen.
          >>=-holds HasUnique (fail_if exists email_already_exists)
            (λ _. hash_and_insert input website) v (subst IsUnique same u)
            (λ _ free.
              let unseen = seen ∙ ap ok (passed exists email_already_exists v free) in
              hash_and_insert-IsUnique input website v
                (subst (All (λ r. has_email env input.email website r ≡ false)) same (
                  none_selected (has_email env input.email website) w.customers
                    (counted input.email website w unseen)))
                (subst IsUnique same u)))

  -- Whatever statements fail: where no account takes the address of an earlier one of the same
  -- website, none does after a registration.
  pub create_customer-IsUnique :
      (input : CustomerCreateInput) (w : World)
      → IsUnique w.customers
      → IsUnique (create_customer env input w).1.customers
  unfolding create_customer
  create_customer-IsUnique input w u =
      let same = sym (website_id_for_store_customers env.store_id w) in
      let v = (website_id_for_store env.store_id w).1 in
      >>=-holds HasUnique (website_id_for_store env.store_id)
        (λ website. validate_password env input.password >> check_and_insert input website) w
        (subst IsUnique same u)
        (λ website _.
          let checked = sym (validate_password-Keeps env input.password v) in
          >>=-holds HasUnique (validate_password env input.password)
            (λ _. check_and_insert input website) v (subst IsUnique checked (subst IsUnique same u))
            (λ _ _.
              check_and_insert-IsUnique input website (validate_password env input.password v).1
                (subst IsUnique checked (subst IsUnique same u))))
