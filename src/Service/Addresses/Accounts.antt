-- ===== src/Service/Addresses/Accounts.antt =====
-- The rows of other accounts under the address operations of internal/service/customer.go.
use magento2_customer_graphq.Base.{
  ℕ, ◌≡◌, ◌≢◌, refl, Bool, true, Option, none, some, List, [], ◌∷◌, arith,
}
use magento2_customer_graphq.World.{World, AddressData}
use magento2_customer_graphq.World.Monad.{◌>>◌, pure, ignore, attempt, when, deref}
use magento2_customer_graphq.World.Monad.Frame.{Keeps, >>=-Keeps, >>-Keeps, when-Keeps, deref-Keeps}
use magento2_customer_graphq.Env.{Env}
use magento2_customer_graphq.Model.{CustomerAddressInput}
use magento2_customer_graphq.Repository.Customer
use magento2_customer_graphq.Repository.Customer.{
  CustomerData, Assign, set_default_billing, set_default_shipping,
}
use magento2_customer_graphq.Repository.Address
use magento2_customer_graphq.Service.Mapper.{
  map_address, map_region, map_address_input, map_address_fields,
}
use magento2_customer_graphq.Service.Accounts.Deletion.{account}
use magento2_customer_graphq.Service.Accounts.Frames.{the_customers}
use magento2_customer_graphq.Service.Accounts.Foreign.{
  update-Keeps, signed-Keeps, get-Keeps, row_of,
}
use magento2_customer_graphq.Service.Addresses.{
  create_address, update_address, delete_address, set_defaults, reload, owned, guard_defaults,
  is_set,
}

get-customers : (id : ℕ) → Keeps the_customers (Address.get_by_id id)
unfolding Address.get_by_id
get-customers id w = ground arith

map-customers :
    (a : AddressData) (billing shipping : Option ℕ)
    → Keeps the_customers (map_address a billing shipping)
unfolding map_address map_region Address.get_region
map-customers a billing shipping w = ground arith

delete-customers : (id : ℕ) → Keeps the_customers (Address.delete id)
unfolding Address.delete
delete-customers id w = ground arith

guard-customers :
    (id : ℕ) (found : Option CustomerData) → Keeps the_customers (guard_defaults id found)
unfolding guard_defaults
guard-customers id none w = refl
guard-customers id (some c) w = ground arith

module _ (env : Env) where
  owned-customers : (id : ℕ) → Keeps the_customers (owned env id)
  unfolding owned Address.get_by_id
  owned-customers id w = ground arith

  create-customers : (a : AddressData) → Keeps the_customers (Address.create env a)
  unfolding Address.create
  create-customers a w = ground arith

  update-customers :
      (id : ℕ) (fields : List Address.Assign) → Keeps the_customers (Address.update env id fields)
  unfolding Address.update
  update-customers id [] w = refl
  update-customers id (f ∷ fields) w = ground arith

  module _ (j : ℕ) (ne : env.customer_id ≢ j) where
    flag-Keeps :
        (flag : Bool) (f : Assign)
        → Keeps (account j) (when flag (ignore (Customer.update env env.customer_id (f ∷ []))))
    flag-Keeps flag f =
        when-Keeps (account j) flag (ignore (Customer.update env env.customer_id (f ∷ [])))
          (update-Keeps j env ne (f ∷ []))

    reload-account : (id : ℕ) → Keeps (account j) (reload env id)
    unfolding reload
    reload-account id =
        >>=-Keeps (account j) (Address.get_by_id id) _
          (row_of j (Address.get_by_id id) (get-customers id))
          (λ a.
            >>=-Keeps (account j) (attempt (Customer.get_by_id env.customer_id)) _
              (get-Keeps j env.customer_id)
              (λ found. >>=-Keeps (account j) (deref found) _ (deref-Keeps (account j) found) (λ c.
                row_of j (map_address a c.default_billing c.default_shipping)
                  (map-customers a c.default_billing c.default_shipping))))

    rest-account :
        (input : CustomerAddressInput) (id : ℕ)
        → Keeps (account j) (set_defaults env input id >> reload env id)
    unfolding set_defaults
    rest-account input id =
        >>-Keeps (account j) (set_defaults env input id) (reload env id)
          (>>-Keeps (account j) _ _
            (flag-Keeps (is_set input.default_billing) (set_default_billing id))
            (flag-Keeps (is_set input.default_shipping) (set_default_shipping id)))
          (reload-account id)

    create-account : (input : CustomerAddressInput) → Keeps (account j) (create_address env input)
    unfolding create_address
    create-account input =
        let insert = Address.create env (map_address_input input env.customer_id) in
        signed-Keeps j env ne _ (
          >>=-Keeps (account j) insert _
            (row_of j insert (create-customers (map_address_input input env.customer_id)))
            (rest-account input))

    update-account :
        (id : ℕ) (input : CustomerAddressInput) → Keeps (account j) (update_address env id input)
    unfolding update_address
    update-account id input =
        let set = Address.update env id (map_address_fields input) in
        signed-Keeps j env ne _ (
          >>-Keeps (account j) (owned env id) _ (row_of j (owned env id) (owned-customers id)) (
            >>-Keeps (account j) set _
              (row_of j set (update-customers id (map_address_fields input)))
              (rest-account input id)))

    delete-account : (id : ℕ) → Keeps (account j) (delete_address env id)
    unfolding delete_address
    delete-account id = signed-Keeps j env ne _ (
        >>-Keeps (account j) (owned env id) _ (row_of j (owned env id) (owned-customers id)) (
          >>=-Keeps (account j) (attempt (Customer.get_by_id env.customer_id)) _
            (get-Keeps j env.customer_id)
            (λ found.
              >>-Keeps (account j) (guard_defaults id found) _
                (row_of j (guard_defaults id found) (guard-customers id found))
                (>>-Keeps (account j) (Address.delete id) (pure true)
                  (row_of j (Address.delete id) (delete-customers id)) (λ w. refl)))))

-- Whatever statements fail: the row of an account other than the caller's, with its default
-- addresses, is the same after a call of createCustomerAddress, updateCustomerAddress or
-- deleteCustomerAddress, whatever the arguments.
pub foreign_account_kept_by_addresses :
    (env : Env) (j : ℕ) (w : World)
    → env.customer_id ≢ j
    → ((input : CustomerAddressInput) → account j (create_address env input w).1 ≡ account j w)
      × ((id : ℕ) (input : CustomerAddressInput)
          → account j (update_address env id input w).1 ≡ account j w)
      × ((id : ℕ) → account j (delete_address env id w).1 ≡ account j w)
foreign_account_kept_by_addresses env j w ne = (
  λ input. create-account env j ne input w,
  λ id input. update-account env j ne id input w,
  λ id. delete-account env j ne id w,
)
