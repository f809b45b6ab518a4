-- ===== src/Service/Addresses/Frames.antt =====
-- The parts of the address operations that leave the table of addresses alone.
use magento2_customer_graphq.Base.{ℕ, refl, Option, List, [], ◌∷◌, arith}
use magento2_customer_graphq.World.{World, AddressData}
use magento2_customer_graphq.World.Monad.{deref, attempt, when, ignore}
use magento2_customer_graphq.World.Monad.Frame.{Keeps, >>=-Keeps, >>-Keeps, when-Keeps, deref-Keeps}
use magento2_customer_graphq.Env.{Env}
use magento2_customer_graphq.Model.{CustomerAddressInput}
use magento2_customer_graphq.Repository.Customer
use magento2_customer_graphq.Repository.Customer.{
  CustomerData, Assign, set_default_billing, set_default_shipping,
}
use magento2_customer_graphq.Repository.Address
use magento2_customer_graphq.Service.Mapper.{map_address}
use magento2_customer_graphq.Service.Addresses.{set_defaults, reload, owned, is_set}

abbrev pub the_addresses : World → List AddressData
the_addresses w = w.addresses

get_by_id-Keeps : (id : ℕ) → Keeps the_addresses (Address.get_by_id id)
unfolding Address.get_by_id
get_by_id-Keeps id w = ground arith

pub customer-Keeps : (id : ℕ) → Keeps the_addresses (attempt (Customer.get_by_id id))
unfolding Customer.get_by_id
customer-Keeps id w = ground arith

map_address-Keeps :
    (a : AddressData) (billing shipping : Option ℕ)
    → Keeps the_addresses (map_address a billing shipping)
unfolding map_address Address.get_region
map_address-Keeps a billing shipping w = ground arith

module _ (env : Env) where
  update-Keeps :
      (id : ℕ) (fields : List Assign) → Keeps the_addresses (ignore (Customer.update env id fields))
  unfolding Customer.update
  update-Keeps id [] w = refl
  update-Keeps id (a ∷ fields) w = ground arith

  pub set_defaults-Keeps :
      (input : CustomerAddressInput) (id : ℕ) → Keeps the_addresses (set_defaults env input id)
  unfolding set_defaults
  set_defaults-Keeps input id =
      >>-Keeps the_addresses
        (when (is_set input.default_billing)
          (ignore (Customer.update env env.customer_id (set_default_billing id ∷ []))))
        (when (is_set input.default_shipping)
          (ignore (Customer.update env env.customer_id (set_default_shipping id ∷ []))))
        (when-Keeps the_addresses (is_set input.default_billing) _
          (update-Keeps env.customer_id (set_default_billing id ∷ [])))
        (when-Keeps the_addresses (is_set input.default_shipping) _
          (update-Keeps env.customer_id (set_default_shipping id ∷ [])))

  pub reload-Keeps : (id : ℕ) → Keeps the_addresses (reload env id)
  unfolding reload
  reload-Keeps id = >>=-Keeps the_addresses (Address.get_by_id id) _ (get_by_id-Keeps id) (λ a.
      >>=-Keeps the_addresses (attempt (Customer.get_by_id env.customer_id)) _
        (customer-Keeps env.customer_id)
        (λ found.
          >>=-Keeps the_addresses (deref found) _ (deref-Keeps the_addresses found)
            (λ c. map_address-Keeps a c.default_billing c.default_shipping)))

  pub owned-Keeps : (id : ℕ) → Keeps the_addresses (owned env id)
  unfolding owned Address.get_by_id
  owned-Keeps id w = ground arith
