-- ===== src/Service/Addresses/Defaults.antt =====
-- `DeleteAddress` of internal/service/customer.go: when an address is removed.
use magento2_customer_graphq.Base.{
  ℕ, ◌≡◌, ◌≢◌, refl, Bool, true, false, Option, none, some, [], ◌∷◌, arith, ◌==◌, ==_iff, ap,
  Bool-cases, inl, inr, ◌↔◌,
}
use magento2_customer_graphq.World.{World, AddressData, CustomerRow}
use magento2_customer_graphq.World.Monad.{ok}
use magento2_customer_graphq.Env.{Env}
use magento2_customer_graphq.Repository.Sql.{find, delete_where, find-delete_where_self}
use magento2_customer_graphq.Repository.Customer
use magento2_customer_graphq.Repository.Customer.{scan_customer}
use magento2_customer_graphq.Repository.Address
use magento2_customer_graphq.Service.Mapper.{is_default}
use magento2_customer_graphq.Service.Addresses.{delete_address, owned, guard_defaults}
use magento2_customer_graphq.Service.Addresses.Ownership.{shows}

module _ (env : Env) (id : ℕ) where
  -- The address is the caller's, and not one that the account `r` goes by.
  pub record MayDelete (w : World) (r : CustomerRow) : Type 0 where
    pub signed : env.customer_id ≢ 0
    pub row : AddressData
    pub found : shows id w ≡ some row
    pub mine : row.parent_id ≡ env.customer_id
    pub not_billing : r.default_billing ≢ some id
    pub not_shipping : r.default_shipping ≢ some id

  not-default : (d : Option ℕ) → is_default d id ≡ false → d ≢ some id
  not-default none h e = cc
  not-default (some n) h e = ground arith

  default_of : (d : Option ℕ) → d ≢ some id → is_default d id ≡ false
  default_of none h = refl
  default_of (some n) h = elim (Bool-cases (n == id)) [
    | inl same ↦ absurd (h (ap some ((==_iff n id).0 same)))
    | inr other ↦ other
  ]

  abbrev pub removed : World → World
  removed w = record w { addresses = delete_where (Address.has_id id) w.addresses }

  delete_address-eq-ok :
      (w : World) (r : CustomerRow) {b : Bool} {w' : World}
      → w.faults ≡ []
      → find (Customer.has_id env.customer_id) w.customers ≡ some r
      → delete_address env id w ≡ (ok b, w')
      → (a : AddressData) × (shows id w ≡ some a)
        × (a.parent_id ≡ env.customer_id)
        × (env.customer_id ≢ 0)
        × (is_default r.default_billing id ≡ false)
        × (is_default r.default_shipping id ≡ false)
        × (w' ≡ removed w)
  unfolding delete_address owned guard_defaults Address.get_by_id Customer.get_by_id Address.delete
      scan_customer
  delete_address-eq-ok w r q e h = ground arith

  delete_address_done :
      (w : World) (r : CustomerRow)
      → w.faults ≡ []
      → find (Customer.has_id env.customer_id) w.customers ≡ some r
      → MayDelete w r
      → delete_address env id w ≡ (ok true, removed w)
  unfolding delete_address owned guard_defaults Address.get_by_id Customer.get_by_id Address.delete
      scan_customer
  delete_address_done w r q e may = ground (
    arith,
    may.signed,
    may.found,
    may.mine,
    default_of _ may.not_billing,
    default_of _ may.not_shipping,
  )

  delete_address_may :
      (w : World) (r : CustomerRow) {b : Bool} {w' : World}
      → w.faults ≡ []
      → find (Customer.has_id env.customer_id) w.customers ≡ some r
      → delete_address env id w ≡ (ok b, w')
      → MayDelete w r
  delete_address_may w r q e h =
      let (a, found, mine, signed, billing, shipping, _) = delete_address-eq-ok w r q e h in
      record {
        signed = signed;
        row = a;
        found = found;
        mine = mine;
        not_billing = not-default r.default_billing billing;
        not_shipping = not-default r.default_shipping shipping;
      }

  -- Where no statement fails and the caller's row is `r`, a deletion returns true and removes the
  -- address, and nothing else, exactly where the address is the caller's and neither of the
  -- defaults of `r`.
  pub delete_address-ok_iff :
      (w : World) (r : CustomerRow)
      → w.faults ≡ []
      → find (Customer.has_id env.customer_id) w.customers ≡ some r
      → (delete_address env id w ≡ (ok true, removed w)) ↔ MayDelete w r
  delete_address-ok_iff w r q e = (delete_address_may w r q e, delete_address_done w r q e)

  -- The second statement, which reads the caller's row, fails: an address of the caller is removed
  -- and true is returned, whether or not it is a default of that row.
  pub delete_address_unread :
      (w : World) (a : AddressData)
      → w.faults ≡ false ∷ true ∷ []
      → env.customer_id ≢ 0
      → shows id w ≡ some a
      → a.parent_id ≡ env.customer_id
      → ((delete_address env id w).0 ≡ ok true)
        × (shows id (delete_address env id w).1 ≡ none)
        × ((delete_address env id w).1.customers ≡ w.customers)
  unfolding delete_address owned guard_defaults Address.get_by_id Customer.get_by_id Address.delete
      scan_customer
  delete_address_unread w a q signed e mine =
      ground (arith, find-delete_where_self (Address.has_id id) w.addresses)
