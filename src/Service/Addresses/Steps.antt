-- ===== src/Service/Addresses/Steps.antt =====
-- The statements of `CreateAddress` of internal/service/customer.go where none of them fails.
use magento2_customer_graphq.Base.{
  ℕ, ◌+◌, ◌≡◌, refl, ap, ◌∙◌, Bool, true, false, ◌||◌, Option, none, some, [], ◌∷◌, ◌++◌, arith,
  ltb, ◌==◌, Bool-cases, Option-cases, inl, inr,
}
use magento2_customer_graphq.Base.Text.{Text}
use magento2_customer_graphq.World.{World, AddressData, CustomerRow, RegionRow}
use magento2_customer_graphq.World.Monad.{ok, when, ignore, next_fault, later_faults}
use magento2_customer_graphq.Env.{Env}
use magento2_customer_graphq.Model.{CustomerAddress, CustomerAddressInput, CustomerAddressRegion}
use magento2_customer_graphq.Repository.Sql.{find, find_sound, update_where, find-update_where_hit}
use magento2_customer_graphq.Repository.Customer
use magento2_customer_graphq.Repository.Customer.{
  Assign, updated, on_customers, set_default_billing, set_default_shipping, scan_customer,
  assign_all,
}
use magento2_customer_graphq.Repository.Customer.Quiet.{update_quiet, get_by_id_quiet}
use magento2_customer_graphq.Repository.Address
use magento2_customer_graphq.Service.Mapper.{
  map_address, address_output, map_region, map_address_input, is_default, resolve_code, is_some,
}
use magento2_customer_graphq.Service.Addresses.{set_defaults, reload, is_set}
use magento2_customer_graphq.Service.Addresses.Ownership.{shows}

assign-id : (f : Assign) (r : CustomerRow) → (Customer.assign f r).entity_id ≡ r.entity_id
unfolding Customer.assign
assign-id (Customer.set_firstname v) r = refl
assign-id _ r = refl

module _ (env : Env) where
  -- The row of the account after the flags of the input.
  abbrev pub flagged : Bool → Assign → CustomerRow → CustomerRow
  flagged false f r = r
  flagged true f r = updated env (f ∷ []) r

  abbrev pub with_flags : CustomerAddressInput → ℕ → CustomerRow → CustomerRow
  with_flags input id r =
      flagged (is_set input.default_shipping) (set_default_shipping id)
        (flagged (is_set input.default_billing) (set_default_billing id) r)

  flag-id :
      (f : Assign) (s : CustomerRow)
      → Customer.has_id env.customer_id (updated env (f ∷ []) s) ≡ Customer.has_id env.customer_id s
  unfolding updated assign_all
  flag-id f s = ap (λ n. n == env.customer_id) (assign-id f s)

  flag_step :
      (flag : Bool) (f : Assign) (w : World) (r : CustomerRow)
      → w.faults ≡ []
      → find (Customer.has_id env.customer_id) w.customers ≡ some r
      → (v : World) × (when flag (ignore (Customer.update env env.customer_id (f ∷ []))) w
          ≡ (ok tt, v))
        × (v.faults ≡ [])
        × (v.addresses ≡ w.addresses)
        × (find (Customer.has_id env.customer_id) v.customers ≡ some (flagged flag f r))
  flag_step false f w r q e = (w, refl, q, refl, e)
  flag_step true f w r q e = (
    on_customers (update_where (Customer.has_id env.customer_id) (updated env (f ∷ []))) w,
    ground (arith, update_quiet env env.customer_id f [] w q),
    q,
    refl,
    find-update_where_hit (Customer.has_id env.customer_id) (Customer.has_id env.customer_id)
        (updated env (f ∷ [])) w.customers r (flag-id f)
        (find_sound (Customer.has_id env.customer_id) w.customers r e) e,
  )

  abbrev later : World → World
  later w = record w { faults = later_faults w.faults }

  code_step :
      (o : Option ℕ) (w : World)
      → (code : Option Text) × (v : World) × (resolve_code o w ≡ (ok code, v))
        × (v.addresses ≡ w.addresses)
  unfolding Address.get_region
  code_step none w = (none, w, refl, refl)
  code_step (some id) w = elim (Bool-cases (ltb 0 id)) [
    | inr zero_id ↦ (none, w, ground (arith, zero_id), refl)
    | inl above ↦ elim (Bool-cases (next_fault w.faults)) [
      | inl fault ↦ (none, later w, ground (arith, above, fault), refl)
      | inr fine ↦ elim (Option-cases (find (λ (r : RegionRow). r.region_id == id) w.regions)) [
        | inl missing ↦ (none, later w, ground (arith, above, fine, missing), refl)
        | inr (r, there) ↦ (some r.code, later w, ground (arith, above, fine, there), refl)
      ]
    ]
  ]

  region_step :
      (a : AddressData) (w : World)
      → (region : Option CustomerAddressRegion) × (v : World) × (map_region a w ≡ (ok region, v))
        × (v.addresses ≡ w.addresses)
  unfolding map_region
  region_step a w = elim (Bool-cases (is_some a.region_id || is_some a.region)) [
    | inr none_given ↦ (none, w, ground (arith, none_given), refl)
    | inl given ↦
        let (code, v, e, same) = code_step a.region_id w in
        (
          some (record { region_code = code; region = a.region; region_id = a.region_id }),
          v,
          ground (arith, given, e),
          same,
        )
  ]

  -- What the client is told of an address.
  mapped :
      (a : AddressData) (billing shipping : Option ℕ) (w : World)
      → (o : CustomerAddress) × (v : World) × (map_address a billing shipping w ≡ (ok o, v))
        × (o.id ≡ a.entity_id)
        × (o.default_billing ≡ is_default billing a.entity_id)
        × (o.default_shipping ≡ is_default shipping a.entity_id)
        × (v.addresses ≡ w.addresses)
  unfolding map_address address_output
  mapped a billing shipping w =
      let (region, v, e, same) = region_step a w in
      (address_output a billing shipping region, v, ground (arith, e), refl, refl, refl, same)

  pub reload_step :
      (id : ℕ) (w : World) (a : AddressData) (r : CustomerRow)
      → w.faults ≡ []
      → shows id w ≡ some a
      → find (Customer.has_id env.customer_id) w.customers ≡ some r
      → (o : CustomerAddress) × (v : World) × (reload env id w ≡ (ok o, v))
        × (o.id ≡ a.entity_id)
        × (o.default_billing ≡ is_default r.default_billing a.entity_id)
        × (o.default_shipping ≡ is_default r.default_shipping a.entity_id)
        × (v.addresses ≡ w.addresses)
  unfolding reload Address.get_by_id scan_customer
  reload_step id w a r q there found =
      let (o, v, e, id_of, billing, shipping, same) =
        mapped a r.default_billing r.default_shipping w in
      (
        o,
        v,
        ground (arith, get_by_id_quiet env.customer_id w r q found, e),
        id_of,
        billing,
        shipping,
        same,
      )

  pub flags_step :
      (input : CustomerAddressInput) (id : ℕ) (w : World) (r : CustomerRow)
      → w.faults ≡ []
      → find (Customer.has_id env.customer_id) w.customers ≡ some r
      → (v : World) × (set_defaults env input id w ≡ (ok tt, v))
        × (v.faults ≡ [])
        × (v.addresses ≡ w.addresses)
        × (find (Customer.has_id env.customer_id) v.customers ≡ some (with_flags input id r))
  unfolding set_defaults
  flags_step input id w r q found =
      let (u, first, q1, same1, found1) =
        flag_step (is_set input.default_billing) (set_default_billing id) w r q found in
      let (v, second, q2, same2, found2) =
        flag_step (is_set input.default_shipping) (set_default_shipping id) u
          (flagged (is_set input.default_billing) (set_default_billing id) r) q1 found1 in
      (v, rw first second, q2, same2 ∙ same1, found2)

  -- The row that is added.
  abbrev pub new_row : CustomerAddressInput → ℕ → AddressData
  new_row input id = Address.inserted env id (map_address_input input env.customer_id)

  pub create_step :
      (a : AddressData) (w : World)
      → w.faults ≡ []
      → (v : World) × (Address.create env a w ≡ (ok w.next_address, v))
        × (v.faults ≡ [])
        × (v.addresses ≡ w.addresses ++ Address.inserted env w.next_address a ∷ [])
        × (v.customers ≡ w.customers)
  unfolding Address.create
  create_step a w q = (
    record w {
      addresses = w.addresses ++ Address.inserted env w.next_address a ∷ [];
      next_address = w.next_address + 1;
      faults = [];
    },
    ground (arith, q),
    refl,
    refl,
    refl,
  )
