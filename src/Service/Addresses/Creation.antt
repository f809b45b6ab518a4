-- ===== src/Service/Addresses/Creation.antt =====
-- `CreateAddress` of internal/service/customer.go: what a new address is and whose.
use magento2_customer_graphq.Base.{
  ℕ, ◌≡◌, ◌≢◌, refl, ap, ◌∙◌, Bool, true, false, ◌||◌, none, some, [], arith, ==_refl,
}
use magento2_customer_graphq.World.{World, CustomerRow}
use magento2_customer_graphq.World.Monad.{ok}
use magento2_customer_graphq.Env.{Env}
use magento2_customer_graphq.Model.{CustomerAddress, CustomerAddressInput}
use magento2_customer_graphq.Repository.Sql.{find, find-append_of_none}
use magento2_customer_graphq.Repository.Customer
use magento2_customer_graphq.Repository.Customer.{
  Assign, updated, on_customers, set_default_billing, set_default_shipping, scan_customer,
  assign_all,
}
use magento2_customer_graphq.Repository.Address
use magento2_customer_graphq.Service.Mapper.{map_address_input, is_default}
use magento2_customer_graphq.Service.Addresses.{create_address, set_defaults, reload, is_set}
use magento2_customer_graphq.Service.Addresses.Ownership.{shows}
use magento2_customer_graphq.Service.Addresses.Steps.{
  flagged, with_flags, new_row, create_step, flags_step, reload_step,
}

module _ (env : Env) where
  billing_flag :
      (billing shipping : Bool) (id : ℕ) (r : CustomerRow)
      → is_default
          (flagged env shipping
            (set_default_shipping id)
            (flagged env billing (set_default_billing id) r)).default_billing
          id
        ≡ billing || is_default r.default_billing id
  unfolding updated assign_all Customer.assign
  billing_flag true true id r = ==_refl id
  billing_flag true false id r = ==_refl id
  billing_flag false true id r = refl
  billing_flag false false id r = refl

  shipping_flag :
      (billing shipping : Bool) (id : ℕ) (r : CustomerRow)
      → is_default
          (flagged env shipping
            (set_default_shipping id)
            (flagged env billing (set_default_billing id) r)).default_shipping
          id
        ≡ shipping || is_default r.default_shipping id
  unfolding updated assign_all Customer.assign
  shipping_flag true true id r = ==_refl id
  shipping_flag false true id r = ==_refl id
  shipping_flag true false id r = refl
  shipping_flag false false id r = refl

  run :
      (input : CustomerAddressInput) (w w1 w2 v : World) (o : CustomerAddress)
      → env.customer_id ≢ 0
      → Address.create env (map_address_input input env.customer_id) w ≡ (ok w.next_address, w1)
      → set_defaults env input w.next_address w1 ≡ (ok tt, w2)
      → reload env w.next_address w2 ≡ (ok o, v)
      → create_address env input w ≡ (ok o, v)
  unfolding create_address
  run input w w1 w2 v o signed made flags loaded = ground (arith, made, flags, loaded)

  -- Where no statement fails, the caller is signed in and has the row `r`, and the next key of the
  -- table is free: a new address is returned under that key; its row is the caller's, with the
  -- columns of the input, and active; and the client is told that it is a default where the input
  -- asks for it, or the account already named that key.
  pub create_address_takes_effect :
      (input : CustomerAddressInput) (w : World) (r : CustomerRow)
      → w.faults ≡ []
      → env.customer_id ≢ 0
      → find (Customer.has_id env.customer_id) w.customers ≡ some r
      → shows w.next_address w ≡ none
      → (o : CustomerAddress) × (v : World) × (create_address env input w ≡ (ok o, v))
        × (o.id ≡ w.next_address)
        × (o.default_billing
            ≡ is_set input.default_billing || is_default r.default_billing w.next_address)
        × (o.default_shipping
            ≡ is_set input.default_shipping || is_default r.default_shipping w.next_address)
        × (shows w.next_address v ≡ some (new_row env input w.next_address))
  unfolding Address.inserted
  create_address_takes_effect input w r q signed found free =
      let id = w.next_address in
      let (w1, made, q1, rows, same) =
        create_step env (map_address_input input env.customer_id) w q in
      let (w2, flags, q2, same2, found2) =
        flags_step env input id w1 r q1
          (ap (find (Customer.has_id env.customer_id)) same ∙ found) in
      let there : shows id w2 ≡ some (new_row env input id) =
        ap (find (Address.has_id id)) (same2 ∙ rows)
        ∙ find-append_of_none (Address.has_id id) w.addresses (new_row env input id) free
            (==_refl id) in
      let (o, v, loaded, id_of, billing, shipping, same3) =
        reload_step env id w2 (new_row env input id) (with_flags env input id r) q2 there found2 in
      (
        o,
        v,
        run input w w1 w2 v o signed made flags loaded,
        id_of,
        billing ∙ billing_flag (is_set input.default_billing) (is_set input.default_shipping) id r,
        shipping
            ∙ shipping_flag (is_set input.default_billing) (is_set input.default_shipping) id r,
        ap (find (Address.has_id id)) same3 ∙ there,
      )
