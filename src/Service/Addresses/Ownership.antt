-- ===== src/Service/Addresses/Ownership.antt =====
-- Whose addresses the operations of internal/service/customer.go may touch.
use magento2_customer_graphq.Base.{
  ℕ, ◌≡◌, ◌≢◌, refl, ap, ◌∙◌, inl, inr, Bool, true, false, Option, none, some, List, [], ◌∷◌, arith,
  ◌==◌, Bool-cases,
}
use native.Mathlib.Decide.{ℕ_discrete}
use magento2_customer_graphq.World.{World, AddressData}
use magento2_customer_graphq.World.Monad.{
  Action, Outcome, ok, err, panic, bind_outcome, ◌>>=◌, ◌>>◌, pure, attempt,
}
use magento2_customer_graphq.World.Monad.Frame.{Keeps, >>=-Keeps, >>=-kept, >>-Keeps}
use magento2_customer_graphq.Env.{Env}
use magento2_customer_graphq.Model.{CustomerAddressInput}
use magento2_customer_graphq.Repository.Sql.{
  find, find-update_where_ne, find-delete_where_ne, find-append_of_some,
}
use magento2_customer_graphq.Repository.Customer
use magento2_customer_graphq.Repository.Customer.{CustomerData}
use magento2_customer_graphq.Repository.Address
use magento2_customer_graphq.Repository.Address.{Assign}
use magento2_customer_graphq.Service.Mapper.{map_address_fields, map_address_input}
use magento2_customer_graphq.Service.Tokens.{signed_in}
use magento2_customer_graphq.Service.Addresses.{
  set_defaults, reload, owned, guard_defaults, create_address, update_address, delete_address,
}
use magento2_customer_graphq.Service.Addresses.Frames.{
  the_addresses, set_defaults-Keeps, reload-Keeps, owned-Keeps, customer-Keeps,
}

-- The row of an address.
abbrev pub shows : ℕ → World → Option AddressData
shows j w = find (Address.has_id j) w.addresses

shows_of_Keeps : {A : Type 0} (j : ℕ) (m : Action A) → Keeps the_addresses m → Keeps (shows j) m
shows_of_Keeps j m h w = ap (find (Address.has_id j)) (h w)

assign-id : (f : Assign) (a : AddressData) → (Address.assign f a).entity_id ≡ a.entity_id
unfolding Address.assign
assign-id (Address.set_firstname v) a = refl
assign-id _ a = refl

assign_all-id :
    (fields : List Assign) (a : AddressData) → (Address.assign_all fields a).entity_id ≡ a.entity_id
unfolding Address.assign_all
assign_all-id [] a = refl
assign_all-id (f ∷ fs) a = assign_all-id fs (Address.assign f a) ∙ assign-id f a

other_id : (id j n : ℕ) → id ≢ j → (n == id) ≡ true → (n == j) ≡ false
other_id id j n ne h = ground arith

bind_refused :
    {B : Type 0} (m : Action (Unit {0})) (k : Action B) (w : World)
    → (m w).0 ≢ ok tt
    → ((m >> k) w).1 ≡ (m w).1
bind_refused m k w h = go (m w).0 refl
  where
    go :
        (o : Outcome (Unit {0})) → (m w).0 ≡ o → (bind_outcome (m w).0 (m w).1 (λ _. k)).1 ≡ (m w).1
    go (ok u) e = absurd (h e)
    go (err x) e = rw e
    go panic e = rw e

module _ (env : Env) where
  updated-other :
      (id j : ℕ) (fields : List Assign)
      → id ≢ j
      → (a : AddressData) → Address.has_id id a ≡ true
      → (Address.has_id j a ≡ false) × (Address.has_id j (Address.updated env fields a) ≡ false)
  updated-other id j fields ne a h = (
    other_id id j a.entity_id ne h,
    unfold Address.updated in rw (assign_all-id fields a) (other_id id j a.entity_id ne h),
  )

  -- An update of another address.
  update-shows :
      (id j : ℕ) (fields : List Assign) → id ≢ j → Keeps (shows j) (Address.update env id fields)
  unfolding Address.update
  update-shows id j [] ne w = refl
  update-shows id j (f ∷ fields) ne w = ground (
    arith,
    find-update_where_ne (Address.has_id j) (Address.has_id id) (Address.updated env (f ∷ fields))
        w.addresses (updated-other id j (f ∷ fields) ne),
  )

  delete-shows : (id j : ℕ) → id ≢ j → Keeps (shows j) (Address.delete id)
  unfolding Address.delete
  delete-shows id j ne w = ground (
    arith,
    find-delete_where_ne (Address.has_id j) (Address.has_id id) w.addresses
        (λ a. other_id id j a.entity_id ne),
  )

  owned_refuses :
      (id : ℕ) (w : World) (a : AddressData)
      → shows id w ≡ some a
      → a.parent_id ≢ env.customer_id
      → (owned env id w).0 ≢ ok tt
  unfolding owned Address.get_by_id
  owned_refuses id w a e foreign = ground arith

  -- Behind the test of ownership, what keeps other addresses keeps those of other customers.
  guarded :
      {B : Type 0} (id j : ℕ) (k : Action B) (w : World) (a : AddressData)
      → (id ≢ j → Keeps (shows j) k)
      → shows j w ≡ some a
      → a.parent_id ≢ env.customer_id
      → shows j ((owned env id >> k) w).1 ≡ some a
  guarded id j k w a keep e foreign = elim (ℕ_discrete id j) [
    | yes same ↦
        let mine : shows id w ≡ some a = ap (λ n. shows n w) same ∙ e in
        ap (shows j) (bind_refused (owned env id) k w (owned_refuses id w a mine foreign))
        ∙ (shows_of_Keeps j (owned env id) (owned-Keeps env id) w ∙ e)
    | no ne ↦
        >>-Keeps (shows j) (owned env id) k (shows_of_Keeps j (owned env id) (owned-Keeps env id))
          (keep ne) w
        ∙ e
  ]

  -- The call keeps the row `j` of another customer.
  abbrev KeepsForeign : {B : Type 0} → Action B → Type 0
  KeepsForeign m =
      (j : ℕ) (w : World) (a : AddressData)
      → shows j w ≡ some a
      → a.parent_id ≢ env.customer_id
      → shows j (m w).1 ≡ some a

  signed_in-foreign :
      {B : Type 0} (k : Action B) → KeepsForeign k → KeepsForeign (signed_in env >> k)
  signed_in-foreign k h j w a e foreign = elim (Bool-cases (env.customer_id == 0)) [
    | inl off ↦ rw off e
    | inr on ↦ rw on (h j w a e foreign)
  ]

  rest-shows :
      (j id : ℕ) (input : CustomerAddressInput)
      → Keeps (shows j) (set_defaults env input id >> reload env id)
  rest-shows j id input =
      >>-Keeps (shows j) (set_defaults env input id) (reload env id)
        (shows_of_Keeps j (set_defaults env input id) (set_defaults-Keeps env input id))
        (shows_of_Keeps j (reload env id) (reload-Keeps env id))

  create-shows :
      (j : ℕ) (b : AddressData) (w : World) (a : AddressData)
      → shows j w ≡ some a
      → shows j (Address.create env b w).1 ≡ some a
  unfolding Address.create
  create-shows j b w a e = ground (
    arith,
    find-append_of_some (Address.has_id j) w.addresses (Address.inserted env w.next_address b ∷ [])
        a,
  )

  create-foreign : (input : CustomerAddressInput) → KeepsForeign (create_address env input)
  unfolding create_address
  create-foreign input =
      let insert = Address.create env (map_address_input input env.customer_id) in
      let rest = λ (id : ℕ). set_defaults env input id >> reload env id in
      signed_in-foreign (insert >>= rest) (λ j w a e foreign.
        >>=-kept (shows j) insert rest w
          (create-shows j (map_address_input input env.customer_id) w a e)
          (λ id. rest-shows j id input))

  update-foreign :
      (id : ℕ) (input : CustomerAddressInput) → KeepsForeign (update_address env id input)
  unfolding update_address
  update-foreign id input =
      let set = Address.update env id (map_address_fields input) in
      let rest = set_defaults env input id >> reload env id in
      signed_in-foreign (owned env id >> (set >> rest)) (λ j w a e foreign.
        guarded id j (set >> rest) w a
          (λ ne.
            >>-Keeps (shows j) set rest (update-shows id j (map_address_fields input) ne)
              (rest-shows j id input))
          e foreign)

  guard-Keeps :
      (id : ℕ) (found : Option CustomerData) → Keeps the_addresses (guard_defaults id found)
  unfolding guard_defaults
  guard-Keeps id none w = refl
  guard-Keeps id (some c) w = ground arith

  delete-foreign : (id : ℕ) → KeepsForeign (delete_address env id)
  unfolding delete_address
  delete-foreign id =
      let read = attempt (Customer.get_by_id env.customer_id) in
      let remove : Action Bool = Address.delete id >> pure true in
      let rest = λ (found : Option CustomerData). guard_defaults id found >> remove in
      signed_in-foreign (owned env id >> (read >>= rest)) (λ j w a e foreign.
        guarded id j (read >>= rest) w a
          (λ ne.
            >>=-Keeps (shows j) read rest (shows_of_Keeps j read (customer-Keeps env.customer_id))
              (λ found.
                >>-Keeps (shows j) (guard_defaults id found) remove
                  (shows_of_Keeps j (guard_defaults id found) (guard-Keeps id found))
                  (>>-Keeps (shows j) (Address.delete id) (pure true) (delete-shows id j ne)
                    (λ w'. refl))))
          e foreign)

-- A row of the address book that belongs to another customer is the same after a call of
-- createCustomerAddress, updateCustomerAddress or deleteCustomerAddress, whatever id and input are
-- given, and whichever of the statements fail.
pub foreign_address_kept :
    (env : Env) (j : ℕ) (w : World) (a : AddressData)
    → shows j w ≡ some a
    → a.parent_id ≢ env.customer_id
    → ((input : CustomerAddressInput) → shows j (create_address env input w).1 ≡ some a)
      × ((id : ℕ) (input : CustomerAddressInput)
          → shows j (update_address env id input w).1 ≡ some a)
      × ((id : ℕ) → shows j (delete_address env id w).1 ≡ some a)
foreign_address_kept env j w a e foreign = (
  λ input. create-foreign env input j w a e foreign,
  λ id input. update-foreign env id input j w a e foreign,
  λ id. delete-foreign env id j w a e foreign,
)
