-- ===== src/Repository/Address.antt =====
-- internal/repository/address.go: the rows of `customer_address_entity`, and the regions.
use magento2_customer_graphq.Base.{
  ℕ, ◌+◌, Bool, ◌&&◌, some, List, [], ◌∷◌, ◌++◌, ◌==◌, ltb, if◌then◌else◌,
}
use magento2_customer_graphq.Base.Text.{Text}
use magento2_customer_graphq.Errors.{
  address_by_id, addresses_for_customer, update_address, delete_address, create_address,
}
use magento2_customer_graphq.World.{World, AddressData, RegionRow}
use magento2_customer_graphq.World.Monad.{
  Action, ◌>>=◌, ◌>>◌, pure, row, within, query, exec, gets, statement,
}
use magento2_customer_graphq.Env.{Env}
use magento2_customer_graphq.Repository.Sql.{find, select, update_where, delete_where}

abbrev pub has_id : ℕ → AddressData → Bool
has_id id a = a.entity_id == id

-- `WHERE parent_id = ? AND is_active = 1`
abbrev pub active_of : ℕ → AddressData → Bool
active_of customer a = a.parent_id == customer && (a.is_active == 1)

-- `ORDER BY entity_id`
unfoldable pub insert_by_id : AddressData → List AddressData → List AddressData
insert_by_id a [] = a ∷ []
insert_by_id a (b ∷ bs) = if ltb b.entity_id a.entity_id then b ∷ insert_by_id a bs else a ∷ b ∷ bs

unfoldable pub by_entity_id : List AddressData → List AddressData
unfolding insert_by_id
by_entity_id [] = []
by_entity_id (a ∷ rest) = insert_by_id a (by_entity_id rest)

unfoldable pub get_by_customer_id : ℕ → Action (List AddressData)
unfolding by_entity_id
get_by_customer_id customer =
    within (addresses_for_customer customer)
      (query (λ w. by_entity_id (select (active_of customer) w.addresses)))

unfoldable pub get_by_id : ℕ → Action AddressData
get_by_id id =
    within (address_by_id id) do found ← query (λ w. find (has_id id) w.addresses); row found

-- One entry of the map `fields`.
pub data Assign : Type 0 where
  set_firstname set_lastname set_middlename set_prefix set_suffix set_company set_city :
      Text → Assign
  set_postcode set_telephone set_fax set_vat_id set_country_id set_street set_region : Text → Assign
  set_region_id : ℕ → Assign

unfoldable pub assign : Assign → AddressData → AddressData
assign (set_firstname v) a = record a { firstname = some v }
assign (set_lastname v) a = record a { lastname = some v }
assign (set_middlename v) a = record a { middlename = some v }
assign (set_prefix v) a = record a { prefix = some v }
assign (set_suffix v) a = record a { suffix = some v }
assign (set_company v) a = record a { company = some v }
assign (set_city v) a = record a { city = some v }
assign (set_postcode v) a = record a { postcode = some v }
assign (set_telephone v) a = record a { telephone = some v }
assign (set_fax v) a = record a { fax = some v }
assign (set_vat_id v) a = record a { vat_id = some v }
assign (set_country_id v) a = record a { country_id = some v }
assign (set_street v) a = record a { street = some v }
assign (set_region v) a = record a { region = some v }
assign (set_region_id v) a = record a { region_id = some v }

unfoldable pub assign_all : List Assign → AddressData → AddressData
unfolding assign
assign_all [] a = a
assign_all (f ∷ fs) a = assign_all fs (assign f a)

abbrev pub on_addresses : (List AddressData → List AddressData) → World → World
on_addresses f w = record w { addresses = f w.addresses }

module _ (env : Env) where
  -- The row that the INSERT statement adds.
  unfoldable pub inserted : ℕ → AddressData → AddressData
  inserted id a = record a {
    entity_id = id;
    created_at = env.format_time env.now;
    updated_at = env.format_time env.now;
    is_active = 1;
  }

  unfoldable pub create : AddressData → Action ℕ
  create a = within create_address do
    statement
    λ w.
        gets (λ _. w.next_address)
          (record w {
            addresses = w.addresses ++ inserted w.next_address a ∷ [];
            next_address = w.next_address + 1;
          })

  unfoldable pub updated : List Assign → AddressData → AddressData
  unfolding assign_all
  updated fields a = record (assign_all fields a) { updated_at = env.format_time env.now }

  unfoldable pub update : ℕ → List Assign → Action (Unit {0})
  update id [] = pure tt
  update id (f ∷ fields) =
      within (update_address id)
        (exec (on_addresses (update_where (has_id id) (updated (f ∷ fields)))))

unfoldable pub delete : ℕ → Action (Unit {0})
delete id = within (delete_address id) (exec (on_addresses (delete_where (has_id id))))

-- The code and the default name of a region.
unfoldable pub get_region : ℕ → Action (Text × Text)
get_region id = do
  found ← query (λ w. find (λ (r : RegionRow). r.region_id == id) w.regions)
  r ← row found
  pure (r.code, r.default_name)
