-- ===== src/Service/Mapper.antt =====
-- internal/service/mapper.go: rows to outputs, and inputs to columns.
pub mod Street
use magento2_customer_graphq.Base.{
  ℕ, ◌≡◌, refl, Bool, true, false, ◌||◌, Option, none, some, List, [], ◌∷◌, ◌++◌, map, length, take,
  ltb, leb, ◌==◌, if◌then◌else◌,
}
use magento2_customer_graphq.Base.Text.{Text, text, is_empty, split, join}
use magento2_customer_graphq.Go.Strconv.{itoa}
use magento2_customer_graphq.Go.Base64.{base64_encode}
use magento2_customer_graphq.World.{AddressData}
use magento2_customer_graphq.World.Monad.{Action, ◌>>=◌, pure, attempt}
use magento2_customer_graphq.Model.{
  Customer, CustomerGroup, CustomerAddress, CustomerAddressRegion, CustomerAddressInput,
  RegionInput, account_confirmation_not_required,
}
use magento2_customer_graphq.Model.Enums.{is_valid_country}
use magento2_customer_graphq.Repository.Cache.{get_group}
use magento2_customer_graphq.Repository.Customer.{CustomerData, coalesce}
use magento2_customer_graphq.Repository.Address
use magento2_customer_graphq.Repository.Address.{
  Assign, set_firstname, set_lastname, set_middlename, set_prefix, set_suffix, set_company,
  set_city, set_postcode, set_telephone, set_fax, set_vat_id, set_country_id, set_street,
  set_region, set_region_id,
}

-- base64.StdEncoding.EncodeToString([]byte(strconv.Itoa(id)))
unfoldable pub encode_uid : ℕ → Text
encode_uid id = base64_encode (itoa id)

unfoldable pub map_group : ℕ → Action CustomerGroup
unfolding encode_uid
map_group id = do
  g ← get_group id
  pure (record { uid = encode_uid g.group_id; name = g.group_code })

-- The first ten bytes, YYYY-MM-DD.
unfoldable pub format_date : Text → Text
format_date s = if leb 10 (length s) then take 10 s else s

-- `strings.Replace(s, "T", " ", 1)`
unfoldable pub replace_t : Text → Text
replace_t [] = []
replace_t (b ∷ s) = if b == b'T' then 32 ∷ s else b ∷ replace_t s

unfoldable pub format_date_time : Text → Text
unfolding replace_t
format_date_time s = if leb 19 (length s) then replace_t (take 19 s) else s

abbrev pub map_option {ℓ κ} : {A : Type ℓ} {B : Type κ} → (A → B) → Option A → Option B
map_option f none = none
map_option f (some a) = some (f a)

abbrev map_dob : Option Text → Option Text
map_dob none = none
map_dob (some d) = if is_empty d then none else some (format_date d)

-- The output for a group that was read.
unfoldable pub customer_output : CustomerData → Option CustomerGroup → Customer
unfolding format_date format_date_time
customer_output c group = record {
  id = itoa c.entity_id;
  firstname = c.firstname;
  lastname = c.lastname;
  middlename = c.middlename;
  prefix = c.prefix;
  suffix = c.suffix;
  email = c.email;
  dob = map_dob c.dob;
  date_of_birth = map_dob c.dob;
  taxvat = c.taxvat;
  gender = c.gender;
  is_subscribed = none;
  created_at = format_date_time c.created_at;
  default_billing = map_option itoa c.default_billing;
  default_shipping = map_option itoa c.default_shipping;
  addresses = [];
  addresses_v2 = none;
  confirmation_status = account_confirmation_not_required;
  group_id = c.group_id;
  group = group;
}

unfoldable pub map_customer : CustomerData → Action Customer
unfolding customer_output
map_customer c = do group ← attempt (map_group c.group_id); pure (customer_output c group)

-- `id != nil && *id == entityID`
abbrev pub is_default : Option ℕ → ℕ → Bool
is_default none id = false
is_default (some d) id = d == id

abbrev pub is_some {ℓ} : {A : Type ℓ} → Option A → Bool
is_some none = false
is_some (some _) = true

abbrev region_code_of : Option (Text × Text) → Option Text
region_code_of none = none
region_code_of (some (code, _)) = some code

abbrev pub resolve_code : Option ℕ → Action (Option Text)
resolve_code none = pure none
resolve_code (some id) =
    if ltb 0 id
    then (attempt (Address.get_region id) >>= λ found. pure (region_code_of found))
    else pure none

unfoldable pub map_region : AddressData → Action (Option CustomerAddressRegion)
map_region a =
    if is_some a.region_id || is_some a.region
    then (resolve_code a.region_id >>= λ code.
        pure (some (record { region_code = code; region = a.region; region_id = a.region_id })))
    else pure none

abbrev valid_country : Option Text → Option Text
valid_country none = none
valid_country (some c) = if is_valid_country c then some c else none

abbrev pub street_lines : Option Text → List Text
street_lines none = []
street_lines (some s) = split 10 s

-- The output for a region that was mapped.
unfoldable pub address_output :
    AddressData → Option ℕ → Option ℕ → Option CustomerAddressRegion → CustomerAddress
unfolding encode_uid
address_output a billing shipping region = record {
  id = a.entity_id;
  uid = encode_uid a.entity_id;
  firstname = a.firstname;
  lastname = a.lastname;
  middlename = a.middlename;
  prefix = a.prefix;
  suffix = a.suffix;
  company = a.company;
  street = street_lines a.street;
  city = a.city;
  region = region;
  region_id = a.region_id;
  postcode = a.postcode;
  country_code = valid_country a.country_id;
  country_id = a.country_id;
  telephone = a.telephone;
  fax = a.fax;
  vat_id = a.vat_id;
  default_shipping = is_default shipping a.entity_id;
  default_billing = is_default billing a.entity_id;
}

unfoldable pub map_address : AddressData → Option ℕ → Option ℕ → Action CustomerAddress
unfolding map_region address_output
map_address a billing shipping = do
  region ← map_region a
  pure (address_output a billing shipping region)

unfoldable pub map_addresses :
    List AddressData → Option ℕ → Option ℕ → Action (List CustomerAddress)
map_addresses [] billing shipping = pure []
map_addresses (a ∷ as_) billing shipping = do
  head ← map_address a billing shipping
  rest ← map_addresses as_ billing shipping
  pure (head ∷ rest)

-- `strings.Join(lines, "\n")`, a nil line being empty.
abbrev pub join_street : List (Option Text) → Text
join_street lines = join 10 (map (coalesce []) lines)

abbrev input_region : Option RegionInput → Option Text
input_region none = none
input_region (some r) = r.region

abbrev input_region_id : Option RegionInput → Option ℕ
input_region_id none = none
input_region_id (some r) = r.region_id

-- The columns of a new address; those that the INSERT statement sets itself are left zero.
unfoldable pub map_address_input : CustomerAddressInput → ℕ → AddressData
map_address_input input parent = record {
  entity_id = 0;
  parent_id = parent;
  created_at = [];
  updated_at = [];
  is_active = 0;
  city = input.city;
  company = input.company;
  country_id = input.country_code;
  fax = input.fax;
  firstname = input.firstname;
  lastname = input.lastname;
  middlename = input.middlename;
  postcode = input.postcode;
  prefix = input.prefix;
  region = input_region input.region;
  region_id = input_region_id input.region;
  street = map_option join_street input.street;
  suffix = input.suffix;
  telephone = input.telephone;
  vat_id = input.vat_id;
}

-- `if v != nil { fields[column] = *v }`
abbrev pub field {ℓ κ} : {A : Type ℓ} {B : Type κ} → (A → B) → Option A → List B
field set none = []
field set (some v) = set v ∷ []

unfoldable pub map_address_fields : CustomerAddressInput → List Assign
map_address_fields input =
    field set_firstname input.firstname
    ++ (field set_lastname input.lastname
        ++ (field set_middlename input.middlename
            ++ (field set_prefix input.prefix
                ++ (field set_suffix input.suffix
                    ++ (field set_company input.company
                        ++ (field set_city input.city
                            ++ (field set_postcode input.postcode
                                ++ (field set_telephone input.telephone
                                    ++ (field set_fax input.fax
                                        ++ (field set_vat_id input.vat_id
                                            ++ (field set_country_id input.country_code
                                                ++ (field (λ lines. set_street (join_street lines))
                                                      input.street
                                                    ++ (field set_region (input_region input.region)
                                                        ++ field set_region_id (
                                                            input_region_id
                                                            input.region))))))))))))))

tests :
    (format_date_time (text "2026-03-22T08:03:44Z") ≡ text "2026-03-22 08:03:44")
    × (format_date (text "1973-12-15T00:00:00Z") ≡ text "1973-12-15")
    × (format_date (text "short") ≡ text "short")
unfolding format_date_time format_date
tests = (refl, refl, refl)
