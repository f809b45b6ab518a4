-- ===== src/Service/Addresses.antt =====
-- internal/service/customer.go: the address book.
pub mod Frames
pub mod Ownership
pub mod Defaults
pub mod Pages
pub mod Steps
pub mod Creation
pub mod Accounts
use magento2_customer_graphq.Base.{
  ℕ, ◌+◌, ◌-◌, ◌*◌, ◌/◌, Bool, true, false, not, Option, none, some, List, [], ◌∷◌, length, take,
  drop, min, ltb, ◌==◌, if◌then◌else◌,
}
use magento2_customer_graphq.Errors.{
  address_not_owned, address_lookup, address_default_billing_delete,
  address_default_shipping_delete,
}
use magento2_customer_graphq.World.Monad.{
  Action, Outcome, panic, ◌>>=◌, ◌>>◌, pure, fail_if, within, attempt, ignore, deref, when,
}
use magento2_customer_graphq.Go.Int.{ℤ, pos, negsuc, add64}
use magento2_customer_graphq.Repository.Orders.{offset}
use magento2_customer_graphq.Env.{Env}
use magento2_customer_graphq.Model.{CustomerAddress, CustomerAddresses, CustomerAddressInput}
use magento2_customer_graphq.Repository.Customer
use magento2_customer_graphq.Repository.Customer.{
  CustomerData, set_default_billing, set_default_shipping,
}
use magento2_customer_graphq.Repository.Address
use magento2_customer_graphq.Service.Mapper.{
  map_address, map_addresses, map_address_input, map_address_fields, is_default,
}
use magento2_customer_graphq.Service.Tokens.{signed_in}

-- `flag != nil && *flag`
abbrev pub is_set : Option Bool → Bool
is_set none = false
is_set (some b) = b

-- `if customer != nil { ... }` in `DeleteAddress`.
unfoldable pub guard_defaults : ℕ → Option CustomerData → Action (Unit {0})
guard_defaults id none = pure tt
guard_defaults id (some c) = do
  fail_if (is_default c.default_billing id) (address_default_billing_delete id)
  fail_if (is_default c.default_shipping id) (address_default_shipping_delete id)

-- `if i > total { i = total }`
abbrev pub at_most : ℕ → ℤ → ℤ
at_most total (pos i) = pos (min i total)
at_most total (negsuc i) = negsuc i

-- `all[start:end]`, for an end that is not past the list.
abbrev pub slice : {A : Type 0} → List A → ℤ → ℤ → Outcome (List A)
slice all (pos start) (pos end) =
    if ltb end start then panic else Outcome.ok (take (end - start) (drop start all))
slice all (pos start) (negsuc end) = panic
slice all (negsuc start) end = panic

unfoldable pub slice_page : {A : Type 0} → ℕ → ℕ → List A → Action (List A)
unfolding offset add64
slice_page current_page page_size all w =
    let total = length all in
    let start = at_most total (offset current_page page_size) in
    let end = at_most total (add64 start page_size) in (slice all start end, w)

-- `math.Ceil` of the quotient, for a page size above 0; the quotient of floating-point numbers by 0
-- is not modelled.
unfoldable pub total_pages : ℕ → ℕ → ℕ
total_pages total_count page_size = (total_count + page_size - 1) / page_size

module _ (env : Env) where
  -- The two flags of the input.
  unfoldable pub set_defaults : CustomerAddressInput → ℕ → Action (Unit {0})
  set_defaults input id = do
    when (is_set input.default_billing)
        (ignore (Customer.update env env.customer_id (set_default_billing id ∷ [])))
    when (is_set input.default_shipping)
        (ignore (Customer.update env env.customer_id (set_default_shipping id ∷ [])))

  -- The address as it stands, with the flags of the customer; a customer that is not found is a nil
  -- dereference.
  unfoldable pub reload : ℕ → Action CustomerAddress
  reload id = do
    a ← Address.get_by_id id
    found ← attempt (Customer.get_by_id env.customer_id)
    c ← deref found
    map_address a c.default_billing c.default_shipping

  unfoldable pub create_address : CustomerAddressInput → Action CustomerAddress
  unfolding set_defaults reload
  create_address input = do
    signed_in env
    id ← Address.create env (map_address_input input env.customer_id)
    set_defaults input id
    reload id

  -- `existing.ParentID != customerID`
  unfoldable pub owned : ℕ → Action (Unit {0})
  owned id = do
    existing ← within address_lookup (Address.get_by_id id)
    fail_if (not (existing.parent_id == env.customer_id)) address_not_owned

  unfoldable pub update_address : ℕ → CustomerAddressInput → Action CustomerAddress
  unfolding set_defaults reload owned
  update_address id input = do
    signed_in env
    owned id
    Address.update env id (map_address_fields input)
    set_defaults input id
    reload id

  unfoldable pub delete_address : ℕ → Action Bool
  unfolding owned guard_defaults
  delete_address id = do
    signed_in env
    owned id
    found ← attempt (Customer.get_by_id env.customer_id)
    guard_defaults id found
    Address.delete id
    pure true

  unfoldable pub get_addresses_paginated : ℕ → ℕ → ℕ → Action CustomerAddresses
  unfolding slice_page total_pages
  get_addresses_paginated customer current_page page_size = do
    c ← Customer.get_by_id customer
    all ← Address.get_by_customer_id customer
    page ← slice_page current_page page_size all
    items ← map_addresses page c.default_billing c.default_shipping
    pure (record {
      items = items;
      total_count = length all;
      page_info = record {
        current_page = current_page;
        page_size = page_size;
        total_pages = total_pages (length all) page_size;
      };
    })
