-- ===== src/Tests/Addresses.antt =====
-- The address books of the shop of the tests.
use magento2_customer_graphq.Base.{◌≡◌, ◌↔◌, refl, true, false, none, some, List, [], ◌∷◌, arith}
use magento2_customer_graphq.World.{World, AddressData}
use magento2_customer_graphq.World.Monad.{ok}
use magento2_customer_graphq.Model.{CustomerAddress}
use magento2_customer_graphq.Repository.Sql.{find}
use magento2_customer_graphq.Repository.Customer
use magento2_customer_graphq.Service.Addresses.{create_address, delete_address, total_pages}
use magento2_customer_graphq.Service.Addresses.Ownership.{shows}
use magento2_customer_graphq.Service.Addresses.Defaults.{
  MayDelete, removed, delete_address-ok_iff, delete_address_unread,
}
use magento2_customer_graphq.Service.Addresses.Pages.{collected, pages_cover}
use magento2_customer_graphq.Service.Addresses.Steps.{new_row}
use magento2_customer_graphq.Service.Addresses.Creation.{create_address_takes_effect}
use magento2_customer_graphq.Tests.Data.{shop_env, shop, customer, address, no_address}

there : shows 80 shop ≡ some (address 80 8)
unfolding find
there = refl

mine : shows 70 shop ≡ some (address 70 7)
unfolding find
mine = refl

caller : find (Customer.has_id 7) shop.customers ≡ some (customer 7)
unfolding find
caller = refl

free : shows 90 shop ≡ none
unfolding find
free = refl

-- The second statement from now on fails.
abbrev second_fails : World
second_fails = record shop { faults = false ∷ true ∷ [] }

delete_address-ok_iff_example :
    (delete_address shop_env 71 shop ≡ (ok true, removed shop_env 71 shop))
    ↔ MayDelete shop_env 71 shop (customer 7)
delete_address-ok_iff_example = delete_address-ok_iff shop_env 71 shop (customer 7) refl caller

delete_address_unread_example :
    ((delete_address shop_env 70 second_fails).0 ≡ ok true)
    × (shows 70 (delete_address shop_env 70 second_fails).1 ≡ none)
    × ((delete_address shop_env 70 second_fails).1.customers ≡ shop.customers)
delete_address_unread_example =
    delete_address_unread shop_env 70 second_fails (address 70 7) refl (omega arith) mine refl

create_address_takes_effect_example :
    (o : CustomerAddress) × (v : World) × (create_address shop_env no_address shop ≡ (ok o, v))
    × (o.id ≡ 90)
    × (o.default_billing ≡ false)
    × (o.default_shipping ≡ true)
    × (shows 90 v ≡ some (new_row shop_env no_address 90))
create_address_takes_effect_example =
    create_address_takes_effect shop_env no_address shop (customer 7) refl (omega arith) caller free

abbrev book : List AddressData
book = address 70 7 ∷ address 71 7 ∷ address 72 7 ∷ []

pages_cover_example : collected (total_pages 3 2) 2 book shop ≡ book
pages_cover_example = pages_cover 2 book shop (omega arith) (omega arith) (omega arith)
