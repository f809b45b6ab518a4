-- ===== src/Tests/Texts.antt =====
-- Passwords, email addresses, UIDs and streets of the tests.
use magento2_customer_graphq.Base.{◌≡◌, ◌↔◌, refl, true, none, some, [], ◌∷◌, arith, All, map}
use magento2_customer_graphq.Base.Text.{text, Free}
use magento2_customer_graphq.Go.Strconv.{IsByte}
use magento2_customer_graphq.World.Monad.{ok}
use magento2_customer_graphq.Go.Base64.{base64_encode}
use magento2_customer_graphq.Repository.Customer.{coalesce}
use magento2_customer_graphq.Repository.Password.{hash_of, verify_password, salt_bytes}
use magento2_customer_graphq.Repository.Password.RoundTrip.{verify_password-hash_of_iff}
use magento2_customer_graphq.Service.Password.{validate_password}
use magento2_customer_graphq.Service.Password.Strength.{IsStrong, validate_password-ok_iff}
use magento2_customer_graphq.Service.Mapper.{encode_uid, map_address_input, street_lines}
use magento2_customer_graphq.Service.Mapper.Street.{street_lines-map_address_input}
use magento2_customer_graphq.Graph.Resolvers.{
  update_customer_address_v2, delete_customer_address_v2,
}
use magento2_customer_graphq.Service.Addresses.{update_address, delete_address}
use magento2_customer_graphq.Graph.Uid.{encode_uid_resolves}
use magento2_customer_graphq.Tests.Data.{shop_env, shop, password, salt, no_address}

bytes : All IsByte salt
bytes = ground arith

verify_password-hash_of_iff_example :
    (verify_password shop_env (hash_of shop_env salt password) (text "guess") ≡ true) ↔ (
      shop_env.argon2 (text "guess") (salt_bytes shop_env (base64_encode salt)) 2 65536 32
      ≡ shop_env.argon2 password (salt_bytes shop_env (base64_encode salt)) 2 65536 32)
verify_password-hash_of_iff_example =
    verify_password-hash_of_iff shop_env salt password (text "guess") bytes

validate_password-ok_iff_example :
    (validate_password shop_env password shop ≡ (ok tt, shop)) ↔ IsStrong shop_env password
validate_password-ok_iff_example = validate_password-ok_iff shop_env password shop

encode_uid_resolves_example :
    (update_customer_address_v2 shop_env (encode_uid 70) no_address
      ≡ update_address shop_env 70 no_address)
    × (delete_customer_address_v2 shop_env (encode_uid 70) ≡ delete_address shop_env 70)
encode_uid_resolves_example = encode_uid_resolves shop_env 70 no_address (omega arith)

lines_given : no_address.street ≡ some (some (text "Main St 1") ∷ none ∷ [])
lines_given = refl

unbroken : All (Free 10) (map (coalesce []) (some (text "Main St 1") ∷ none ∷ []))
unbroken = ground arith

street_lines-map_address_input_example :
    street_lines (map_address_input no_address 7).street ≡ text "Main St 1" ∷ [] ∷ []
street_lines-map_address_input_example =
    street_lines-map_address_input no_address 7 (some (text "Main St 1")) (none ∷ []) lines_given
      unbroken
