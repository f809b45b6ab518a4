-- ===== src/Tests/Accounts.antt =====
-- Accounts of the shop of the tests.
use magento2_customer_graphq.Go.Utf8.{runes}
use magento2_customer_graphq.Service.Password.{
  validate_password, class_count, scan_classes, class_of,
}
use magento2_customer_graphq.Go.Base64.{base64_encode}
use magento2_customer_graphq.Go.Hex.{hex_encode}
use magento2_customer_graphq.Go.Strconv.{itoa, atoi}
use magento2_customer_graphq.Repository.Sql.{find, update_where, select}
use magento2_customer_graphq.Repository.Customer.{
  get_by_id, assign, assign_all, update, updated, email_exists,
}
use magento2_customer_graphq.Repository.Token.{revoke_all_for_customer, revoke}
use magento2_customer_graphq.Base.{◌⊎◌, All, ℕ, ◌≡◌, refl, true, some, arith}
use magento2_customer_graphq.Base.Text.{Text, text, text_eq, split, has_prefix}
use magento2_customer_graphq.World.{World, CustomerRow}
use magento2_customer_graphq.World.Monad.{ok}
use magento2_customer_graphq.Model.{
  Customer, CustomerGroup, CustomerUpdateInput, CustomerAddressInput,
}
use magento2_customer_graphq.Repository.Cache.{get_store, get_group, website_id_for_store, cached}
use magento2_customer_graphq.Repository.Customer.{scan_customer}
use magento2_customer_graphq.Repository.Password.{
  argon2_panics, hash_of, verify_password, hash_password, mage_sha256_hash, verify_argon2id,
  verify_version,
}
use magento2_customer_graphq.Service.Mapper.{
  customer_output, encode_uid, format_date, format_date_time, map_customer, map_group, replace_t,
}
use magento2_customer_graphq.Service.Accounts.{
  create_customer, update_customer, change_password, update_email, delete_customer,
  replace_password, replace_email,
}
use magento2_customer_graphq.Service.Accounts.Foreign.{foreign_account_kept}
use magento2_customer_graphq.Service.Addresses.Accounts.{foreign_account_kept_by_addresses}
use magento2_customer_graphq.Service.Accounts.Password.{IsChanged, change_password_takes_effect}
use magento2_customer_graphq.Repository.Password.RoundTrip.{verify_password-hash_of_iff}
use magento2_customer_graphq.Go.Strconv.{IsByte}
use magento2_customer_graphq.Service.Accounts.Unique.{IsUnique, create_customer-IsUnique}
use magento2_customer_graphq.Service.Accounts.Deletion.{account}
use magento2_customer_graphq.Service.Accounts.Gate.{
  Refused, KnowsPassword, update_email-KnowsPassword, change_password-KnowsPassword,
}
use magento2_customer_graphq.Service.Password.Strength.{IsStrong}
use magento2_customer_graphq.Service.Addresses.{create_address, update_address, delete_address}
use magento2_customer_graphq.Tests.Data.{shop_env, shop, customer, password, salt, registration}

unique : IsUnique shop_env shop.customers
unfolding text_eq itoa
unique = ((refl, (refl, tt)), ((refl, tt), (tt, tt)))

create_customer-IsUnique_example :
    IsUnique shop_env (create_customer shop_env registration shop).1.customers
create_customer-IsUnique_example = create_customer-IsUnique shop_env registration shop unique

foreign_account_kept_example :
    ((input : CustomerUpdateInput)
      → account 8 (update_customer shop_env input shop).1 ≡ account 8 shop)
    × ((current new : Text)
        → account 8 (change_password shop_env current new shop).1 ≡ account 8 shop)
    × ((email password : Text)
        → account 8 (update_email shop_env email password shop).1 ≡ account 8 shop)
    × (account 8 (delete_customer shop_env shop).1 ≡ account 8 shop)
foreign_account_kept_example = foreign_account_kept shop_env 8 shop (omega arith)

foreign_account_kept_by_addresses_example :
    ((input : CustomerAddressInput)
      → account 8 (create_address shop_env input shop).1 ≡ account 8 shop)
    × ((id : ℕ) (input : CustomerAddressInput)
        → account 8 (update_address shop_env id input shop).1 ≡ account 8 shop)
    × ((id : ℕ) → account 8 (delete_address shop_env id shop).1 ≡ account 8 shop)
foreign_account_kept_by_addresses_example =
    foreign_account_kept_by_addresses shop_env 8 shop (omega arith)

abbrev new : Text
new = text "N3w passw0rd"

abbrev group : CustomerGroup
group = record { uid = text "MQ=="; name = text "General" }

-- The rows of the customer 7 after the two changes.
abbrev with_password : CustomerRow
with_password = record (customer 7) {
  password_hash = some (hash_of shop_env salt new);
  updated_at = text "1000000000";
}

abbrev with_email : CustomerRow
with_email = record (customer 7) { email = text "c@shop.example"; updated_at = text "1000000000" }

changed_password : change_password shop_env password new shop ≡ (
  ok (customer_output (scan_customer with_password) (some group)),
  (change_password shop_env password new shop).1,
)
unfolding argon2_panics change_password get_by_id find verify_password split scan_customer hash_of
    hex_encode base64_encode itoa has_prefix text_eq validate_password class_count scan_classes
    runes class_of atoi cached get_group assign assign_all update updated hash_password
    mage_sha256_hash verify_argon2id verify_version update_where revoke revoke_all_for_customer
    replace_password customer_output encode_uid format_date format_date_time map_customer map_group
    replace_t
changed_password = refl

changed_email : update_email shop_env (text "c@shop.example") password shop ≡ (
  ok (customer_output (scan_customer with_email) (some group)),
  (update_email shop_env (text "c@shop.example") password shop).1,
)
unfolding argon2_panics update_email get_by_id find verify_password split scan_customer hash_of
    hex_encode base64_encode itoa has_prefix text_eq website_id_for_store email_exists select update
    update_where atoi cached get_group get_store assign assign_all updated mage_sha256_hash
    verify_argon2id verify_version replace_email customer_output encode_uid format_date
    format_date_time map_customer map_group replace_t
changed_email = refl

change_password-KnowsPassword_example :
    Refused shop_env (change_password shop_env password new) shop
    ⊎ (KnowsPassword shop_env password shop × IsStrong shop_env new)
change_password-KnowsPassword_example = change_password-KnowsPassword shop_env password new shop

update_email-KnowsPassword_example :
    Refused shop_env (update_email shop_env (text "c@shop.example") password) shop
    ⊎ KnowsPassword shop_env password shop
update_email-KnowsPassword_example =
    update_email-KnowsPassword shop_env (text "c@shop.example") password shop

caller : account 7 shop ≡ some (customer 7)
unfolding find
caller = refl

bytes : All IsByte salt
bytes = ground arith

right : verify_password shop_env (hash_of shop_env salt password) password ≡ true
right = (verify_password-hash_of_iff shop_env salt password password bytes).1 refl

strong : IsStrong shop_env new
unfolding runes class_of
strong = (omega arith, omega arith, omega arith)

change_password_takes_effect_example :
    (c : Customer) × (v : World) × (change_password shop_env password new shop ≡ (ok c, v))
    × IsChanged shop_env new v
change_password_takes_effect_example =
    change_password_takes_effect shop_env password new salt shop (customer 7) refl (omega arith)
      caller right strong refl bytes
