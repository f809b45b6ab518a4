-- ===== src/Tests/History.antt =====
-- A history of requests at the shop: customer 8 and a visitor try to get at an address of
-- customer 7.
use magento2_customer_graphq.Base.{
  none, Bool-cases, inl, inr, ◌==◌, ◌≡◌, refl, true, false, some, [], ◌∷◌, arith,
}
use magento2_customer_graphq.Go.Strconv.{itoa}
use magento2_customer_graphq.Base.Text.{text_eq, text}
use magento2_customer_graphq.World.{World}
use magento2_customer_graphq.Repository.Sql.{find}
use magento2_customer_graphq.Service.Mapper.{encode_uid}
use magento2_customer_graphq.Service.Addresses.Ownership.{shows}
use magento2_customer_graphq.Graph.Requests.{
  handle, delete_customer_address_v2, update_customer_address, generate_customer_token,
  reset_password, delete_customer,
}
use magento2_customer_graphq.History.{request, weather, History, start, ◌then◌}
use magento2_customer_graphq.History.Addresses.{NotFrom, address_kept_in_history}
use magento2_customer_graphq.History.Passwords.{Has}
use magento2_customer_graphq.History.Takeover.{TokenUnknown}
use magento2_customer_graphq.History.Credentials.{IsOutside, password_kept_in_history}
use magento2_customer_graphq.Repository.Password.{hash_of}
use magento2_customer_graphq.Tests.Data.{
  shop_env, salt, password, customer, env_of, shop, address, mail, no_address,
}

abbrev calm_shop : World
calm_shop = record shop { faults = false ∷ true ∷ [] }

abbrev after_delete : World
after_delete = (handle (env_of 8) (delete_customer_address_v2 (encode_uid 70)) calm_shop).1

abbrev after_update : World
after_update = (handle (env_of 8) (update_customer_address 70 no_address) after_delete).1

abbrev after_guess : World
after_guess = (handle (env_of 0) (generate_customer_token (mail 7) (text "guess")) after_update).1

abbrev others_try : History (NotFrom 7) shop after_guess
others_try =
    weather (false ∷ true ∷ []) shop
    then request (env_of 8) (delete_customer_address_v2 (encode_uid 70)) calm_shop (omega arith)
    then request (env_of 8) (update_customer_address 70 no_address) after_delete (omega arith)
    then request (env_of 0) (generate_customer_token (mail 7) (text "guess")) after_update
        (omega arith)
    then start after_guess

there : shows 70 shop ≡ some (address 70 7)
unfolding find
there = refl

address_kept_in_history_example : shows 70 after_guess ≡ some (address 70 7)
address_kept_in_history_example =
    address_kept_in_history 70 (address 70 7) shop after_guess others_try there

not_the_token : TokenUnknown 7 (env_of 0) (mail 7) (text "guess") shop
unfolding find text_eq itoa
not_the_token website r found id = elim (Bool-cases (1 == website)) [
  | inl e ↦ let same : some (customer 7) ≡ some r = rw e at found in ground (arith, same)
  | inr e ↦ absurd (let none_found : none ≡ some r = rw e at found in cc)
]

abbrev after_reset : World
after_reset =
    (handle (env_of 0) (reset_password (mail 7) (text "guess") (text "N3w passw0rd")) shop).1

abbrev after_login : World
after_login = (handle (env_of 0) (generate_customer_token (mail 7) (text "guess")) after_reset).1

abbrev after_leaving : World
after_leaving = (handle (env_of 8) delete_customer after_login).1

abbrev others_guess : History (IsOutside 7) shop after_leaving
others_guess =
    request (env_of 0) (reset_password (mail 7) (text "guess") (text "N3w passw0rd")) shop
      (omega arith, not_the_token)
    then request (env_of 0) (generate_customer_token (mail 7) (text "guess")) after_reset
        (omega arith, tt)
    then request (env_of 8) delete_customer after_login (omega arith, tt)
    then start after_leaving

stored : Has 7 (some (hash_of shop_env salt password)) shop
unfolding find
stored = refl

password_kept_in_history_example : Has 7 (some (hash_of shop_env salt password)) after_leaving
password_kept_in_history_example =
    password_kept_in_history 7 (some (hash_of shop_env salt password)) shop after_leaving
      others_guess stored
