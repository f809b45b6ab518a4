-- ===== src/Tests/Logins.antt =====
-- Logins at the shop of the tests.
use magento2_customer_graphq.Go.Int.{◌+ℤ◌}
use magento2_customer_graphq.Go.Base64.{base64_encode}
use magento2_customer_graphq.Go.Hex.{hex_encode}
use magento2_customer_graphq.Go.Strconv.{itoa, atoi}
use magento2_customer_graphq.Base.{none, ℕ, ◌≢◌, ◌≡◌, refl, true, false, some, [], ◌∷◌, arith}
use magento2_customer_graphq.Base.Text.{text, text_eq, split, has_prefix}
use magento2_customer_graphq.Errors.{auth_failed}
use magento2_customer_graphq.World.Monad.{ok, err}
use magento2_customer_graphq.Repository.Sql.{find, update_where}
use magento2_customer_graphq.Repository.Cache.{cached}
use magento2_customer_graphq.Repository.Token
use magento2_customer_graphq.Repository.Customer.{has_id, no_failures, on_customers}
use magento2_customer_graphq.Repository.Cache.Coherence.{store_seen}
use magento2_customer_graphq.Repository.Password.{argon2_panics, hash_of, verify_password}
use magento2_customer_graphq.World.{World, CustomerRow}
use magento2_customer_graphq.Service.Security.{runs_until, lock_text}
use magento2_customer_graphq.Service.Tokens.{generate_token}
use magento2_customer_graphq.Service.Tokens.Login.{
  IsAccount, MayLogin, matches, generate_token_match, generate_token_takes_effect,
  generate_token-MayLogin,
}
use magento2_customer_graphq.Service.Tokens.BruteForce.{attempts, brute_force_locked, Wrong}
use magento2_customer_graphq.Tests.Data.{shop_env, shop, customer, mail, password}

is_account : IsAccount shop_env (mail 7) shop (customer 7)
unfolding find cached text_eq itoa argon2_panics split hash_of hex_encode base64_encode has_prefix
    atoi
is_account = record {
  quiet = refl;
  by_email = refl;
  by_id = refl;
  active = refl;
  confirmed = refl;
  runs = refl;
}

right : matches shop_env (mail 7) (customer 7) password ≡ true
unfolding verify_password hash_of split hex_encode base64_encode itoa has_prefix text_eq atoi
right = refl

lasting : runs_until shop_env (some (lock_text shop_env)) ≡ true
unfolding ◌+ℤ◌ itoa atoi
lasting = refl

wrong : Wrong shop_env (mail 7) (customer 7) (text "guess" ∷ [])
unfolding verify_password hash_of split hex_encode base64_encode itoa has_prefix text_eq atoi
wrong = (refl, tt)

wrong_guess : matches shop_env (mail 7) (customer 7) (text "guess") ≡ false
wrong_guess = wrong.0

signing : (v : World) → Token.create shop_env 7 v ≡ (ok (text "token"), v)
unfolding Token.create
signing v = refl

logged_in :
    generate_token shop_env (mail 7) password shop
    ≡ (ok (text "token"), on_customers (update_where (has_id 7) no_failures) (store_seen 1 shop))
unfolding Token.create
logged_in =
    generate_token_match shop_env (mail 7) password shop (customer 7) is_account (text "token") refl
      right (λ v. refl)

generate_token-MayLogin_example : MayLogin shop_env (mail 7) password shop
generate_token-MayLogin_example = generate_token-MayLogin shop_env (mail 7) password shop logged_in

brute_force_locked_example :
    (generate_token shop_env
      (mail 7)
      password
      (attempts shop_env (mail 7) (text "guess" ∷ []) shop)).0
    ≡ err auth_failed
brute_force_locked_example =
    brute_force_locked shop_env (mail 7) (text "guess") [] shop (customer 7) password lasting
      is_account wrong (omega arith)

generate_token_takes_effect_example :
    (v : World) × (row : CustomerRow) × (generate_token shop_env (mail 7) password shop
      ≡ (ok (text "token"), v))
    × (find (has_id 7) v.customers ≡ some row)
    × (row.failures_num ≡ some 0)
    × (row.first_failure ≡ none)
    × (row.lock_expires ≡ none)
    × (row.password_hash ≡ (customer 7).password_hash)
    × (row.is_active ≡ (customer 7).is_active)
    × ((j : ℕ) → j ≢ 7 → find (has_id j) v.customers ≡ find (has_id j) shop.customers)
generate_token_takes_effect_example =
    generate_token_takes_effect shop_env (mail 7) password shop (customer 7) is_account
      (text "token") refl right signing
