-- ===== src/Tests/Resets.antt =====
-- Resets of a password at the shop of the tests.
use magento2_customer_graphq.Repository.Cache.{cached}
use magento2_customer_graphq.Service.Password.{class_of}
use magento2_customer_graphq.Go.Utf8.{runes}
use magento2_customer_graphq.Go.Strings.{index, last_index}
use magento2_customer_graphq.Base.{ℕ, length, ◌+◌, ◌≡◌, refl, true, arith, All}
use magento2_customer_graphq.Base.Text.{Text, text, text_eq}
use magento2_customer_graphq.Go.Strconv.{IsByte, itoa}
use magento2_customer_graphq.Errors.{password_token_bad}
use magento2_customer_graphq.World.{World, CustomerRow}
use magento2_customer_graphq.World.Monad.{ok, err}
use magento2_customer_graphq.Repository.Customer.{has_email}
use magento2_customer_graphq.Repository.Sql.{find}
use magento2_customer_graphq.Repository.Cache.Coherence.{store_seen, website_of}
use magento2_customer_graphq.Service.Security.{is_valid_email}
use magento2_customer_graphq.Service.Password.Strength.{IsStrong}
use magento2_customer_graphq.Service.Reset.{
  reset_password, request_password_reset_email, is_expired,
}
use magento2_customer_graphq.Repository.Password.{hash_of, hash_password}
use magento2_customer_graphq.Service.Reset.Guard.{MayReset, reset_password-MayReset}
use magento2_customer_graphq.Service.Reset.SingleUse.{
  IsReset, after_reset, reset_password_quiet, reset_password_takes_effect, reset_password_once,
}
use magento2_customer_graphq.Service.Reset.Requests.{request_answers, answer, messages}
use magento2_customer_graphq.Tests.Data.{shop_env, shop, customer, mail, salt, password}

abbrev new : Text
new = text "N3w passw0rd"

valid : is_valid_email (mail 7) ≡ true
unfolding is_valid_email index itoa last_index
valid = refl

strong : IsStrong shop_env new
unfolding runes class_of
strong = (omega arith, omega arith, omega arith)

may : MayReset shop_env (mail 7) (text "key") new (website_of 1 shop) shop (customer 7)
unfolding find text_eq itoa is_expired cached
may = record { found = refl; unlocked = refl; held = refl; fresh = refl; strong = strong }

bytes : All IsByte salt
bytes = ground arith

was_reset :
    reset_password shop_env (mail 7) (text "key") new shop
    ≡ (ok true, after_reset shop_env 7 (hash_of shop_env salt new) (store_seen 1 shop))
unfolding cached find hash_password
was_reset =
    reset_password_quiet shop_env (mail 7) (text "key") new shop (customer 7)
      (hash_of shop_env salt new) refl valid may (λ v. refl)

reset_password-MayReset_example :
    (website : ℕ) × (row : CustomerRow) × MayReset shop_env
      (mail 7)
      (text "key")
      new
      website
      shop
      row
reset_password-MayReset_example =
    reset_password-MayReset shop_env (mail 7) (text "key") new shop was_reset

reset_password_takes_effect_example :
    ((reset_password shop_env (mail 7) (text "key") new shop).0 ≡ ok true)
    × IsReset shop_env
        (mail 7)
        (text "key")
        new
        salt
        shop
        (customer 7)
        refl
        valid
        may
        refl
        bytes
        (reset_password shop_env (mail 7) (text "key") new shop).1
reset_password_takes_effect_example =
    reset_password_takes_effect shop_env (mail 7) (text "key") new salt shop (customer 7) refl valid
      may refl bytes

abbrev after : World
after = (reset_password shop_env (mail 7) (text "key") new shop).1

reset_password_once_example :
    ((reset_password shop_env (mail 7) (text "key") password after).0 ≡ err password_token_bad)
    × ((reset_password shop_env (mail 7) (text "key") password after).1.customers ≡ after.customers)
reset_password_once_example =
    reset_password_once shop_env (mail 7) (text "key") new salt shop (customer 7) refl valid may
      refl bytes (text "key") password

valid_locked : is_valid_email (mail 9) ≡ true
unfolding is_valid_email index itoa last_index
valid_locked = refl

request_answers_example :
    let row = find (has_email shop_env (mail 9) (website_of 1 shop)) shop.customers in
    ((request_password_reset_email shop_env (mail 9) shop).0 ≡ answer shop_env row)
    × (length (request_password_reset_email shop_env (mail 9) shop).1.outbox
        ≡ messages shop_env row + length shop.outbox)
request_answers_example = request_answers shop_env (mail 9) shop refl valid_locked
