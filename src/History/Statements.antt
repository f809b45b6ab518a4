-- ===== src/History/Statements.antt =====
-- The calls of internal/repository that leave `customer_address_entity` alone.
use magento2_customer_graphq.Base.{ℕ, refl, ap, List, [], ◌∷◌, arith}
use magento2_customer_graphq.Base.Text.{Text}
use magento2_customer_graphq.World.Monad.Frame.{Keeps, >>=-Keeps, >>-Keeps}
use magento2_customer_graphq.World.{World, AddressData, CustomerRow}
use magento2_customer_graphq.World.Monad.{Action, ◌>>=◌, ◌>>◌}
use magento2_customer_graphq.Env.{Env}
use magento2_customer_graphq.Repository.Customer
use magento2_customer_graphq.Repository.Customer.{CustomerData, Assign}
use magento2_customer_graphq.Repository.Address
use magento2_customer_graphq.Repository.Password
use magento2_customer_graphq.Repository.Cache
use magento2_customer_graphq.Repository.Token
use magento2_customer_graphq.Repository.Newsletter
use magento2_customer_graphq.Repository.Orders.Labels
use magento2_customer_graphq.Repository.Orders.Parts
use magento2_customer_graphq.Service.Addresses.Frames.{the_addresses}

-- Addresses and accounts.
abbrev pub the_rows : World → List AddressData × List CustomerRow
the_rows w = (w.addresses, w.customers)

-- What leaves both alone leaves the addresses alone.
abbrev pub in_addresses : {A : Type 0} (m : Action A) → Keeps the_rows m → Keeps the_addresses m
in_addresses m h w = ap (λ p. p.0) (h w)

-- A step of an operation that writes to neither table, and what follows it.
abbrev pub reads :
    {A B : Type 0} (m : Action A) (f : A → Action B)
    → Keeps the_rows m
    → ((a : A) → Keeps the_rows (f a))
    → Keeps the_rows (m >>= f)
reads = >>=-Keeps the_rows

abbrev pub then_reads :
    {B : Type 0} (m : Action (Unit {0})) (k : Action B)
    → Keeps the_rows m
    → Keeps the_rows k
    → Keeps the_rows (m >> k)
then_reads = >>-Keeps the_rows

pub get_by_id-Keeps : (id : ℕ) → Keeps the_rows (Customer.get_by_id id)
unfolding Customer.get_by_id
get_by_id-Keeps id w = ground arith

pub delete-Keeps : (id : ℕ) → Keeps the_addresses (Customer.delete id)
unfolding Customer.delete
delete-Keeps id w = ground arith

pub reset_login_failures-Keeps : (id : ℕ) → Keeps the_addresses (Customer.reset_login_failures id)
unfolding Customer.reset_login_failures
reset_login_failures-Keeps id w = ground arith

pub get_login_failures-Keeps : (id : ℕ) → Keeps the_rows (Customer.get_login_failures id)
unfolding Customer.get_login_failures
get_login_failures-Keeps id w = ground arith

pub website_id_for_store-Keeps : (id : ℕ) → Keeps the_rows (Cache.website_id_for_store id)
unfolding Cache.website_id_for_store Cache.get_store
website_id_for_store-Keeps id w = ground arith

pub get_group-Keeps : (id : ℕ) → Keeps the_rows (Cache.get_group id)
unfolding Cache.get_group
get_group-Keeps id w = ground arith

pub is_subscribed-Keeps : (id : ℕ) → Keeps the_rows (Newsletter.is_subscribed id)
unfolding Newsletter.is_subscribed
is_subscribed-Keeps id w = ground arith

pub get_by_customer_id-Keeps : (id : ℕ) → Keeps the_rows (Address.get_by_customer_id id)
unfolding Address.get_by_customer_id
get_by_customer_id-Keeps id w = ground arith

pub get_status_label-Keeps : (s : Text) → Keeps the_rows (Labels.get_status_label s)
unfolding Labels.get_status_label
get_status_label-Keeps s w = ground arith

module _ (env : Env) where
  pub get_by_email-Keeps :
      (email : Text) (website : ℕ) → Keeps the_rows (Customer.get_by_email env email website)
  unfolding Customer.get_by_email
  get_by_email-Keeps email website w = ground arith

  pub email_exists-Keeps :
      (email : Text) (website : ℕ) → Keeps the_rows (Customer.email_exists env email website)
  unfolding Customer.email_exists
  email_exists-Keeps email website w = ground arith

  pub update-Keeps :
      (id : ℕ) (fields : List Assign) → Keeps the_addresses (Customer.update env id fields)
  unfolding Customer.update
  update-Keeps id [] w = refl
  update-Keeps id (f ∷ fields) w = ground arith

  pub create-Keeps : (c : CustomerData) → Keeps the_addresses (Customer.create env c)
  unfolding Customer.create
  create-Keeps c w = ground arith

  pub increment_login_failure-Keeps :
      (id : ℕ) → Keeps the_addresses (Customer.increment_login_failure env id)
  unfolding Customer.increment_login_failure
  increment_login_failure-Keeps id w = ground arith

  pub hash_password-Keeps : (password : Text) → Keeps the_rows (Password.hash_password env password)
  unfolding Password.hash_password
  hash_password-Keeps password w = ground arith

  pub token-Keeps : (id : ℕ) → Keeps the_rows (Token.create env id)
  unfolding Token.create
  token-Keeps id w = ground arith

  pub revoke_all-Keeps : (id : ℕ) → Keeps the_rows (Token.revoke_all_for_customer env id)
  unfolding Token.revoke_all_for_customer
  revoke_all-Keeps id w = ground arith

  pub subscribe-Keeps :
      (customer store : ℕ) (email : Text)
      → Keeps the_rows (Newsletter.subscribe_customer env customer store email)
  unfolding Newsletter.subscribe_customer
  subscribe-Keeps customer store email w = ground arith

  pub unsubscribe-Keeps :
      (customer : ℕ) → Keeps the_rows (Newsletter.unsubscribe_customer env customer)
  unfolding Newsletter.unsubscribe_customer
  unsubscribe-Keeps customer w = ground arith

  pub comments-Keeps : (ids : List ℕ) → Keeps the_rows (Parts.get_comments env ids)
  unfolding Parts.get_comments
  comments-Keeps [] w = refl
  comments-Keeps (i ∷ is) w = ground arith
