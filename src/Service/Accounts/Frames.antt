-- ===== src/Service/Accounts/Frames.antt =====
-- The steps of a registration that leave the table of customers alone.
use magento2_customer_graphq.Base.{ℕ, false, List, arith, ◌==◌}
use magento2_customer_graphq.Base.Text.{Text}
use magento2_customer_graphq.World.{World, CustomerRow}
use magento2_customer_graphq.World.Monad.{ignore}
use magento2_customer_graphq.World.Monad.Frame.{Keeps, when-Keeps}
use magento2_customer_graphq.Env.{Env, newsletter_active}
use magento2_customer_graphq.Model.{CustomerCreateInput}
use magento2_customer_graphq.Repository.Customer.{CustomerData, email_exists, get_by_id}
use magento2_customer_graphq.Repository.Password.{hash_password}
use magento2_customer_graphq.Repository.Cache.{get_group}
use magento2_customer_graphq.Repository.Newsletter.{subscribe_customer}
use magento2_customer_graphq.Service.Mapper.{map_customer, map_group}
use magento2_customer_graphq.Service.Password.{validate_password}
use magento2_customer_graphq.Service.Accounts.{subscribe_new, true_or}

abbrev pub the_customers : World → List CustomerRow
the_customers w = w.customers

pub get_by_id-Keeps : (id : ℕ) → Keeps the_customers (get_by_id id)
unfolding get_by_id
get_by_id-Keeps id w = ground arith

pub map_customer-Keeps : (c : CustomerData) → Keeps the_customers (map_customer c)
unfolding map_customer map_group get_group
map_customer-Keeps c w = ground arith

module _ (env : Env) where
  pub validate_password-Keeps :
      (password : Text) → Keeps the_customers (validate_password env password)
  unfolding validate_password
  validate_password-Keeps password w = ground arith

  pub email_exists-Keeps :
      (email : Text) (website : ℕ) → Keeps the_customers (email_exists env email website)
  unfolding email_exists
  email_exists-Keeps email website w = ground arith

  pub hash_password-Keeps : (password : Text) → Keeps the_customers (hash_password env password)
  unfolding hash_password
  hash_password-Keeps password w = ground arith

  subscribed-Keeps :
      (id : ℕ) (email : Text)
      → Keeps the_customers (ignore (subscribe_customer env id env.store_id email))
  unfolding subscribe_customer
  subscribed-Keeps id email w = ground arith

  pub subscribe_new-Keeps :
      (input : CustomerCreateInput) (id : ℕ) → Keeps the_customers (subscribe_new env input id)
  unfolding subscribe_new
  subscribe_new-Keeps input id = when-Keeps the_customers (true_or false input.is_subscribed) _ (
      when-Keeps the_customers (env.get_int newsletter_active env.store_id 1 == 1) _
        (subscribed-Keeps id input.email))
