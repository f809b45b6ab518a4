-- ===== src/Graph/Deprecated.antt =====
-- The deprecated `createCustomer` of graph/schema.resolvers.go, whose password may be missing.
use magento2_customer_graphq.Base.{ℕ, ◌≡◌, ◌<◌, none, arith, Option-cases, Bool-cases, inl, inr}
use magento2_customer_graphq.Errors.{password_too_short}
use magento2_customer_graphq.World.{World}
use magento2_customer_graphq.World.Monad.{ok, err, next_fault}
use magento2_customer_graphq.Env.{Env, minimum_password_length}
use magento2_customer_graphq.Model.{CustomerInput}
use magento2_customer_graphq.Repository.Cache.{website_id_for_store, get_store, cached, store_row}
use magento2_customer_graphq.Repository.Sql.{find}
use magento2_customer_graphq.Service.Password.{validate_password, default_min_password_len}
use magento2_customer_graphq.Service.Accounts
use magento2_customer_graphq.Graph.{create_customer, create_input, deref_str}

website_found : (id : ℕ) (w : World) → (website : ℕ) × ((website_id_for_store id w).0 ≡ ok website)
unfolding website_id_for_store get_store
website_found id w = elim (Option-cases (cached id w.store_cache)) [
  | inr (s, hit) ↦ (s.website_id, ground (arith, hit))
  | inl miss ↦ elim (Bool-cases (next_fault w.faults)) [
    | inl fault ↦ (1, ground (arith, miss, fault))
    | inr fine ↦ elim (Option-cases (find (store_row id) w.stores)) [
      | inl none_there ↦ (1, ground (arith, miss, fine, none_there))
      | inr (s, there) ↦ (s.website_id, ground (arith, miss, fine, there))
    ]
  ]
]

-- A registration by the deprecated mutation without a password is refused as too short a password,
-- wherever the configured length is above 0, and touches nothing but what the lookup of the website
-- touches.
pub create_customer_without_password :
    (env : Env) (input : CustomerInput) (w : World)
    → input.password ≡ none
    → 0 < env.get_int minimum_password_length 0 default_min_password_len
    → create_customer env input w ≡ (
      err (password_too_short (env.get_int minimum_password_length 0 default_min_password_len)),
      (website_id_for_store env.store_id w).1,
    )
unfolding create_customer create_input deref_str Accounts.create_customer validate_password
create_customer_without_password env input w h long =
    let (website, e) = website_found env.store_id w in rw (e, h) (ground (arith, long))
