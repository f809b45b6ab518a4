-- ===== src/Repository/Cache.antt =====
-- internal/repository/store.go and internal/repository/group.go: rows behind a map that is filled
-- on first use.
pub mod Coherence
pub mod Reuse
use magento2_customer_graphq.Base.{ℕ, Bool, Option, none, some, List, [], ◌∷◌, ◌==◌, if◌then◌else◌}
use magento2_customer_graphq.Errors.{group_by_id, store_by_id}
use magento2_customer_graphq.World.{StoreData, GroupData}
use magento2_customer_graphq.World.Monad.{
  Action, ◌>>=◌, ◌>>◌, pure, row, gets, modify, within, query, attempt,
}
use magento2_customer_graphq.Repository.Sql.{find}

-- `cache[key]`
unfoldable pub cached {ℓ} : {V : Type ℓ} → ℕ → List (ℕ × V) → Option V
cached k [] = none
cached k ((j, v) ∷ m) = if j == k then some v else cached k m

abbrev pub store_row : ℕ → StoreData → Bool
store_row id s = s.store_id == id

abbrev pub group_row : ℕ → GroupData → Bool
group_row id g = g.group_id == id

load_store : ℕ → Action StoreData
load_store id = within (store_by_id id) do
  found ← query (λ w. find (store_row id) w.stores)
  s ← row found
  modify (λ w. record w { store_cache = (id, s) ∷ w.store_cache })
  pure s

abbrev hit_or : {V : Type 0} → Option V → Action V → Action V
hit_or none load = load
hit_or (some v) load = pure v

-- `StoreRepository.GetByID`
unfoldable pub get_store : ℕ → Action StoreData
unfolding cached load_store
get_store id = do hit ← gets (λ w. cached id w.store_cache); hit_or hit (load_store id)

abbrev website_or_default : Option StoreData → ℕ
website_or_default none = 1
website_or_default (some s) = s.website_id

-- `websiteID, _ := GetWebsiteIDForStore(...)`: 1 where the store is not found.
unfoldable pub website_id_for_store : ℕ → Action ℕ
unfolding get_store
website_id_for_store id = do store ← attempt (get_store id); pure (website_or_default store)

load_group : ℕ → Action GroupData
load_group id = within (group_by_id id) do
  found ← query (λ w. find (group_row id) w.groups)
  g ← row found
  modify (λ w. record w { group_cache = (id, g) ∷ w.group_cache })
  pure g

-- `GroupRepository.GetByID`
unfoldable pub get_group : ℕ → Action GroupData
unfolding cached load_group
get_group id = do hit ← gets (λ w. cached id w.group_cache); hit_or hit (load_group id)
