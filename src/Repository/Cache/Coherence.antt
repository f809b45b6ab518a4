-- ===== src/Repository/Cache/Coherence.antt =====
-- The caches of internal/repository/store.go and internal/repository/group.go against the tables.
use magento2_customer_graphq.Base.{ℕ, ◌≡◌, Option, none, some, List, [], ◌∷◌, arith}
use magento2_customer_graphq.World.{World, StoreData}
use magento2_customer_graphq.World.Monad.{ok}
use magento2_customer_graphq.Repository.Sql.{find}
use magento2_customer_graphq.Repository.Cache.{
  cached, store_row, website_id_for_store, website_or_default,
}

-- What the table says of a store, and what the cache says first.
abbrev or_row : {A : Type 0} → Option A → Option A → Option A
or_row none row = row
or_row (some a) row = some a

abbrev pub known_store : ℕ → World → Option StoreData
known_store id w = or_row (cached id w.store_cache) (find (store_row id) w.stores)

abbrev pub website_of : ℕ → World → ℕ
website_of id w = website_or_default (known_store id w)

-- The cache after the lookup of a store.
abbrev filled :
    ℕ → Option StoreData → Option StoreData → List (ℕ × StoreData) → List (ℕ × StoreData)
filled id none (some s) cache = (id, s) ∷ cache
filled id _ _ cache = cache

abbrev pub store_seen : ℕ → World → World
store_seen id w = record w {
  store_cache = filled id (cached id w.store_cache) (find (store_row id) w.stores) w.store_cache;
}

-- With no fault the website is the store's, and only the cache changes.
pub website_id_for_store_quiet :
    (id : ℕ) (w : World)
    → w.faults ≡ []
    → website_id_for_store id w ≡ (ok (website_of id w), store_seen id w)
unfolding website_id_for_store
website_id_for_store_quiet id w q = ground arith

-- The store that was looked up is known as before.
pub website_of-store_seen : (id : ℕ) (w : World) → website_of id (store_seen id w) ≡ website_of id w
unfolding cached
website_of-store_seen id w = ground arith

-- The lookup of a store touches no customer, whatever fails.
pub website_id_for_store_customers :
    (id : ℕ) (w : World) → (website_id_for_store id w).1.customers ≡ w.customers
unfolding website_id_for_store
website_id_for_store_customers id w = ground arith
