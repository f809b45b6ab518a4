-- ===== src/Repository/Cache/Reuse.antt =====
-- The caches of internal/repository/store.go and internal/repository/group.go answer the second time.
use magento2_customer_graphq.Base.{ℕ, ◌≡◌, arith, ==_refl}
use magento2_customer_graphq.World.{World, StoreData, GroupData}
use magento2_customer_graphq.World.Monad.{ok}
use magento2_customer_graphq.Repository.Cache.{get_store, get_group, cached}

-- A store that was returned once is returned again, the same, and no statement is sent: neither a
-- table, nor a cache, nor what is to fail next changes.
pub get_store-again :
    (id : ℕ) (w : World) {s : StoreData} {w' : World}
    → get_store id w ≡ (ok s, w')
    → get_store id w' ≡ (ok s, w')
unfolding get_store cached
get_store-again id w h = ground (arith, ==_refl id)

-- A customer group that was returned once is returned again, the same, and no statement is sent.
pub get_group-again :
    (id : ℕ) (w : World) {g : GroupData} {w' : World}
    → get_group id w ≡ (ok g, w')
    → get_group id w' ≡ (ok g, w')
unfolding get_group cached
get_group-again id w h = ground (arith, ==_refl id)
