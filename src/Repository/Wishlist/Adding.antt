-- ===== src/Repository/Wishlist/Adding.antt =====
-- `AddItem` of internal/repository/wishlist.go: what it leaves.
use magento2_customer_graphq.Base.{
  ℕ, ◌+◌, ◌≡◌, refl, true, ◌&&◌, Option, none, some, [], arith, ◌==◌, ==_refl, length,
}
use magento2_customer_graphq.Base.Text.{Text}
use magento2_customer_graphq.World.{World, WishlistItemRow, ProductRow}
use magento2_customer_graphq.World.Monad.{ok}
use magento2_customer_graphq.Env.{Env}
use magento2_customer_graphq.Repository.Sql.{
  find, select, find-append_of_none, find-update_where_hit, length-select-append,
  length-select-update_where,
}
use magento2_customer_graphq.Repository.Wishlist.{
  in_wishlist, holds_product, has_item_id, add_item, save, put, touch, new_item, with_qty,
}

-- The rows of a wishlist.
abbrev pub size_of : ℕ → World → ℕ
size_of wishlist w = length (select (in_wishlist wishlist) w.wishlist_items)

-- One more where the product was not in the wishlist.
abbrev pub grown : Option WishlistItemRow → ℕ → ℕ
grown none n = n + 1
grown (some _) n = n

both : (a b : ℕ) → (a == a && (b == b)) ≡ true
both a b = rw (==_refl a) (==_refl b)

module _ (env : Env) where
  -- The product is in the wishlist with the quantity.
  abbrev pub Holds : ℕ → ℕ → ℕ → World → Type 0
  Holds wishlist product qty v =
      (i : WishlistItemRow) × (find (holds_product wishlist product) v.wishlist_items ≡ some i)
      × (i.qty ≡ qty)

  put_step :
      (wishlist store qty product : ℕ) (existing : Option WishlistItemRow) (w : World)
      → w.faults ≡ []
      → find (holds_product wishlist product) w.wishlist_items ≡ existing
      → (v : World) × (put env wishlist store qty product w ≡ (ok tt, v))
        × Holds wishlist product qty v
        × (size_of wishlist v ≡ grown existing (size_of wishlist w))
  unfolding put save touch new_item with_qty
  put_step wishlist store qty product none w q e =
      let i = new_item env w.next_wishlist_item wishlist store product qty in
      (
        (put env wishlist store qty product w).1,
        ground (arith, q, e),
        (
          i,
          ground (
            arith,
            q,
            e,
            find-append_of_none (holds_product wishlist product) w.wishlist_items i e
                (both wishlist product),
          ),
          refl,
        ),
        ground (
          arith,
          q,
          e,
          length-select-append (in_wishlist wishlist) w.wishlist_items i (==_refl wishlist),
        ),
      )
  put_step wishlist store qty product (some i) w q e = (
    (put env wishlist store qty product w).1,
    ground (arith, q, e),
    (
      with_qty env qty i,
      ground (
        arith,
        q,
        e,
        find-update_where_hit (holds_product wishlist product) (has_item_id i.wishlist_item_id)
            (with_qty env qty) w.wishlist_items i (λ s. refl) (==_refl i.wishlist_item_id) e,
      ),
      refl,
    ),
    ground (
      arith,
      q,
      e,
      length-select-update_where (in_wishlist wishlist) (has_item_id i.wishlist_item_id)
          (with_qty env qty) w.wishlist_items (λ s. refl),
    ),
  )

  -- Where no statement fails and the shop has the product: adding it returns, the wishlist then holds
  -- it with the quantity that was given, and is one item longer exactly if the product is new to it.
  pub add_item_takes_effect :
      (wishlist store : ℕ) (sku : Text) (qty : ℕ) (w : World) (p : ProductRow)
      (existing : Option WishlistItemRow)
      → w.faults ≡ []
      → find (λ (p : ProductRow). env.collate p.sku sku) w.products ≡ some p
      → find (holds_product wishlist p.entity_id) w.wishlist_items ≡ existing
      → (v : World) × (add_item env wishlist store sku qty w ≡ (ok tt, v))
        × Holds wishlist p.entity_id qty v
        × (size_of wishlist v ≡ grown existing (size_of wishlist w))
  unfolding add_item
  add_item_takes_effect wishlist store sku qty w p existing q found e =
      let (v, done, holds, size) = put_step wishlist store qty p.entity_id existing w q e in
      (v, ground (arith, q, found, done), holds, size)
