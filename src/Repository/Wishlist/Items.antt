-- ===== src/Repository/Wishlist/Items.antt =====
-- What the statements of internal/repository/wishlist.go do to the items of wishlists.
use magento2_customer_graphq.Base.{
  ℕ, ◌≡◌, ◌≢◌, refl, ap, ◌∙◌, sym, true, false, ◌&&◌, Option, none, some, List, [], ◌∷◌, arith, All,
}
use mathlib.Core.Path.{subst}
use native.Mathlib.Decide.{ℕ_discrete}
use magento2_customer_graphq.Base.Text.{Text}
use magento2_customer_graphq.Go.Int.{ℤ}
use magento2_customer_graphq.Errors.{save_item}
use magento2_customer_graphq.World.{World, WishlistItemRow, ProductRow}
use magento2_customer_graphq.World.Monad.{ok, ◌>>=◌, ◌>>◌, within}
use magento2_customer_graphq.World.Monad.Frame.{Keeps, >>=-holds}
use magento2_customer_graphq.Env.{Env}
use magento2_customer_graphq.Repository.Sql.{
  find, find_sound, find-append_of_some, find-update_where_ne, find-delete_where_kept, All-find,
}
use magento2_customer_graphq.Repository.Wishlist.{
  in_wishlist, holds_product, has_item_id, one_of, put, existing_item, find_product,
  product_or_fail, add_item, remove, save, touch, new_item, with_qty,
}

-- The row of an item.
abbrev pub item : ℕ → World → Option WishlistItemRow
item j w = find (has_item_id j) w.wishlist_items

-- The key of the table: a row is the one that its id finds.
abbrev pub IsKeyed : List WishlistItemRow → Type 0
IsKeyed rows = All (λ i. find (has_item_id i.wishlist_item_id) rows ≡ some i) rows

own_item :
    (wishlist product j : ℕ) (w : World) (r i : WishlistItemRow)
    → IsKeyed w.wishlist_items
    → find (holds_product wishlist product) w.wishlist_items ≡ some i
    → item j w ≡ some r
    → i.wishlist_item_id ≡ j
    → r.wishlist_id ≡ wishlist
own_item wishlist product j w r i keyed e there same =
    let own : find (has_item_id i.wishlist_item_id) w.wishlist_items ≡ some i =
      All-find (λ x. find (has_item_id x.wishlist_item_id) w.wishlist_items ≡ some x)
        (holds_product wishlist product) w.wishlist_items i keyed e in
    let here : item j w ≡ some i = ap (λ n. item n w) (sym same) ∙ own in
    let equal : i ≡ r = ground (arith, here, there) in
    ap (λ (x : WishlistItemRow). x.wishlist_id) (sym equal)
    ∙ ground (arith, find_sound (holds_product wishlist product) w.wishlist_items i e)

module _ (env : Env) where
  touch-items : (wishlist : ℕ) → Keeps (λ w. w.wishlist_items) (touch env wishlist)
  unfolding touch
  touch-items wishlist w = ground arith

  with_qty-other :
      (k j qty : ℕ)
      → k ≢ j
      → (i : WishlistItemRow) → has_item_id k i ≡ true
      → (has_item_id j i ≡ false) × (has_item_id j (with_qty env qty i) ≡ false)
  unfolding with_qty
  with_qty-other k j qty ne i h = (ground arith, ground arith)

  save-foreign :
      (wishlist store product qty j : ℕ) (w : World) (r : WishlistItemRow)
      (existing : Option WishlistItemRow)
      → IsKeyed w.wishlist_items
      → find (holds_product wishlist product) w.wishlist_items ≡ existing
      → item j w ≡ some r
      → r.wishlist_id ≢ wishlist
      → item j (save env wishlist store product qty existing w).1 ≡ some r
  unfolding save
  save-foreign wishlist store product qty j w r none keyed e there foreign = ground (
    arith,
    find-append_of_some (has_item_id j) w.wishlist_items
        (new_item env w.next_wishlist_item wishlist store product qty ∷ []) r,
  )
  save-foreign wishlist store product qty j w r (some i) keyed e there foreign =
      elim (ℕ_discrete i.wishlist_item_id j) [
        | yes same ↦ absurd (foreign (own_item wishlist product j w r i keyed e there same))
        | no ne ↦ ground (
          arith,
          find-update_where_ne (has_item_id j) (has_item_id i.wishlist_item_id) (with_qty env qty)
              w.wishlist_items (with_qty-other i.wishlist_item_id j qty ne),
        )
      ]

  remove-foreign :
      (wishlist : ℕ) (ids : List ℤ) (j : ℕ) (w : World) (r : WishlistItemRow)
      → item j w ≡ some r
      → r.wishlist_id ≢ wishlist
      → item j (remove env wishlist ids w).1 ≡ some r
  unfolding remove touch
  remove-foreign wishlist [] j w r there foreign = there
  remove-foreign wishlist (id ∷ ids) j w r there foreign = ground (
    arith,
    find-delete_where_kept (has_item_id j)
        (λ i. in_wishlist wishlist i && one_of (id ∷ ids) i.wishlist_item_id) w.wishlist_items r,
  )

  existing-items :
      (wishlist product : ℕ) → Keeps (λ w. w.wishlist_items) (existing_item env wishlist product)
  existing-items wishlist product w = ground arith

  existing_found :
      (wishlist product : ℕ) (w : World) {o : Option WishlistItemRow}
      → (existing_item env wishlist product w).0 ≡ ok o
      → find (holds_product wishlist product) w.wishlist_items ≡ o
  existing_found wishlist product w h = ground arith

  put-foreign :
      (wishlist store qty product j : ℕ) (w : World) (r : WishlistItemRow)
      → IsKeyed w.wishlist_items
      → item j w ≡ some r
      → r.wishlist_id ≢ wishlist
      → item j (put env wishlist store qty product w).1 ≡ some r
  unfolding put
  put-foreign wishlist store qty product j w r keyed there foreign =
      let same = existing-items wishlist product w in
      let v = (existing_item env wishlist product w).1 in
      let there' : item j v ≡ some r = ap (find (has_item_id j)) same ∙ there in
      >>=-holds (λ v. item j v ≡ some r) (existing_item env wishlist product)
        (λ existing.
          within save_item (save env wishlist store product qty existing) >> touch env wishlist)
        w there'
        (λ existing seen.
          let found : find (holds_product wishlist product) v.wishlist_items ≡ existing =
            ap (find (holds_product wishlist product)) same
            ∙ existing_found wishlist product w seen in
          let saved =
            save-foreign wishlist store product qty j v r existing (subst IsKeyed (sym same) keyed)
              found there' foreign in
          >>=-holds (λ v. item j v ≡ some r)
            (within save_item (save env wishlist store product qty existing))
            (λ _. touch env wishlist) v saved
            (λ _ _.
              ap (find (has_item_id j))
                (touch-items wishlist (save env wishlist store product qty existing v).1)
              ∙ saved))

  product-items :
      (found : Option ProductRow) → Keeps (λ w. w.wishlist_items) (product_or_fail env found)
  product-items none w = refl
  product-items (some p) w = refl

  find_product-items : (sku : Text) → Keeps (λ w. w.wishlist_items) (find_product env sku)
  find_product-items sku w = ground arith

  add-foreign :
      (wishlist store : ℕ) (sku : Text) (qty j : ℕ) (w : World) (r : WishlistItemRow)
      → IsKeyed w.wishlist_items
      → item j w ≡ some r
      → r.wishlist_id ≢ wishlist
      → item j (add_item env wishlist store sku qty w).1 ≡ some r
  unfolding add_item
  add-foreign wishlist store sku qty j w r keyed there foreign =
      let P = λ (v : World). item j v ≡ some r in
      let v = (find_product env sku w).1 in
      let same = find_product-items sku w in
      let there' : P v = ap (find (has_item_id j)) same ∙ there in
      >>=-holds P (find_product env sku)
        (λ found. product_or_fail env found >>= put env wishlist store qty) w there'
        (λ found _.
          let same' = product-items found v in
          let u = (product_or_fail env found v).1 in
          let there'' : P u = ap (find (has_item_id j)) same' ∙ there' in
          >>=-holds P (product_or_fail env found) (put env wishlist store qty) v there''
            (λ product _.
              put-foreign wishlist store qty product j u r
                (subst IsKeyed (sym (same' ∙ same)) keyed) there'' foreign))

  -- Where the key of the table finds each row, and whatever statements fail: an item of another
  -- wishlist is the same after a product is added to a wishlist or items are removed from it,
  -- whichever ids are given.
  pub foreign_item_kept :
      (wishlist j : ℕ) (w : World) (r : WishlistItemRow)
      → IsKeyed w.wishlist_items
      → item j w ≡ some r
      → r.wishlist_id ≢ wishlist
      → ((store : ℕ) (sku : Text) (qty : ℕ)
          → item j (add_item env wishlist store sku qty w).1 ≡ some r)
        × ((ids : List ℤ) → item j (remove env wishlist ids w).1 ≡ some r)
  foreign_item_kept wishlist j w r keyed there foreign = (
    λ store sku qty. add-foreign wishlist store sku qty j w r keyed there foreign,
    λ ids. remove-foreign wishlist ids j w r there foreign,
  )
