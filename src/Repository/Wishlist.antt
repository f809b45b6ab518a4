-- ===== src/Repository/Wishlist.antt =====
-- internal/repository/wishlist.go: the rows of `wishlist` and `wishlist_item`.
pub mod Items
pub mod Adding
pub mod Reading
use magento2_customer_graphq.Base.{
  ℕ, ◌+◌, Bool, false, true, not, ◌&&◌, ◌||◌, Option, none, some, List, [], ◌∷◌, ◌++◌, ◌==◌, length,
}
use magento2_customer_graphq.Base.Text.{Text}
use magento2_customer_graphq.Go.Int.{ℤ, pos, negsuc}
use magento2_customer_graphq.Go.Hex.{hex_encode}
use magento2_customer_graphq.Errors.{
  get_wishlist, create_wishlist, count_wishlist_items, lookup_product, save_item, remove_items,
  product_not_found,
}
use magento2_customer_graphq.World.{WishlistRow, WishlistItemRow, ProductRow}
use magento2_customer_graphq.World.Monad.{
  Action, ◌>>=◌, ◌>>◌, pure, fail, within, query, exec, gets, statement, ignore,
}
use magento2_customer_graphq.Env.{Env}
use magento2_customer_graphq.Repository.Sql.{find, select, update_where, delete_where}

abbrev pub of_customer : ℕ → WishlistRow → Bool
of_customer customer r = r.customer_id == customer

abbrev pub in_wishlist : ℕ → WishlistItemRow → Bool
in_wishlist wishlist i = i.wishlist_id == wishlist

-- `WHERE wishlist_id = ? AND product_id = ?`
abbrev pub holds_product : ℕ → ℕ → WishlistItemRow → Bool
holds_product wishlist product i = i.wishlist_id == wishlist && (i.product_id == product)

abbrev pub has_item_id : ℕ → WishlistItemRow → Bool
has_item_id id i = i.wishlist_item_id == id

-- `wishlist_item_id IN (...)`
abbrev pub same_id : ℤ → ℕ → Bool
same_id (pos n) id = n == id
same_id (negsuc n) id = false

unfoldable pub one_of : List ℤ → ℕ → Bool
one_of [] id = false
one_of (i ∷ ids) id = same_id i id || one_of ids id

unfoldable pub count_items : ℕ → Action ℕ
count_items wishlist =
    within count_wishlist_items
      (query (λ w. length (select (in_wishlist wishlist) w.wishlist_items)))

module _ (env : Env) where
  abbrev now_text : Text
  now_text = env.format_time env.now

  -- The row that the INSERT statement of `GetOrCreate` adds.
  unfoldable pub new_wishlist : ℕ → ℕ → WishlistRow
  new_wishlist id customer = record {
    wishlist_id = id;
    customer_id = customer;
    sharing_code = hex_encode env.sharing_bytes;
    updated_at = now_text;
  }

  unfoldable pub insert_wishlist : ℕ → Action ℕ
  unfolding new_wishlist
  insert_wishlist customer = within create_wishlist do
    statement
    λ w.
        gets (λ _. w.next_wishlist)
          (record w {
            wishlists = w.wishlists ++ new_wishlist w.next_wishlist customer ∷ [];
            next_wishlist = w.next_wishlist + 1;
          })

  abbrev or_insert : ℕ → Option WishlistRow → Action ℕ
  or_insert customer none = insert_wishlist customer
  or_insert customer (some r) = pure r.wishlist_id

  unfoldable pub get_or_create : ℕ → Action ℕ
  unfolding insert_wishlist
  get_or_create customer = do
    found ← within get_wishlist (query (λ w. find (of_customer customer) w.wishlists))
    or_insert customer found

  -- `UPDATE wishlist SET updated_at = NOW() WHERE wishlist_id = ?`, whose error is dropped.
  unfoldable pub touch : ℕ → Action (Unit {0})
  touch wishlist = ignore (
      exec (λ w. record w {
        wishlists =
            update_where (λ (r : WishlistRow). r.wishlist_id == wishlist)
              (λ r. record r { updated_at = now_text }) w.wishlists;
      }))

  unfoldable pub new_item : ℕ → ℕ → ℕ → ℕ → ℕ → WishlistItemRow
  new_item id wishlist store product qty = record {
    wishlist_item_id = id;
    wishlist_id = wishlist;
    product_id = product;
    store_id = store;
    added_at = now_text;
    qty = qty;
  }

  unfoldable pub with_qty : ℕ → WishlistItemRow → WishlistItemRow
  with_qty qty i = record i { qty = qty; added_at = now_text }

  -- The row of the product is updated, or added.
  unfoldable pub save : ℕ → ℕ → ℕ → ℕ → Option WishlistItemRow → Action (Unit {0})
  unfolding new_item with_qty
  save wishlist store product qty (some i) = exec (λ w. record w {
    wishlist_items = update_where (has_item_id i.wishlist_item_id) (with_qty qty) w.wishlist_items;
  })
  save wishlist store product qty none = exec (λ w. record w {
    wishlist_items =
        w.wishlist_items ++ new_item w.next_wishlist_item wishlist store product qty ∷ [];
    next_wishlist_item = w.next_wishlist_item + 1;
  })

  abbrev pub product_or_fail : Option ProductRow → Action ℕ
  product_or_fail none = fail product_not_found
  product_or_fail (some p) = pure p.entity_id

  abbrev pub existing_item : ℕ → ℕ → Action (Option WishlistItemRow)
  existing_item wishlist product =
      within save_item (query (λ w. find (holds_product wishlist product) w.wishlist_items))

  -- For a product that was found.
  unfoldable pub put : ℕ → ℕ → ℕ → ℕ → Action (Unit {0})
  unfolding save touch
  put wishlist store qty product = do
    existing ← existing_item wishlist product
    within save_item (save wishlist store product qty existing)
    touch wishlist

  abbrev pub find_product : Text → Action (Option ProductRow)
  find_product sku =
      within lookup_product
        (query (λ w. find (λ (p : ProductRow). env.collate p.sku sku) w.products))

  unfoldable pub add_item : ℕ → ℕ → Text → ℕ → Action (Unit {0})
  unfolding put
  add_item wishlist store sku qty = do
    found ← find_product sku
    product ← product_or_fail found
    put wishlist store qty product

  unfoldable pub remove : ℕ → List ℤ → Action (Unit {0})
  unfolding touch one_of
  remove wishlist [] = pure tt
  remove wishlist (id ∷ ids) = do
    within remove_items (
        exec (λ w. record w {
          wishlist_items =
              delete_where (λ i. in_wishlist wishlist i && one_of (id ∷ ids) i.wishlist_item_id)
                w.wishlist_items;
        }))
    touch wishlist
