-- ===== src/Graph/Wishlists/Ownership.antt =====
-- Whose wishlist the mutations of graph/schema.resolvers.go touch.
use magento2_customer_graphq.Base.{ℕ, ◌≡◌, false, some, List, [], arith}
use magento2_customer_graphq.Base.Text.{Text, text_eq}
use magento2_customer_graphq.Go.Strconv.{itoa}
use magento2_customer_graphq.Errors.{wishlist_not_authorized}
use magento2_customer_graphq.World.{World, WishlistRow}
use magento2_customer_graphq.World.Monad.{ok, err}
use magento2_customer_graphq.Env.{Env}
use magento2_customer_graphq.Repository.Sql.{find}
use magento2_customer_graphq.Repository.Wishlist.{get_or_create, of_customer}
use magento2_customer_graphq.Graph.Wishlists.{
  WishlistItemInput, own_wishlist, add_products_to_wishlist, remove_products_from_wishlist,
}

module _ (env : Env) where
  get_or_create_quiet :
      (customer : ℕ) (w : World) (r : WishlistRow)
      → w.faults ≡ []
      → find (of_customer customer) w.wishlists ≡ some r
      → get_or_create env customer w ≡ (ok r.wishlist_id, w)
  unfolding get_or_create
  get_or_create_quiet customer w r q e = ground arith

  -- Where no statement fails and the caller has a wishlist: a mutation that names another wishlist, or
  -- spells the id otherwise than in decimal digits, is refused, and changes nothing.
  pub other_wishlist_refused :
      (wishlist_id : Text) (w : World) (r : WishlistRow)
      → w.faults ≡ []
      → find (of_customer env.customer_id) w.wishlists ≡ some r
      → text_eq wishlist_id (itoa r.wishlist_id) ≡ false
      → ((items : List WishlistItemInput)
          → add_products_to_wishlist env wishlist_id items w ≡ (err wishlist_not_authorized, w))
        × ((item_ids : List Text)
            → remove_products_from_wishlist env wishlist_id item_ids w
              ≡ (err wishlist_not_authorized, w))
  unfolding add_products_to_wishlist remove_products_from_wishlist own_wishlist
  other_wishlist_refused wishlist_id w r q e other = (
    λ items. ground (arith, get_or_create_quiet env.customer_id w r q e),
    λ item_ids. ground (arith, get_or_create_quiet env.customer_id w r q e),
  )
