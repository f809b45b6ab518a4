-- ===== src/History/Wishlists.antt =====
-- Wishlists leave `customer_address_entity` and `customer_entity` alone.
use magento2_customer_graphq.Base.{ℕ, refl, not, Option, none, some, List, [], ◌∷◌, arith, ◌==◌}
use magento2_customer_graphq.Base.Text.{Text, text_eq}
use magento2_customer_graphq.Go.Int.{ℤ}
use magento2_customer_graphq.Go.Strconv.{itoa}
use magento2_customer_graphq.Errors.{wishlist_not_authorized}
use magento2_customer_graphq.World.{ProductRow}
use magento2_customer_graphq.World.Monad.{fail_if, caught}
use magento2_customer_graphq.World.Monad.Frame.{Keeps}
use magento2_customer_graphq.Env.{Env}
use magento2_customer_graphq.Repository.Wishlist.{
  get_or_create, insert_wishlist, count_items, add_item, put, save, touch, remove, find_product,
  product_or_fail,
}
use magento2_customer_graphq.History.Statements.{the_rows, reads, then_reads}
use magento2_customer_graphq.Graph.Wishlists.{
  own_wishlist, add_each, WishlistItemInput, quantity_or_one, add_products_to_wishlist,
  remove_products_from_wishlist, read_ids,
}
use magento2_customer_graphq.Repository.Wishlist.Reading.{get_items}
use magento2_customer_graphq.Graph.Wishlists.Listing.{items_v2, above_zero_or}
use magento2_customer_graphq.Graph.Resolvers.{wishlist}

count_items-Keeps : (id : ℕ) → Keeps the_rows (count_items id)
unfolding count_items
count_items-Keeps id w = ground arith

module _ (env : Env) where
  get_or_create-Keeps : (customer : ℕ) → Keeps the_rows (get_or_create env customer)
  unfolding get_or_create insert_wishlist
  get_or_create-Keeps customer w = ground arith

  put-Keeps : (own store qty product : ℕ) → Keeps the_rows (put env own store qty product)
  unfolding put save touch
  put-Keeps own store qty product w = ground arith

  product_or_fail-Keeps : (found : Option ProductRow) → Keeps the_rows (product_or_fail env found)
  product_or_fail-Keeps none = λ w. refl
  product_or_fail-Keeps (some p) = λ w. refl

  add_item-Keeps :
      (own store : ℕ) (sku : Text) (qty : ℕ) → Keeps the_rows (add_item env own store sku qty)
  unfolding add_item
  add_item-Keeps own store sku qty =
      reads (find_product env sku) _ (λ w. ground arith)
        λ found.
          reads (product_or_fail env found) _ (product_or_fail-Keeps found)
            λ product. put-Keeps own store qty product

  remove-Keeps : (own : ℕ) (ids : List ℤ) → Keeps the_rows (remove env own ids)
  unfolding remove touch
  remove-Keeps own [] = λ w. refl
  remove-Keeps own (i ∷ ids) = λ w. ground arith

  own_wishlist-Keeps : (id : Text) → Keeps the_rows (own_wishlist env id)
  unfolding own_wishlist
  own_wishlist-Keeps id =
      then_reads (fail_if (env.customer_id == 0) wishlist_not_authorized) _ (λ w. refl)
        (reads (get_or_create env env.customer_id) _ (get_or_create-Keeps env.customer_id) λ own.
          then_reads (fail_if (not (text_eq id (itoa own))) wishlist_not_authorized) _ (λ w. refl)
            (λ w. refl))

  add_each-Keeps : (own : ℕ) (its : List WishlistItemInput) → Keeps the_rows (add_each env own its)
  unfolding add_each
  add_each-Keeps own [] = λ w. refl
  add_each-Keeps own (i ∷ its) =
      reads (caught (add_item env own env.store_id i.sku (quantity_or_one i.quantity))) _
        (add_item-Keeps own env.store_id i.sku (quantity_or_one i.quantity))
        λ e. reads (add_each env own its) _ (add_each-Keeps own its) λ es w. refl

  pub add_products_to_wishlist-Keeps :
      (id : Text) (its : List WishlistItemInput)
      → Keeps the_rows (add_products_to_wishlist env id its)
  unfolding add_products_to_wishlist
  add_products_to_wishlist-Keeps id its =
      reads (own_wishlist env id) _ (own_wishlist-Keeps id) λ own.
        reads (add_each env own its) _ (add_each-Keeps own its)
          λ es. reads (count_items own) _ (count_items-Keeps own) λ n w. refl

  pub remove_products_from_wishlist-Keeps :
      (id : Text) (ids : List Text) → Keeps the_rows (remove_products_from_wishlist env id ids)
  unfolding remove_products_from_wishlist
  remove_products_from_wishlist-Keeps id ids =
      reads (own_wishlist env id) _ (own_wishlist-Keeps id) λ own.
        then_reads (remove env own (read_ids ids).0) _ (remove-Keeps own (read_ids ids).0)
          (reads (count_items own) _ (count_items-Keeps own) λ n w. refl)

  pub wishlist-Keeps : (obj : ℕ) → Keeps the_rows (wishlist env obj)
  unfolding wishlist
  wishlist-Keeps obj =
      reads (get_or_create env obj) _ (get_or_create-Keeps obj)
        λ id. reads (count_items id) _ (count_items-Keeps id) λ n w. refl

  get_items-Keeps : (id size page : ℕ) → Keeps the_rows (get_items env id size page)
  unfolding get_items
  get_items-Keeps id size page w = ground arith

  pub items_v2-Keeps :
      (obj : ℕ) (size page : Option ℕ) → Keeps the_rows (items_v2 env obj size page)
  unfolding items_v2
  items_v2-Keeps obj size page =
      reads (get_items env obj (above_zero_or 20 size) (above_zero_or 1 page)) _
        (get_items-Keeps obj (above_zero_or 20 size) (above_zero_or 1 page))
        λ its. reads (count_items obj) _ (count_items-Keeps obj) λ n w. refl
