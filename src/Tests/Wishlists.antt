-- ===== src/Tests/Wishlists.antt =====
-- The wishlists of the shop of the tests.
use magento2_customer_graphq.Base.{ℕ, ◌≡◌, refl, false, some, List, [], arith}
use magento2_customer_graphq.Base.Text.{Text, text, text_eq}
use magento2_customer_graphq.Go.Int.{ℤ}
use magento2_customer_graphq.Go.Strconv.{itoa}
use magento2_customer_graphq.Errors.{wishlist_not_authorized}
use magento2_customer_graphq.World.{World, WishlistRow, ProductRow}
use magento2_customer_graphq.World.Monad.{ok, err}
use magento2_customer_graphq.Repository.Sql.{find}
use magento2_customer_graphq.Repository.Wishlist.{add_item, remove, of_customer, holds_product}
use magento2_customer_graphq.Repository.Wishlist.Items.{item, IsKeyed, foreign_item_kept}
use magento2_customer_graphq.Repository.Wishlist.Adding.{Holds, size_of, add_item_takes_effect}
use magento2_customer_graphq.Graph.Wishlists.{
  WishlistItemInput, add_products_to_wishlist, remove_products_from_wishlist, one,
}
use magento2_customer_graphq.Graph.Wishlists.Ownership.{other_wishlist_refused}
use magento2_customer_graphq.Tests.Data.{shop_env, shop, wish}

abbrev own_row : WishlistRow
own_row = record { wishlist_id = 3; customer_id = 7; sharing_code = []; updated_at = [] }

abbrev product : ProductRow
product = record { entity_id = 502; sku = text "B2" }

keyed : IsKeyed shop.wishlist_items
unfolding find
keyed = (refl, (refl, (refl, tt)))

foreign_row : item 32 shop ≡ some (wish 32 4 501)
unfolding find
foreign_row = refl

own : find (of_customer 7) shop.wishlists ≡ some own_row
unfolding find
own = refl

sold : find (λ (p : ProductRow). text_eq p.sku (text "B2")) shop.products ≡ some product
unfolding find text_eq
sold = refl

wished : find (holds_product 3 502) shop.wishlist_items ≡ some (wish 31 3 502)
unfolding find
wished = refl

other_id : text_eq (text "4") (itoa 3) ≡ false
unfolding text_eq itoa
other_id = refl

foreign_item_kept_example :
    ((store : ℕ) (sku : Text) (qty : ℕ)
      → item 32 (add_item shop_env 3 store sku qty shop).1 ≡ some (wish 32 4 501))
    × ((ids : List ℤ) → item 32 (remove shop_env 3 ids shop).1 ≡ some (wish 32 4 501))
foreign_item_kept_example =
    foreign_item_kept shop_env 3 32 shop (wish 32 4 501) keyed foreign_row (omega arith)

add_item_takes_effect_example :
    (v : World) × (add_item shop_env 3 1 (text "B2") one shop ≡ (ok tt, v))
    × Holds shop_env 3 502 one v
    × (size_of 3 v ≡ size_of 3 shop)
add_item_takes_effect_example =
    add_item_takes_effect shop_env 3 1 (text "B2") one shop product (some (wish 31 3 502)) refl sold
      wished

other_wishlist_refused_example :
    ((items : List WishlistItemInput)
      → add_products_to_wishlist shop_env (text "4") items shop
        ≡ (err wishlist_not_authorized, shop))
    × ((item_ids : List Text)
        → remove_products_from_wishlist shop_env (text "4") item_ids shop
          ≡ (err wishlist_not_authorized, shop))
other_wishlist_refused_example =
    other_wishlist_refused shop_env (text "4") shop own_row refl own other_id
