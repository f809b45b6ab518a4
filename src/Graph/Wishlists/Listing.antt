-- ===== src/Graph/Wishlists/Listing.antt =====
-- `ItemsV2` of graph/schema.resolvers.go and `mapWishlistItem` of graph/helpers.go. The parent
-- object is a wishlist that a resolver made, so that its `ID` is the text of an id.
use magento2_customer_graphq.Base.{
  ℕ, ◌+◌, ◌-◌, ◌/◌, Option, none, some, List, [], ◌∷◌, ◌++◌, map, ◌==◌, if◌then◌else◌,
}
use magento2_customer_graphq.Base.Text.{Text, text}
use magento2_customer_graphq.Go.Strconv.{itoa}
use magento2_customer_graphq.World.Orders.{Float}
use magento2_customer_graphq.World.Catalog.{WishlistItemData}
use magento2_customer_graphq.World.Monad.{Action, ◌>>=◌, pure}
use magento2_customer_graphq.Env.{Env}
use magento2_customer_graphq.Repository.Wishlist.{count_items}
use magento2_customer_graphq.Repository.Wishlist.Reading.{get_items}

pub record WishlistItemProduct : Type 0 where
  pub sku : Text
  pub name : Text
  pub url_key : Text
  pub thumbnail_url : Option Text
  pub thumbnail_label : Text
  -- `PriceRange.MinimumPrice.FinalPrice.Value`
  pub final_price : Float

pub record WishlistItem : Type 0 where
  pub id : Text
  pub quantity : Float
  pub added_at : Text
  pub product : WishlistItemProduct

-- `WishlistItems` with its `SearchResultPageInfo`.
pub record WishlistItems : Type 0 where
  pub items : List WishlistItem
  pub current_page : ℕ
  pub page_size : ℕ
  pub total_pages : ℕ

abbrev pub thumbnail_url_of : Text → Option Text
thumbnail_url_of [] = none
thumbnail_url_of (c ∷ cs) = some (text "/media/catalog/product" ++ (c ∷ cs))

unfoldable pub map_wishlist_item : WishlistItemData → WishlistItem
map_wishlist_item item = record {
  id = itoa item.item_id;
  quantity = item.qty;
  added_at = item.added_at;
  product = record {
    sku = item.sku;
    name = item.name;
    url_key = item.url_key;
    thumbnail_url = thumbnail_url_of item.thumbnail;
    thumbnail_label = item.name;
    final_price = item.price;
  };
}

-- `if p != nil && *p > 0 { v = *p }`
abbrev pub above_zero_or : ℕ → Option ℕ → ℕ
above_zero_or d none = d
above_zero_or d (some n) = if n == 0 then d else n

abbrev pub at_least_one : ℕ → ℕ
at_least_one n = if n == 0 then 1 else n

module _ (env : Env) where
  unfoldable pub items_v2 : ℕ → Option ℕ → Option ℕ → Action WishlistItems
  unfolding map_wishlist_item
  items_v2 obj page_size current_page = do
    let size = above_zero_or 20 page_size
    let page = above_zero_or 1 current_page
    items ← get_items env obj size page
    total ← count_items obj
    pure (record {
      items = map map_wishlist_item items;
      current_page = page;
      page_size = size;
      total_pages = at_least_one ((total + size - 1) / size);
    })
