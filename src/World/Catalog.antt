-- ===== src/World/Catalog.antt =====
-- The tables of the catalog that wishlists are shown with, which the service only reads, and the
-- data type of internal/repository/wishlist.go.
use magento2_customer_graphq.Base.{ℕ, Option, List}
use magento2_customer_graphq.Base.Text.{Text}
use magento2_customer_graphq.World.Orders.{Float}

-- A row of `eav_attribute`.
pub record ProductAttributeRow : Type 0 where
  pub attribute_id : ℕ
  pub entity_type_id : ℕ
  pub attribute_code : Text

-- A row of `catalog_product_entity_varchar`.
pub record ProductTextRow : Type 0 where
  pub entity_id : ℕ
  pub store_id : ℕ
  pub attribute_id : ℕ
  pub value : Option Text

-- A row of `catalog_product_index_price`.
pub record ProductPriceRow : Type 0 where
  pub entity_id : ℕ
  pub customer_group_id : ℕ
  pub website_id : ℕ
  pub final_price : Option Float

pub record Products : Type 0 where
  pub attributes : List ProductAttributeRow
  pub texts : List ProductTextRow
  pub prices : List ProductPriceRow

-- `repository.WishlistItemData`
pub record WishlistItemData : Type 0 where
  pub item_id : ℕ
  pub qty : Float
  pub added_at : Text
  pub sku : Text
  pub name : Text
  pub url_key : Text
  pub thumbnail : Text
  pub price : Float
