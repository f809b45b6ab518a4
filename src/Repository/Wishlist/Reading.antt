-- ===== src/Repository/Wishlist/Reading.antt =====
-- `GetItems` of internal/repository/wishlist.go.
use magento2_customer_graphq.Base.{
  ℕ, ◌-◌, ◌*◌, ◌&&◌, Option, none, some, List, [], ◌∷◌, ◌++◌, map, take, drop, ◌==◌, if◌then◌else◌,
}
use magento2_customer_graphq.Base.Text.{Text, text}
use magento2_customer_graphq.Errors.{get_wishlist_items}
use magento2_customer_graphq.World.{World, WishlistItemRow, ProductRow}
use magento2_customer_graphq.World.Orders.{Float}
use magento2_customer_graphq.World.Catalog.{
  Products, ProductAttributeRow, ProductTextRow, ProductPriceRow, WishlistItemData,
}
use magento2_customer_graphq.World.Monad.{Action, within, query}
use magento2_customer_graphq.Env.{Env}
use magento2_customer_graphq.Repository.Sql.{find, select}
use magento2_customer_graphq.Repository.Wishlist.{in_wishlist}

-- A join: the rows that each row of the left side gives.
unfoldable pub joined : {A B : Type 0} → (A → List B) → List A → List B
joined f [] = []
joined f (a ∷ as_) = f a ++ joined f as_

-- A LEFT JOIN: one row without a partner where there is none.
unfoldable pub left : {A : Type 0} → List (Option A) → List (Option A)
left [] = none ∷ []
left (a ∷ as_) = a ∷ as_

-- COALESCE(value, '') and COALESCE(price, 0)
abbrev pub or_empty : Option Text → Text
or_empty none = []
or_empty (some s) = s

abbrev pub or_free : Option Float → Float
or_free none = 0
or_free (some p) = p

-- The values of an attribute; none of an attribute that does not exist.
unfoldable pub values_of : Products → ℕ → Option ProductAttributeRow → List (Option Text)
values_of c product none = []
values_of c product (some a) =
    map (λ (t : ProductTextRow). t.value)
      (select
        (λ t. t.entity_id == product && (t.store_id == 0 && (t.attribute_id == a.attribute_id)))
        c.texts)

-- The index price of a visitor on the first website.
unfoldable pub prices_of : Products → ℕ → List (Option Float)
prices_of c product =
    map (λ (p : ProductPriceRow). p.final_price)
      (select (λ p. p.entity_id == product && (p.customer_group_id == 0 && (p.website_id == 1)))
        c.prices)

module _ (env : Env) where
  abbrev pub attribute : Products → Text → Option ProductAttributeRow
  attribute c code =
      find
        (λ (a : ProductAttributeRow). env.collate a.attribute_code code && (a.entity_type_id == 4))
        c.attributes

  abbrev pub texts_of : Products → Text → ℕ → List (Option Text)
  texts_of c code product = left (values_of c product (attribute c code))

  abbrev pub item_row :
      WishlistItemRow
      → ProductRow
      → Option Text
      → Option Text
      → Option Text
      → Option Float
      → WishlistItemData
  item_row i p name url thumb price = record {
    item_id = i.wishlist_item_id;
    qty = i.qty;
    added_at = i.added_at;
    sku = p.sku;
    name = or_empty name;
    url_key = or_empty url;
    thumbnail = or_empty thumb;
    price = or_free price;
  }

  -- An item joined with a product.
  unfoldable pub with_product : Products → WishlistItemRow → ProductRow → List WishlistItemData
  unfolding joined left values_of prices_of
  with_product c i p =
      joined
        (λ name.
          joined
            (λ url.
              joined (λ thumb. map (item_row i p name url thumb) (left (prices_of c p.entity_id)))
                (texts_of c (text "thumbnail") p.entity_id))
            (texts_of c (text "url_key") p.entity_id))
        (texts_of c (text "name") p.entity_id)

  -- The rows of the statement before it orders and limits them.
  unfoldable pub wishlist_rows : ℕ → World → List WishlistItemData
  unfolding with_product
  wishlist_rows wishlist w =
      joined
        (λ (i : WishlistItemRow).
          joined (with_product w.catalog i)
            (select (λ (p : ProductRow). p.entity_id == i.product_id) w.products))
        (select (in_wishlist wishlist) w.wishlist_items)

  -- A size or a page of 0 is replaced.
  abbrev pub size_or_default : ℕ → ℕ
  size_or_default size = if size == 0 then 20 else size

  abbrev pub page_or_default : ℕ → ℕ
  page_or_default page = if page == 0 then 1 else page

  unfoldable pub get_items : ℕ → ℕ → ℕ → Action (List WishlistItemData)
  unfolding wishlist_rows
  get_items wishlist page_size current_page =
      let size = size_or_default page_size in
      let offset = (page_or_default current_page - 1) * size in
      within get_wishlist_items
        (query (λ w. take size (drop offset (env.latest_first (wishlist_rows wishlist w)))))
