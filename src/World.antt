-- ===== src/World.antt =====
-- The tables of Magento's database that the repositories read and write, the caches that the
-- repositories keep, and the mail that the services hand to the email client.
pub mod Orders
pub mod Attributes
pub mod Catalog
pub mod Monad
use magento2_customer_graphq.Base.{ℕ, Bool, Option, List}
use magento2_customer_graphq.Base.Text.{Text}
use magento2_customer_graphq.Go.Int.{ℤ}
use magento2_customer_graphq.World.Orders.{Sales}
use magento2_customer_graphq.World.Catalog.{Products}
use magento2_customer_graphq.World.Attributes.{Eav, EavAttributeMeta}

-- A row of `customer_entity`: the columns that the statements name.
pub record CustomerRow : Type 0 where
  pub entity_id : ℕ
  pub website_id : ℕ
  pub email : Text
  pub group_id : ℕ
  pub store_id : ℕ
  pub created_at : Text
  pub updated_at : Text
  pub is_active : ℕ
  pub prefix : Option Text
  pub firstname : Option Text
  pub middlename : Option Text
  pub lastname : Option Text
  pub suffix : Option Text
  pub dob : Option Text
  pub password_hash : Option Text
  pub default_billing : Option ℕ
  pub default_shipping : Option ℕ
  pub taxvat : Option Text
  pub confirmation : Option Text
  pub gender : Option ℕ
  pub rp_token : Option Text
  pub rp_token_created_at : Option Text
  pub failures_num : Option ℕ
  pub first_failure : Option Text
  pub lock_expires : Option Text

-- `repository.AddressData`, a row of `customer_address_entity`.
pub record AddressData : Type 0 where
  pub entity_id : ℕ
  pub parent_id : ℕ
  pub created_at : Text
  pub updated_at : Text
  pub is_active : ℕ
  pub city : Option Text
  pub company : Option Text
  pub country_id : Option Text
  pub fax : Option Text
  pub firstname : Option Text
  pub lastname : Option Text
  pub middlename : Option Text
  pub postcode : Option Text
  pub prefix : Option Text
  pub region : Option Text
  pub region_id : Option ℕ
  pub street : Option Text
  pub suffix : Option Text
  pub telephone : Option Text
  pub vat_id : Option Text

-- `repository.GroupData`, a row of `customer_group`.
pub record GroupData : Type 0 where
  pub group_id : ℕ
  pub group_code : Text
  pub tax_class_id : ℕ

-- `repository.StoreData`, a row of `store`.
pub record StoreData : Type 0 where
  pub store_id : ℕ
  pub code : Text
  pub website_id : ℕ
  pub name : Text

-- A row of `directory_country_region`.
pub record RegionRow : Type 0 where
  pub region_id : ℕ
  pub code : Text
  pub default_name : Text

-- A row of `newsletter_subscriber`.
pub record SubscriberRow : Type 0 where
  pub subscriber_id : ℕ
  pub store_id : ℕ
  pub customer_id : ℕ
  pub subscriber_email : Text
  pub subscriber_status : ℕ
  pub change_status_at : Text

-- A row of `jwt_auth_revoked` for the customers' user type, keyed by the customer.
pub record RevocationRow : Type 0 where
  pub user_id : ℕ
  pub revoke_before : ℤ

-- A row of `oauth_token`.
pub record OauthRow : Type 0 where
  pub customer_id : ℕ
  pub revoked : Bool

-- A row of `wishlist`.
pub record WishlistRow : Type 0 where
  pub wishlist_id : ℕ
  pub customer_id : ℕ
  pub sharing_code : Text
  pub updated_at : Text

-- A row of `wishlist_item`; the quantity is the 64 bits of a floating-point number.
pub record WishlistItemRow : Type 0 where
  pub wishlist_item_id : ℕ
  pub wishlist_id : ℕ
  pub product_id : ℕ
  pub store_id : ℕ
  pub added_at : Text
  pub qty : ℕ

-- A row of `catalog_product_entity`.
pub record ProductRow : Type 0 where
  pub entity_id : ℕ
  pub sku : Text

-- What a request to the email client holds.
pub data Mail : Type 0 where
  welcome : Text → Text → Mail
  password_reset : Text → Text → Mail
  email_confirmation : Text → Text → Mail

pub record World : Type 0 where
  pub customers : List CustomerRow
  pub addresses : List AddressData
  pub groups : List GroupData
  pub stores : List StoreData
  pub regions : List RegionRow
  pub subscribers : List SubscriberRow
  pub revocations : List RevocationRow
  pub oauth_tokens : List OauthRow
  pub wishlists : List WishlistRow
  pub wishlist_items : List WishlistItemRow
  pub products : List ProductRow
  pub sales : Sales
  pub eav : Eav
  pub catalog : Products
  pub outbox : List Mail
  -- The maps `cache` of StoreRepository and GroupRepository.
  pub store_cache : List (ℕ × StoreData)
  pub group_cache : List (ℕ × GroupData)
  -- `statusLabels`, once `statusLoaded` is set.
  pub status_labels : Option (List (Text × Text))
  -- `customerAttrs` and `addrAttrs`, once they are loaded.
  pub customer_attributes : Option (List EavAttributeMeta)
  pub address_attributes : Option (List EavAttributeMeta)
  -- The next values of the AUTO_INCREMENT columns.
  pub next_customer : ℕ
  pub next_address : ℕ
  pub next_subscriber : ℕ
  pub next_wishlist : ℕ
  pub next_wishlist_item : ℕ
  -- Whether each of the statements to come fails; past the end none does.
  pub faults : List Bool
