-- ===== src/Model.antt =====
-- graph/model/models_gen.go: the inputs and the outputs of the customer operations.
pub mod Enums
pub mod Orders
pub mod Attributes
use magento2_customer_graphq.Base.{ℕ, Bool, Option, List}
use magento2_customer_graphq.Base.Text.{Text}

pub record CustomerCreateInput : Type 0 where
  pub firstname : Text
  pub lastname : Text
  pub email : Text
  pub password : Text
  pub prefix : Option Text
  pub middlename : Option Text
  pub suffix : Option Text
  pub date_of_birth : Option Text
  pub taxvat : Option Text
  pub gender : Option ℕ
  pub is_subscribed : Option Bool

pub record CustomerUpdateInput : Type 0 where
  pub firstname : Option Text
  pub lastname : Option Text
  pub middlename : Option Text
  pub prefix : Option Text
  pub suffix : Option Text
  pub date_of_birth : Option Text
  pub taxvat : Option Text
  pub gender : Option ℕ
  pub is_subscribed : Option Bool

-- The deprecated input of `createCustomer` and `updateCustomer`.
pub record CustomerInput : Type 0 where
  pub prefix : Option Text
  pub firstname : Option Text
  pub middlename : Option Text
  pub lastname : Option Text
  pub suffix : Option Text
  pub email : Option Text
  pub dob : Option Text
  pub date_of_birth : Option Text
  pub taxvat : Option Text
  pub gender : Option ℕ
  pub password : Option Text
  pub is_subscribed : Option Bool

pub record ConfirmEmailInput : Type 0 where
  pub email : Text
  pub confirmation_key : Text

pub record RegionInput : Type 0 where
  pub region_code : Option Text
  pub region : Option Text
  pub region_id : Option ℕ

pub record CustomerAddressInput : Type 0 where
  pub firstname : Option Text
  pub lastname : Option Text
  pub middlename : Option Text
  pub prefix : Option Text
  pub suffix : Option Text
  pub company : Option Text
  pub street : Option (List (Option Text))
  pub city : Option Text
  pub region : Option RegionInput
  pub postcode : Option Text
  pub country_code : Option Text
  pub country_id : Option Text
  pub telephone : Option Text
  pub fax : Option Text
  pub vat_id : Option Text
  pub default_shipping : Option Bool
  pub default_billing : Option Bool

pub record CustomerGroup : Type 0 where
  pub uid : Text
  pub name : Text

pub record CustomerAddressRegion : Type 0 where
  pub region_code : Option Text
  pub region : Option Text
  pub region_id : Option ℕ

-- `street` is nil or a list of lines.
pub record CustomerAddress : Type 0 where
  pub id : ℕ
  pub uid : Text
  pub firstname : Option Text
  pub lastname : Option Text
  pub middlename : Option Text
  pub prefix : Option Text
  pub suffix : Option Text
  pub company : Option Text
  pub street : List Text
  pub city : Option Text
  pub region : Option CustomerAddressRegion
  pub region_id : Option ℕ
  pub postcode : Option Text
  pub country_code : Option Text
  pub country_id : Option Text
  pub telephone : Option Text
  pub fax : Option Text
  pub vat_id : Option Text
  pub default_shipping : Bool
  pub default_billing : Bool

pub record PageInfo : Type 0 where
  pub current_page : ℕ
  pub page_size : ℕ
  pub total_pages : ℕ

pub record CustomerAddresses : Type 0 where
  pub items : List CustomerAddress
  pub total_count : ℕ
  pub page_info : PageInfo

pub data ConfirmationStatus : Type 0 where
  account_confirmed account_confirmation_not_required : ConfirmationStatus

pub record Customer : Type 0 where
  pub id : Text
  pub firstname : Option Text
  pub lastname : Option Text
  pub middlename : Option Text
  pub prefix : Option Text
  pub suffix : Option Text
  pub email : Text
  pub dob : Option Text
  pub date_of_birth : Option Text
  pub taxvat : Option Text
  pub gender : Option ℕ
  pub is_subscribed : Option Bool
  pub created_at : Text
  pub default_billing : Option Text
  pub default_shipping : Option Text
  pub addresses : List CustomerAddress
  pub addresses_v2 : Option CustomerAddresses
  pub confirmation_status : ConfirmationStatus
  pub group_id : ℕ
  pub group : Option CustomerGroup
