-- ===== src/World/Attributes.antt =====
-- The tables of custom attributes, which the service only reads, and the data types of
-- internal/repository/eav_attribute.go.
use magento2_customer_graphq.Base.{ℕ, Bool, Option, List}
use magento2_customer_graphq.Base.Text.{Text}

-- A row of `eav_attribute` joined with its entity type and with `customer_eav_attribute`, if that
-- has a row.
pub record EavAttributeRow : Type 0 where
  pub attribute_id : ℕ
  pub entity_type_code : Text
  pub attribute_code : Text
  pub backend_type : Text
  pub frontend_input : Text
  pub frontend_label : Option Text
  pub is_user_defined : ℕ
  pub is_visible : Option ℕ

-- `repository.EAVAttributeMeta`
pub record EavAttributeMeta : Type 0 where
  pub attribute_id : ℕ
  pub attribute_code : Text
  pub backend_type : Text
  pub frontend_input : Text
  pub frontend_label : Text
  pub is_user_defined : Bool
  pub is_visible : Bool

-- A row of one of the tables of values.
pub record EavValueRow : Type 0 where
  pub entity_id : ℕ
  pub attribute_id : ℕ
  pub value : Option Text

-- `repository.EAVAttributeValue`
pub record EavAttributeValue : Type 0 where
  pub entity_id : ℕ
  pub attribute_id : ℕ
  pub attribute_code : Text
  pub value : Text
  pub frontend_input : Text

-- A row of `eav_attribute_option`, and of `eav_attribute_option_value`.
pub record EavOptionRow : Type 0 where
  pub option_id : ℕ
  pub attribute_id : ℕ
  pub sort_order : ℕ

pub record EavOptionLabelRow : Type 0 where
  pub option_id : ℕ
  pub store_id : ℕ
  pub value : Text

-- `repository.EAVOptionValue`
pub record EavOptionValue : Type 0 where
  pub option_id : ℕ
  pub value : Text
  pub label : Text

-- The tables; `values` takes the name of a table.
pub record Eav : Type 0 where
  pub attributes : List EavAttributeRow
  pub values : Text → List EavValueRow
  pub options : List EavOptionRow
  pub option_labels : List EavOptionLabelRow
