-- ===== src/Model/Attributes.antt =====
-- graph/model/models_gen.go: custom attributes.
use magento2_customer_graphq.Base.{List}
use magento2_customer_graphq.Base.Text.{Text}

pub record AttributeSelectedOption : Type 0 where
  pub uid : Text
  pub label : Text
  pub value : Text

-- `AttributeValueInterface`: an `AttributeValue`, or the `AttributeSelectedOptions` of one.
pub data AttributeValueInterface : Type 0 where
  attribute_value : Text → Text → AttributeValueInterface
  attribute_selected_options : Text → List AttributeSelectedOption → AttributeValueInterface
