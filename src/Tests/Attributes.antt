-- ===== src/Tests/Attributes.antt =====
-- The custom attribute of the shop of the tests.
use magento2_customer_graphq.Go.Base64.{base64_encode}
use magento2_customer_graphq.Go.Strconv.{itoa}
use magento2_customer_graphq.Go.Strings.{trim_space}
use magento2_customer_graphq.Repository.Sql.{select}
use magento2_customer_graphq.Base.{◌≡◌, refl, Option, List, [], ◌∷◌, map, true, false}
use magento2_customer_graphq.Base.Text.{text, text_eq, split}
use magento2_customer_graphq.World.{World}
use magento2_customer_graphq.World.Attributes.{EavAttributeValue}
use magento2_customer_graphq.World.Monad.{ok, attempt}
use magento2_customer_graphq.Model.Attributes.{
  AttributeValueInterface, attribute_value, attribute_selected_options,
}
use magento2_customer_graphq.Repository.Attributes.{get_values_for_entity}
use magento2_customer_graphq.Repository.Attributes.Options.{get_option_labels}
use magento2_customer_graphq.Service.Attributes.{get_custom_attributes, or_none}
use magento2_customer_graphq.Service.Attributes.Answers.{
  code_of, wanted, get_custom_attributes_returns,
}
use magento2_customer_graphq.Tests.Data.{shop, shop_env}

color_test :
    (get_custom_attributes shop_env (text "customer") 7 [] shop).0
    ≡ ok (
        attribute_selected_options
          (text "color")
          (record { uid = text "NjE="; label = text "Blue"; value = text "61" } ∷ [])
        ∷ [])
unfolding get_custom_attributes get_values_for_entity text_eq select get_option_labels split
    trim_space itoa base64_encode
color_test = refl

-- The statement of the labels fails: the id of the option is shown.
unlabelled_test :
    (get_custom_attributes shop_env
      (text "customer")
      7
      []
      (record shop { faults = false ∷ false ∷ true ∷ [] })).0
    ≡ ok (attribute_value (text "color") (text "61") ∷ [])
unfolding get_custom_attributes get_values_for_entity text_eq select get_option_labels
unlabelled_test = refl

get_custom_attributes_returns_example :
    (read : Option (List EavAttributeValue)) × (as_ : List AttributeValueInterface) × (u : World)
    × (v : World) × (attempt (get_values_for_entity shop_env (text "customer") 7) shop
        ≡ (ok read, u))
    × (get_custom_attributes shop_env (text "customer") 7 (text "color" ∷ []) shop ≡ (ok as_, v))
    × (map code_of as_ ≡ wanted (text "color" ∷ []) (or_none shop_env read))
get_custom_attributes_returns_example =
    get_custom_attributes_returns shop_env (text "customer") 7 (text "color" ∷ []) shop
