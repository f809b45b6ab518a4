-- ===== src/Service/Attributes.antt =====
-- `GetCustomAttributes` of internal/service/customer.go and `resolveSelectOptions` of
-- internal/service/mapper.go.
pub mod Answers
use magento2_customer_graphq.Base.{
  ℕ, Bool, true, false, not, ◌&&◌, ◌||◌, Option, none, some, List, [], ◌∷◌, map, ◌==◌,
  if◌then◌else◌,
}
use magento2_customer_graphq.Base.Text.{Text, text, text_eq, split}
use magento2_customer_graphq.Go.Base64.{base64_encode}
use magento2_customer_graphq.Go.Strings.{trim_space}
use magento2_customer_graphq.Env.{Env}
use magento2_customer_graphq.Errors.{attribute_not_found}
use magento2_customer_graphq.World.Attributes.{EavAttributeMeta, EavAttributeValue, EavOptionValue}
use magento2_customer_graphq.World.Monad.{Action, ◌>>=◌, ◌>>◌, pure, fail_if, attempt}
use magento2_customer_graphq.Model.Attributes.{
  AttributeSelectedOption, AttributeValueInterface, attribute_value, attribute_selected_options,
}
use magento2_customer_graphq.Repository.Attributes.{
  get_customer_attributes, get_address_attributes, get_values_for_entity,
}
use magento2_customer_graphq.Repository.Attributes.Options.{get_option_labels}

abbrev pub has : List Text → Text → Bool
has [] s = false
has (t ∷ ts) s = text_eq t s || has ts s

-- The id of the first attribute of a code; 0 if there is none.
unfoldable pub id_of_code : Text → List EavAttributeMeta → ℕ
id_of_code code [] = 0
id_of_code code (a ∷ as_) =
    if text_eq a.attribute_code code then a.attribute_id else id_of_code code as_

-- `selectedSet`
abbrev pub selected_ids : Text → List Text
selected_ids value = map trim_space (split b',' value)

abbrev option_of : EavOptionValue → AttributeSelectedOption
option_of o = record { uid = base64_encode o.value; label = o.label; value = o.value }

unfoldable pub selected_options : List Text → List EavOptionValue → List AttributeSelectedOption
selected_options ids [] = []
selected_options ids (o ∷ os) =
    let rest = selected_options ids os in if has ids o.value then option_of o ∷ rest else rest

abbrev pub is_select : Text → Bool
is_select input = text_eq input (text "select") || text_eq input (text "multiselect")

abbrev pub shown_as :
    EavAttributeValue → Option (List AttributeSelectedOption) → AttributeValueInterface
shown_as v (some (o ∷ os)) = attribute_selected_options v.attribute_code (o ∷ os)
shown_as v (some []) = attribute_value v.attribute_code v.value
shown_as v none = attribute_value v.attribute_code v.value

-- `len(filterSet) > 0 && !filterSet[v.AttributeCode]`
abbrev pub is_filtered : List Text → Text → Bool
is_filtered [] code = false
is_filtered (c ∷ cs) code = not (has (c ∷ cs) code)

module _ (env : Env) where
  unfoldable pub resolve_select_options :
      Text → EavAttributeValue → ℕ → Action (List AttributeSelectedOption)
  unfolding id_of_code selected_options
  resolve_select_options entity_type v store = do
    attributes ←
        if text_eq entity_type (text "customer_address")
        then get_address_attributes env
        else get_customer_attributes env
    let id = id_of_code v.attribute_code attributes
    fail_if (id == 0) attribute_not_found
    options ← get_option_labels env id store
    pure (selected_options (selected_ids v.value) options)

  -- One value of the loop.
  unfoldable pub show_value : Text → EavAttributeValue → Action AttributeValueInterface
  unfolding resolve_select_options
  show_value entity_type v =
      if is_select v.frontend_input
      then (attempt (resolve_select_options entity_type v env.store_id) >>= λ options.
          pure (shown_as v options))
      else pure (attribute_value v.attribute_code v.value)

  unfoldable pub show_values :
      Text → List Text → List EavAttributeValue → Action (List AttributeValueInterface)
  unfolding show_value
  show_values entity_type codes [] = pure []
  show_values entity_type codes (v ∷ vs) =
      let rest = show_values entity_type codes vs in
      if is_filtered codes v.attribute_code
      then rest
      else (show_value entity_type v >>= λ first. rest >>= λ more. pure (first ∷ more))

  abbrev pub or_none : Option (List EavAttributeValue) → List EavAttributeValue
  or_none none = []
  or_none (some vs) = vs

  -- An error of the values is logged, and no attribute is shown.
  unfoldable pub get_custom_attributes :
      Text → ℕ → List Text → Action (List AttributeValueInterface)
  unfolding show_values
  get_custom_attributes entity_type entity codes = do
    values ← attempt (get_values_for_entity env entity_type entity)
    show_values entity_type codes (or_none values)
