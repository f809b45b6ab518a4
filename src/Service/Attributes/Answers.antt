-- ===== src/Service/Attributes/Answers.antt =====
-- `GetCustomAttributes` of internal/service/customer.go always returns, whatever statement fails.
use magento2_customer_graphq.Base.{
  ℕ, ◌≡◌, refl, ap, ◌∙◌, Bool, true, false, not, Option, none, some, List, [], ◌∷◌, map, ◌==◌,
  if◌then◌else◌, Bool-cases, inl, inr,
}
use magento2_customer_graphq.Base.Text.{Text, text, text_eq}
use magento2_customer_graphq.Env.{Env}
use magento2_customer_graphq.Errors.{attribute_not_found}
use magento2_customer_graphq.World.{World}
use magento2_customer_graphq.World.Attributes.{EavAttributeValue}
use magento2_customer_graphq.World.Monad.{ok, pure, fail_if, attempt}
use magento2_customer_graphq.World.Monad.Laws.{>>=-ok}
use magento2_customer_graphq.World.Monad.Calm.{
  IsCalm, >>=-IsCalm, pure-IsCalm, fail_if-IsCalm, attempt_returns,
}
use magento2_customer_graphq.Model.Attributes.{
  AttributeValueInterface, attribute_value, attribute_selected_options, AttributeSelectedOption,
}
use magento2_customer_graphq.Repository.Attributes.{
  get_customer_attributes, get_address_attributes, get_values_for_entity,
}
use magento2_customer_graphq.Repository.Attributes.Options.{get_option_labels}
use magento2_customer_graphq.Service.Attributes.{
  resolve_select_options, show_value, show_values, get_custom_attributes, is_select, is_filtered,
  id_of_code, shown_as, or_none, has,
}
use magento2_customer_graphq.Repository.Attributes.Calm.{
  either-IsCalm, get_values_for_entity-IsCalm, get_option_labels-IsCalm,
  get_customer_attributes-IsCalm, get_address_attributes-IsCalm,
}

abbrev pub code_of : AttributeValueInterface → Text
code_of (attribute_value code value) = code
code_of (attribute_selected_options code options) = code

code_of-shown_as :
    (v : EavAttributeValue) (o : Option (List AttributeSelectedOption))
    → code_of (shown_as v o) ≡ v.attribute_code
code_of-shown_as v none = refl
code_of-shown_as v (some []) = refl
code_of-shown_as v (some (o ∷ os)) = refl

-- Whether a code is one of those that were asked for; all are where none is named.
abbrev pub asked : List Text → Text → Bool
asked [] code = true
asked (c ∷ cs) code = has (c ∷ cs) code

is_filtered-asked :
    (codes : List Text) (code : Text) → is_filtered codes code ≡ not (asked codes code)
is_filtered-asked [] code = refl
is_filtered-asked (c ∷ cs) code = refl

-- The codes of the values that were asked for.
abbrev pub wanted : List Text → List EavAttributeValue → List Text
wanted codes [] = []
wanted codes (v ∷ vs) =
    if asked codes v.attribute_code then v.attribute_code ∷ wanted codes vs else wanted codes vs

module _ (env : Env) where
  resolve_select_options-IsCalm :
      (entity_type : Text) (v : EavAttributeValue) (store : ℕ)
      → IsCalm (resolve_select_options env entity_type v store)
  unfolding resolve_select_options
  resolve_select_options-IsCalm entity_type v store =
      >>=-IsCalm
        (if text_eq entity_type (text "customer_address")
          then get_address_attributes env
          else get_customer_attributes env)
        _
        (either-IsCalm (text_eq entity_type (text "customer_address")) _ _
          (get_address_attributes-IsCalm env) (get_customer_attributes-IsCalm env))
        λ attributes.
          let id = id_of_code v.attribute_code attributes in
          >>=-IsCalm (fail_if (id == 0) attribute_not_found) _
            (fail_if-IsCalm (id == 0) attribute_not_found)
            λ _.
              >>=-IsCalm (get_option_labels env id store) _ (get_option_labels-IsCalm env id store)
                λ options. pure-IsCalm _

  -- What one value, and a list of values, is shown as: always something, whatever the world is.
  show_value_returns :
      (entity_type : Text) (v : EavAttributeValue) (w : World)
      → (a : AttributeValueInterface) × (u : World) × (show_value env entity_type v w ≡ (ok a, u))
        × (code_of a ≡ v.attribute_code)
  unfolding show_value
  show_value_returns entity_type v w = elim (Bool-cases (is_select v.frontend_input)) [
    | inl e ↦
        let (o, u, q) =
          attempt_returns (resolve_select_options env entity_type v env.store_id)
            (resolve_select_options-IsCalm entity_type v env.store_id) w in
        (
          shown_as v o,
          u,
          rw e (
              >>=-ok (attempt (resolve_select_options env entity_type v env.store_id))
                (λ options. pure (shown_as v options)) w q),
          code_of-shown_as v o,
        )
    | inr e ↦ (attribute_value v.attribute_code v.value, w, rw e refl, refl)
  ]

  show_values_returns :
      (entity_type : Text) (codes : List Text) (vs : List EavAttributeValue) (w : World)
      → (as_ : List AttributeValueInterface) × (u : World) × (show_values env entity_type codes vs w
          ≡ (ok as_, u))
        × (map code_of as_ ≡ wanted codes vs)
  unfolding show_values
  show_values_returns entity_type codes [] w = ([], w, refl, refl)
  show_values_returns entity_type codes (v ∷ vs) w =
      elim (Bool-cases (asked codes v.attribute_code)) [
        | inr e ↦
            let (as_, u, q, c) = show_values_returns entity_type codes vs w in
            let f : is_filtered codes v.attribute_code ≡ true =
              is_filtered-asked codes v.attribute_code ∙ ap not e in
            (as_, u, rw f q, rw e c)
        | inl e ↦
            let (a, x, q, c) = show_value_returns entity_type v w in
            let (as_, u, q', c') = show_values_returns entity_type codes vs x in
            let f : is_filtered codes v.attribute_code ≡ false =
              is_filtered-asked codes v.attribute_code ∙ ap not e in
            (a ∷ as_, u, rw (f, q, q') refl, rw e (λ i. c i ∷ c' i))
      ]

  -- Whatever statement fails: the custom attributes are returned, without an error and without a
  -- panic. They are one for each value that was read, in its order, whose code was asked for; none
  -- if the values could not be read; all where no code was asked for.
  pub get_custom_attributes_returns :
      (entity_type : Text) (entity : ℕ) (codes : List Text) (w : World)
      → (read : Option (List EavAttributeValue)) × (as_ : List AttributeValueInterface)
        × (u : World) × (v : World) × (attempt (get_values_for_entity env entity_type entity) w
            ≡ (ok read, u))
        × (get_custom_attributes env entity_type entity codes w ≡ (ok as_, v))
        × (map code_of as_ ≡ wanted codes (or_none env read))
  unfolding get_custom_attributes
  get_custom_attributes_returns entity_type entity codes w =
      let (read, u, q) =
        attempt_returns (get_values_for_entity env entity_type entity)
          (get_values_for_entity-IsCalm env entity_type entity) w in
      let (as_, v, q', c) = show_values_returns entity_type codes (or_none env read) u in
      (
        read,
        as_,
        u,
        v,
        q,
        >>=-ok (attempt (get_values_for_entity env entity_type entity))
              (λ values. show_values env entity_type codes (or_none env values)) w q
            ∙ q',
        c,
      )
