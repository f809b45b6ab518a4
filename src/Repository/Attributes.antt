-- ===== src/Repository/Attributes.antt =====
-- internal/repository/eav_attribute.go: custom attributes, their values and their options.
pub mod Calm
pub mod Options
use magento2_customer_graphq.Base.{
  ℕ, Bool, true, false, not, ◌&&◌, ◌||◌, Option, none, some, List, [], ◌∷◌, ◌++◌, map, ◌==◌,
  if◌then◌else◌,
}
use magento2_customer_graphq.Base.Text.{Text, text, text_eq}
use magento2_customer_graphq.Go.Strconv.{itoa}
use magento2_customer_graphq.Env.{Env}
use magento2_customer_graphq.Errors.{
  load_attributes as loading, query_values, scan_value, option_labels as labelling, database,
}
use magento2_customer_graphq.World.{World}
use magento2_customer_graphq.World.Attributes.{
  EavAttributeRow, EavAttributeMeta, EavValueRow, EavAttributeValue, EavOptionRow,
  EavOptionLabelRow, EavOptionValue,
}
use magento2_customer_graphq.World.Monad.{
  Action, ◌>>=◌, ◌>>◌, pure, fail, gets, modify, within, query, deref,
}
use magento2_customer_graphq.Repository.Sql.{select}
use magento2_customer_graphq.Repository.Orders.Parts.{one_of}

abbrev or_empty : Option Text → Text
or_empty none = []
or_empty (some s) = s

-- COALESCE(cea.is_visible, 1) = 1
abbrev shown : Option ℕ → Bool
shown none = true
shown (some v) = v == 1

unfoldable pub scan_attribute : EavAttributeRow → EavAttributeMeta
scan_attribute r = record {
  attribute_id = r.attribute_id;
  attribute_code = r.attribute_code;
  backend_type = r.backend_type;
  frontend_input = r.frontend_input;
  frontend_label = or_empty r.frontend_label;
  is_user_defined = r.is_user_defined == 1;
  is_visible = true;
}

abbrev is_listed : List Text → Text → Bool
is_listed [] s = false
is_listed (t ∷ ts) s = text_eq t s || is_listed ts s

-- The whitelist of the names that a table can end in.
unfoldable pub is_valid_backend : Text → Bool
is_valid_backend =
    is_listed (text "varchar" ∷ text "int" ∷ text "text" ∷ text "decimal" ∷ text "datetime" ∷ [])

-- The keys of `byType`.
unfoldable pub backend_types : List EavAttributeMeta → List Text
backend_types [] = []
backend_types (a ∷ as_) =
    let rest = backend_types as_ in
    if is_listed rest a.backend_type then rest else a.backend_type ∷ rest

abbrev pub of_type : Text → EavAttributeMeta → Bool
of_type backend a = text_eq a.backend_type backend

abbrev pub ids_of : List EavAttributeMeta → List ℕ
ids_of = map (λ a. a.attribute_id)

-- `attrMap[attrID]`: the attribute that was stored last.
abbrev later_or : Option EavAttributeMeta → Bool → EavAttributeMeta → Option EavAttributeMeta
later_or (some later) here a = some later
later_or none true a = some a
later_or none false a = none

unfoldable pub meta_of : ℕ → List EavAttributeMeta → Option EavAttributeMeta
meta_of id [] = none
meta_of id (a ∷ as_) = later_or (meta_of id as_) (a.attribute_id == id) a

-- A value that is NULL cannot be scanned.
abbrev pub scanned : Text → Option Text → Action Text
scanned table none = within (scan_value table) (fail database)
scanned table (some v) = pure v

unfoldable pub scan_values :
    Text → List EavAttributeMeta → List EavValueRow → Action (List EavAttributeValue)
unfolding meta_of
scan_values table attributes [] = pure []
scan_values table attributes (r ∷ rs) = do
  value ← scanned table r.value
  meta ← deref (meta_of r.attribute_id attributes)
  rest ← scan_values table attributes rs
  pure (
      record {
        entity_id = r.entity_id;
        attribute_id = r.attribute_id;
        attribute_code = meta.attribute_code;
        value = value;
        frontend_input = meta.frontend_input;
      }
      ∷ rest)

unfoldable pub table_prefix : Text → Text
table_prefix entity_type =
    if text_eq entity_type (text "customer_address")
    then text "customer_address_entity"
    else text "customer_entity"

-- The loop over the backend types.
unfoldable pub values_of_types :
    Text → ℕ → List EavAttributeMeta → List Text → Action (List EavAttributeValue)
unfolding is_valid_backend scan_values
values_of_types prefix entity attributes [] = pure []
values_of_types prefix entity attributes (backend ∷ types) =
    let rest = values_of_types prefix entity attributes types in
    if is_valid_backend backend
    then (do
      let typed = select (of_type backend) attributes
      let table = prefix ++ (text "_" ++ backend)
      rows ← within (query_values table) (
          query (λ w.
            select (λ r. r.entity_id == entity && one_of (ids_of typed) r.attribute_id)
              (w.eav.values table)))
      values ← scan_values table typed rows
      later ← rest
      pure (values ++ later))
    else rest

module _ (env : Env) where
  abbrev pub is_custom : Text → EavAttributeRow → Bool
  is_custom entity_type r =
      env.collate r.entity_type_code entity_type
      && (r.is_user_defined == 1
          && (not (env.collate r.backend_type (text "static")) && shown r.is_visible))

  unfoldable pub load_attributes : Text → Action (List EavAttributeMeta)
  unfolding scan_attribute
  load_attributes entity_type = within (loading entity_type) (
      query (λ w.
        map scan_attribute
          (env.by_attribute_code (select (is_custom entity_type) w.eav.attributes))))

  abbrev pub kept_or :
      Option (List EavAttributeMeta)
      → Action (List EavAttributeMeta)
      → Action (List EavAttributeMeta)
  kept_or none load = load
  kept_or (some attributes) load = pure attributes

  abbrev pub keep_customer_attributes : List EavAttributeMeta → Action (Unit {0})
  keep_customer_attributes attributes =
      modify (λ w. record w { customer_attributes = some attributes })

  unfoldable pub fetch_customer_attributes : Action (List EavAttributeMeta)
  unfolding load_attributes
  fetch_customer_attributes = do
    attributes ← load_attributes (text "customer")
    keep_customer_attributes attributes
    pure attributes

  unfoldable pub get_customer_attributes : Action (List EavAttributeMeta)
  unfolding fetch_customer_attributes
  get_customer_attributes = do
    kept ← gets (λ w. w.customer_attributes)
    kept_or kept fetch_customer_attributes

  abbrev pub keep_address_attributes : List EavAttributeMeta → Action (Unit {0})
  keep_address_attributes attributes =
      modify (λ w. record w { address_attributes = some attributes })

  unfoldable pub fetch_address_attributes : Action (List EavAttributeMeta)
  unfolding load_attributes
  fetch_address_attributes = do
    attributes ← load_attributes (text "customer_address")
    keep_address_attributes attributes
    pure attributes

  unfoldable pub get_address_attributes : Action (List EavAttributeMeta)
  unfolding fetch_address_attributes
  get_address_attributes = do
    kept ← gets (λ w. w.address_attributes)
    kept_or kept fetch_address_attributes

  -- `getAttrsForType`
  unfoldable pub attributes_for_type : Text → Action (List EavAttributeMeta)
  unfolding get_customer_attributes get_address_attributes
  attributes_for_type entity_type =
      if text_eq entity_type (text "customer")
      then get_customer_attributes
      else get_address_attributes

  -- Nothing is read where there is no attribute.
  unfoldable pub values_of : Text → ℕ → List EavAttributeMeta → Action (List EavAttributeValue)
  unfolding values_of_types backend_types table_prefix
  values_of entity_type entity [] = pure []
  values_of entity_type entity (a ∷ as_) =
      values_of_types (table_prefix entity_type) entity (a ∷ as_)
        (env.map_order (backend_types (a ∷ as_)))

  unfoldable pub get_values_for_entity : Text → ℕ → Action (List EavAttributeValue)
  unfolding attributes_for_type values_of
  get_values_for_entity entity_type entity = do
    attributes ← attributes_for_type entity_type
    values_of entity_type entity attributes
