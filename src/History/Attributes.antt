-- ===== src/History/Attributes.antt =====
-- Custom attributes leave `customer_address_entity` and `customer_entity` alone.
use magento2_customer_graphq.Base.{
  ℕ, refl, Bool, true, false, ◌&&◌, Option, none, some, List, [], ◌∷◌, ◌++◌, arith, ◌==◌,
  if◌then◌else◌,
}
use magento2_customer_graphq.Base.Text.{Text, text, text_eq}
use magento2_customer_graphq.Errors.{attribute_not_found, query_values, option_labels as labelling}
use magento2_customer_graphq.World.{World}
use magento2_customer_graphq.World.Attributes.{EavAttributeMeta, EavAttributeValue, EavValueRow}
use magento2_customer_graphq.World.Monad.{Action, fail_if, within, query, attempt, deref}
use magento2_customer_graphq.World.Monad.Frame.{Keeps, deref-Keeps}
use magento2_customer_graphq.Env.{Env}
use magento2_customer_graphq.Repository.Sql.{select}
use magento2_customer_graphq.Repository.Orders.Parts.{one_of}
use magento2_customer_graphq.Repository.Attributes.{
  ids_of, of_type, meta_of, scanned, scan_values, values_of_types, values_of, is_valid_backend,
  load_attributes, get_customer_attributes, get_address_attributes, attributes_for_type,
  get_values_for_entity, fetch_customer_attributes, fetch_address_attributes,
}
use magento2_customer_graphq.Repository.Attributes.Options.{
  scan_options, get_option_labels, option_rows,
}
use magento2_customer_graphq.Service.Attributes.{
  resolve_select_options, show_value, show_values, get_custom_attributes, is_filtered, id_of_code,
  or_none,
}
use magento2_customer_graphq.History.Statements.{the_rows, reads, then_reads}

scanned-Keeps : (table : Text) (v : Option Text) → Keeps the_rows (scanned table v)
scanned-Keeps table none = λ w. refl
scanned-Keeps table (some v) = λ w. refl

scan_values-Keeps :
    (table : Text) (as_ : List EavAttributeMeta) (rs : List EavValueRow)
    → Keeps the_rows (scan_values table as_ rs)
unfolding scan_values
scan_values-Keeps table as_ [] = λ w. refl
scan_values-Keeps table as_ (r ∷ rs) =
    reads (scanned table r.value) _ (scanned-Keeps table r.value) λ value.
      reads (deref (meta_of r.attribute_id as_)) _ (deref-Keeps the_rows _)
        λ meta. reads (scan_values table as_ rs) _ (scan_values-Keeps table as_ rs) λ rest w. refl

either-Keeps :
    {A : Type 0} (c : Bool) (m k : Action A)
    → Keeps the_rows m
    → Keeps the_rows k
    → Keeps the_rows (if c then m else k)
either-Keeps true m k h h' = h
either-Keeps false m k h h' = h'

values_of_types-Keeps :
    (prefix : Text) (entity : ℕ) (as_ : List EavAttributeMeta) (types : List Text)
    → Keeps the_rows (values_of_types prefix entity as_ types)
unfolding values_of_types
values_of_types-Keeps prefix entity as_ [] = λ w. refl
values_of_types-Keeps prefix entity as_ (backend ∷ types) =
    let typed = select (of_type backend) as_ in
    let table = prefix ++ (text "_" ++ backend) in
    let read = λ (w : World).
      select (λ r. r.entity_id == entity && one_of (ids_of typed) r.attribute_id)
        (w.eav.values table) in
    let rest = values_of_types-Keeps prefix entity as_ types in
    either-Keeps (is_valid_backend backend) _ _
      (reads (within (query_values table) (query read)) _ (λ w. ground arith)
        λ rows.
          reads (scan_values table typed rows) _ (scan_values-Keeps table typed rows)
            λ values. reads (values_of_types prefix entity as_ types) _ rest λ later w. refl)
      rest

scan_options-Keeps : (rows : List (ℕ × Option Text)) → Keeps the_rows (scan_options rows)
unfolding scan_options
scan_options-Keeps [] = λ w. refl
scan_options-Keeps ((id, none) ∷ rows) = λ w. refl
scan_options-Keeps ((id, some label) ∷ rows) =
    reads (scan_options rows) _ (scan_options-Keeps rows) λ rest w. refl

module _ (env : Env) where
  customer_attributes-Keeps : Keeps the_rows (get_customer_attributes env)
  unfolding get_customer_attributes fetch_customer_attributes load_attributes
  customer_attributes-Keeps w = ground arith

  address_attributes-Keeps : Keeps the_rows (get_address_attributes env)
  unfolding get_address_attributes fetch_address_attributes load_attributes
  address_attributes-Keeps w = ground arith

  values_of-Keeps :
      (entity_type : Text) (entity : ℕ) (as_ : List EavAttributeMeta)
      → Keeps the_rows (values_of env entity_type entity as_)
  unfolding values_of
  values_of-Keeps entity_type entity [] = λ w. refl
  values_of-Keeps entity_type entity (a ∷ as_) = values_of_types-Keeps _ entity (a ∷ as_) _

  get_values_for_entity-Keeps :
      (entity_type : Text) (entity : ℕ)
      → Keeps the_rows (get_values_for_entity env entity_type entity)
  unfolding get_values_for_entity attributes_for_type
  get_values_for_entity-Keeps entity_type entity =
      reads
        (if text_eq entity_type (text "customer")
          then get_customer_attributes env
          else get_address_attributes env)
        _
        (either-Keeps (text_eq entity_type (text "customer")) _ _ customer_attributes-Keeps
          address_attributes-Keeps)
        (values_of-Keeps entity_type entity)

  get_option_labels-Keeps : (id store : ℕ) → Keeps the_rows (get_option_labels env id store)
  unfolding get_option_labels
  get_option_labels-Keeps id store =
      reads (within (labelling id) (query (option_rows env id store))) _ (λ w. ground arith)
        scan_options-Keeps

  resolve_select_options-Keeps :
      (entity_type : Text) (v : EavAttributeValue) (store : ℕ)
      → Keeps the_rows (resolve_select_options env entity_type v store)
  unfolding resolve_select_options
  resolve_select_options-Keeps entity_type v store =
      reads
        (if text_eq entity_type (text "customer_address")
          then get_address_attributes env
          else get_customer_attributes env)
        _
        (either-Keeps (text_eq entity_type (text "customer_address")) _ _ address_attributes-Keeps
          customer_attributes-Keeps)
        λ as_.
          let id = id_of_code v.attribute_code as_ in
          then_reads (fail_if (id == 0) attribute_not_found) _ (λ w. refl)
            (reads (get_option_labels env id store) _ (get_option_labels-Keeps id store)
              λ options w. refl)

  show_value-Keeps :
      (entity_type : Text) (v : EavAttributeValue) → Keeps the_rows (show_value env entity_type v)
  unfolding show_value
  show_value-Keeps entity_type v w =
      ground (arith, resolve_select_options-Keeps entity_type v env.store_id w)

  show_values-Keeps :
      (entity_type : Text) (codes : List Text) (vs : List EavAttributeValue)
      → Keeps the_rows (show_values env entity_type codes vs)
  unfolding show_values
  show_values-Keeps entity_type codes [] = λ w. refl
  show_values-Keeps entity_type codes (v ∷ vs) =
      either-Keeps (is_filtered codes v.attribute_code) _ _ (show_values-Keeps entity_type codes vs)
        (reads (show_value env entity_type v) _ (show_value-Keeps entity_type v) λ first.
          reads (show_values env entity_type codes vs) _ (show_values-Keeps entity_type codes vs)
            λ more w. refl)

  pub get_custom_attributes-Keeps :
      (entity_type : Text) (entity : ℕ) (codes : List Text)
      → Keeps the_rows (get_custom_attributes env entity_type entity codes)
  unfolding get_custom_attributes
  get_custom_attributes-Keeps entity_type entity codes =
      reads (attempt (get_values_for_entity env entity_type entity)) _
        (get_values_for_entity-Keeps entity_type entity)
        λ values. show_values-Keeps entity_type codes (or_none env values)
