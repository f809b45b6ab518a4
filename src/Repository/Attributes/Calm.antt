-- ===== src/Repository/Attributes/Calm.antt =====
-- internal/repository/eav_attribute.go never dereferences a nil attribute.
use magento2_customer_graphq.Base.{
  ℕ, ◌≡◌, refl, Bool, true, false, ◌&&◌, Option, none, some, List, [], ◌∷◌, ◌++◌, ◌==◌,
  if◌then◌else◌, All, Bool-cases, Option-cases, inl, inr, arith,
}
use mathlib.Core.Path.{subst}
use mathlib.Core.Path.{sym}
use magento2_customer_graphq.Base.Text.{Text, text, text_eq}
use magento2_customer_graphq.Env.{Env}
use magento2_customer_graphq.Errors.{query_values, database, option_labels as labelling}
use magento2_customer_graphq.World.{World}
use magento2_customer_graphq.World.Attributes.{EavAttributeMeta, EavValueRow}
use magento2_customer_graphq.World.Monad.{Action, pure, within, query, deref, fail, gets}
use magento2_customer_graphq.World.Monad.Calm.{
  IsCalm, >>=-IsCalm, >>=-IsCalm_of, pure-IsCalm, fail-IsCalm, within-IsCalm, query-IsCalm,
  gets-IsCalm, modify-IsCalm, query-eq-ok,
}
use magento2_customer_graphq.Repository.Sql.{select}
use magento2_customer_graphq.Repository.Orders.Parts.{one_of}
use magento2_customer_graphq.Repository.Attributes.{
  ids_of, of_type, meta_of, scanned, scan_values, values_of_types, values_of, is_valid_backend,
  load_attributes, get_customer_attributes, get_address_attributes, attributes_for_type,
  get_values_for_entity, kept_or, fetch_customer_attributes, fetch_address_attributes,
  keep_customer_attributes, keep_address_attributes,
}
use magento2_customer_graphq.Repository.Attributes.Options.{
  scan_options, get_option_labels, option_rows,
}

-- An attribute whose id was asked for is in the map.
meta_of_listed :
    (id : ℕ) (attributes : List EavAttributeMeta)
    → one_of (ids_of attributes) id ≡ true
    → (m : EavAttributeMeta) × (meta_of id attributes ≡ some m)
unfolding meta_of
meta_of_listed id [] h = cc
meta_of_listed id (a ∷ attributes) h = elim (Option-cases (meta_of id attributes)) [
  | inr (m, e) ↦ (m, rw e refl)
  | inl e ↦ elim (Bool-cases (a.attribute_id == id)) [
    | inl here ↦ (a, rw (e, here) refl)
    | inr away ↦ let (m, e') = meta_of_listed id attributes (ground arith) in absurd (ground arith)
  ]
]

select-All : {A : Type 0} (p : A → Bool) (rs : List A) → All (λ r. p r ≡ true) (select p rs)
unfolding select
select-All p [] = tt
select-All p (r ∷ rs) = elim (Bool-cases (p r)) [
  | inl e ↦ rw e (e, select-All p rs)
  | inr e ↦ rw e (select-All p rs)
]

scanned-IsCalm : (table : Text) (v : Option Text) → IsCalm (scanned table v)
scanned-IsCalm table none = within-IsCalm _ (fail database) (fail-IsCalm database)
scanned-IsCalm table (some v) = pure-IsCalm v

deref-IsCalm : {A : Type 0} (o : Option A) (a : A) → o ≡ some a → IsCalm (deref o)
deref-IsCalm none a h w = cc
deref-IsCalm (some b) a h w = λ p. cc

pub either-IsCalm :
    {A : Type 0} (c : Bool) (m k : Action A) → IsCalm m → IsCalm k → IsCalm (if c then m else k)
either-IsCalm true m k h h' = h
either-IsCalm false m k h h' = h'

-- The rows of attributes that were asked for.
abbrev Asked : ℕ → List EavAttributeMeta → EavValueRow → Type 0
Asked entity attributes r =
    (r.entity_id == entity && one_of (ids_of attributes) r.attribute_id) ≡ true

scan_values-IsCalm :
    (table : Text) (entity : ℕ) (attributes : List EavAttributeMeta) (rs : List EavValueRow)
    → All (Asked entity attributes) rs
    → IsCalm (scan_values table attributes rs)
unfolding scan_values
scan_values-IsCalm table entity attributes [] h = pure-IsCalm []
scan_values-IsCalm table entity attributes (r ∷ rs) (h, hs) =
    let (m, e) = meta_of_listed r.attribute_id attributes (ground arith) in
    >>=-IsCalm _ _ (scanned-IsCalm table r.value) λ value.
      >>=-IsCalm _ _ (deref-IsCalm (meta_of r.attribute_id attributes) m e) λ meta.
        >>=-IsCalm _ _ (scan_values-IsCalm table entity attributes rs hs) λ rest. pure-IsCalm _

values_of_types-IsCalm :
    (prefix : Text) (entity : ℕ) (attributes : List EavAttributeMeta) (types : List Text)
    → IsCalm (values_of_types prefix entity attributes types)
unfolding values_of_types
values_of_types-IsCalm prefix entity attributes [] = pure-IsCalm []
values_of_types-IsCalm prefix entity attributes (backend ∷ types) =
    elim (Bool-cases (is_valid_backend backend)) [
      | inl e ↦
          let typed = select (of_type backend) attributes in
          let table = prefix ++ (text "_" ++ backend) in
          let rows = λ (w : World).
            select (λ r. r.entity_id == entity && one_of (ids_of typed) r.attribute_id)
              (w.eav.values table) in
          rw e (
            >>=-IsCalm_of (within (query_values table) (query rows)) _
              (within-IsCalm (query_values table) (query rows) (query-IsCalm rows))
              λ w rs q.
                >>=-IsCalm _ _
                  (scan_values-IsCalm table entity typed rs (
                    let (v, e') = query-eq-ok (query_values table) rows w rs q in
                    subst (All (Asked entity typed)) (sym e') (select-All _ (v.eav.values table))))
                  λ values.
                    >>=-IsCalm _ _ (values_of_types-IsCalm prefix entity attributes types)
                      λ later. pure-IsCalm _)
      | inr e ↦ rw e (values_of_types-IsCalm prefix entity attributes types)
    ]

scan_options-IsCalm : (rows : List (ℕ × Option Text)) → IsCalm (scan_options rows)
unfolding scan_options
scan_options-IsCalm [] = pure-IsCalm []
scan_options-IsCalm ((id, none) ∷ rows) = fail-IsCalm database
scan_options-IsCalm ((id, some label) ∷ rows) =
    >>=-IsCalm _ _ (scan_options-IsCalm rows) λ rest. pure-IsCalm _

module _ (env : Env) where
  load_attributes-IsCalm : (entity_type : Text) → IsCalm (load_attributes env entity_type)
  unfolding load_attributes
  load_attributes-IsCalm entity_type = within-IsCalm _ (query _) (query-IsCalm _)

  kept_or-IsCalm :
      (kept : Option (List EavAttributeMeta)) (load : Action (List EavAttributeMeta))
      → IsCalm load
      → IsCalm (kept_or env kept load)
  kept_or-IsCalm none load h = h
  kept_or-IsCalm (some attributes) load h = pure-IsCalm attributes

  fetch_customer_attributes-IsCalm : IsCalm (fetch_customer_attributes env)
  unfolding fetch_customer_attributes
  fetch_customer_attributes-IsCalm =
      >>=-IsCalm (load_attributes env (text "customer")) _
        (load_attributes-IsCalm (text "customer"))
        λ attributes.
          >>=-IsCalm (keep_customer_attributes env attributes) (λ _. pure attributes)
            (modify-IsCalm (λ w. record w { customer_attributes = some attributes }))
            λ _. pure-IsCalm attributes

  pub get_customer_attributes-IsCalm : IsCalm (get_customer_attributes env)
  unfolding get_customer_attributes
  get_customer_attributes-IsCalm =
      >>=-IsCalm (gets (λ w. w.customer_attributes))
        (λ kept. kept_or env kept (fetch_customer_attributes env))
        (gets-IsCalm (λ w. w.customer_attributes))
        λ kept. kept_or-IsCalm kept (fetch_customer_attributes env) fetch_customer_attributes-IsCalm

  fetch_address_attributes-IsCalm : IsCalm (fetch_address_attributes env)
  unfolding fetch_address_attributes
  fetch_address_attributes-IsCalm =
      >>=-IsCalm (load_attributes env (text "customer_address")) _
        (load_attributes-IsCalm (text "customer_address"))
        λ attributes.
          >>=-IsCalm (keep_address_attributes env attributes) (λ _. pure attributes)
            (modify-IsCalm (λ w. record w { address_attributes = some attributes }))
            λ _. pure-IsCalm attributes

  pub get_address_attributes-IsCalm : IsCalm (get_address_attributes env)
  unfolding get_address_attributes
  get_address_attributes-IsCalm =
      >>=-IsCalm (gets (λ w. w.address_attributes))
        (λ kept. kept_or env kept (fetch_address_attributes env))
        (gets-IsCalm (λ w. w.address_attributes))
        λ kept. kept_or-IsCalm kept (fetch_address_attributes env) fetch_address_attributes-IsCalm

  attributes_for_type-IsCalm : (entity_type : Text) → IsCalm (attributes_for_type env entity_type)
  unfolding attributes_for_type
  attributes_for_type-IsCalm entity_type =
      either-IsCalm (text_eq entity_type (text "customer")) _ _ get_customer_attributes-IsCalm
        get_address_attributes-IsCalm

  values_of-IsCalm :
      (entity_type : Text) (entity : ℕ) (attributes : List EavAttributeMeta)
      → IsCalm (values_of env entity_type entity attributes)
  unfolding values_of
  values_of-IsCalm entity_type entity [] = pure-IsCalm []
  values_of-IsCalm entity_type entity (a ∷ as_) = values_of_types-IsCalm _ entity (a ∷ as_) _

  pub get_values_for_entity-IsCalm :
      (entity_type : Text) (entity : ℕ) → IsCalm (get_values_for_entity env entity_type entity)
  unfolding get_values_for_entity
  get_values_for_entity-IsCalm entity_type entity =
      >>=-IsCalm _ _ (attributes_for_type-IsCalm entity_type)
        λ attributes. values_of-IsCalm entity_type entity attributes

  pub get_option_labels-IsCalm : (id store : ℕ) → IsCalm (get_option_labels env id store)
  unfolding get_option_labels
  get_option_labels-IsCalm id store =
      >>=-IsCalm (within (labelling id) (query (option_rows env id store))) _
        (within-IsCalm (labelling id) (query (option_rows env id store))
          (query-IsCalm (option_rows env id store)))
        λ rows. scan_options-IsCalm rows
