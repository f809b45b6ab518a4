-- ===== src/Repository/Attributes/Options.antt =====
-- `GetOptionLabels` of internal/repository/eav_attribute.go.
use magento2_customer_graphq.Base.{ℕ, ◌&&◌, Option, none, some, List, [], ◌∷◌, ◌++◌, map, ◌==◌}
use magento2_customer_graphq.Base.Text.{Text}
use magento2_customer_graphq.Go.Strconv.{itoa}
use magento2_customer_graphq.Env.{Env}
use magento2_customer_graphq.Errors.{option_labels as labelling, database}
use magento2_customer_graphq.World.{World}
use magento2_customer_graphq.World.Attributes.{EavOptionRow, EavOptionLabelRow, EavOptionValue}
use magento2_customer_graphq.World.Monad.{Action, ◌>>=◌, pure, fail, within, query}
use magento2_customer_graphq.Repository.Sql.{select}

-- A LEFT JOIN: one row without a partner where there is none.
abbrev left_join : List Text → List (Option Text)
left_join [] = none ∷ []
left_join (s ∷ ss) = map (λ t. some t) (s ∷ ss)

abbrev labels_in_store : ℕ → ℕ → List EavOptionLabelRow → List Text
labels_in_store option store rows =
    map (λ r. r.value) (select (λ r. r.option_id == option && (r.store_id == store)) rows)

-- COALESCE(eaov_store.value, eaov_default.value) for each pair that is joined.
abbrev coalesced : List (Option Text) → List (Option Text) → List (Option Text)
coalesced [] defaults = []
coalesced (some s ∷ ss) defaults = map (λ _. some s) defaults ++ coalesced ss defaults
coalesced (none ∷ ss) defaults = defaults ++ coalesced ss defaults

-- The options of an attribute, each with its label in the store or by default.
unfoldable pub labelled : ℕ → List EavOptionLabelRow → List EavOptionRow → List (ℕ × Option Text)
unfolding select
labelled store rows [] = []
labelled store rows (o ∷ os) =
    map (λ label. (o.option_id, label))
      (coalesced (left_join (labels_in_store o.option_id store rows))
        (left_join (labels_in_store o.option_id 0 rows)))
    ++ labelled store rows os

-- A label that is NULL cannot be scanned.
unfoldable pub scan_options : List (ℕ × Option Text) → Action (List EavOptionValue)
scan_options [] = pure []
scan_options ((id, none) ∷ rows) = fail database
scan_options ((id, some label) ∷ rows) = do
  rest ← scan_options rows
  pure (record { option_id = id; value = itoa id; label = label } ∷ rest)

module _ (env : Env) where
  unfoldable pub option_rows : ℕ → ℕ → World → List (ℕ × Option Text)
  unfolding labelled
  option_rows attribute store w =
      labelled store w.eav.option_labels
        (env.by_sort_order (select (λ o. o.attribute_id == attribute) w.eav.options))

  unfoldable pub get_option_labels : ℕ → ℕ → Action (List EavOptionValue)
  unfolding option_rows scan_options
  get_option_labels attribute store = do
    rows ← within (labelling attribute) (query (option_rows attribute store))
    scan_options rows
