-- ===== src/Repository/Orders/Labels.antt =====
-- `GetStatusLabel` and `loadStatusLabels` of internal/repository/order.go.
use magento2_customer_graphq.Base.{Option, none, some, List, [], ◌∷◌, if◌then◌else◌}
use magento2_customer_graphq.Base.Text.{Text, text_eq}
use magento2_customer_graphq.World.{World}
use magento2_customer_graphq.World.Monad.{Action, ◌>>=◌, ◌>>◌, pure, gets, modify, query, attempt}

-- `statusLabels[status]`: the label that was stored last.
abbrev stored_or : Option Text → Text → Text
stored_or none s = s
stored_or (some later) s = later

abbrev found_label : Text → List (Text × Text) → Option Text
found_label status [] = none
found_label status ((s, label) ∷ labels) =
    let later = found_label status labels in
    if text_eq s status then some (stored_or later label) else later

-- The label, or the status itself where there is none.
abbrev pub label_of : List (Text × Text) → Text → Text
label_of labels status = stored_or (found_label status labels) status

-- The labels that a failed statement leaves.
abbrev read_or_none : Option (List (Text × Text)) → List (Text × Text)
read_or_none none = []
read_or_none (some labels) = labels

load_status_labels : Action (List (Text × Text))
load_status_labels = do
  read ← attempt (query (λ w. w.sales.status_labels))
  modify (λ w. record w { status_labels = some (read_or_none read) })
  pure (read_or_none read)

abbrev loaded_or : Option (List (Text × Text)) → Action (List (Text × Text))
loaded_or none = load_status_labels
loaded_or (some labels) = pure labels

unfoldable pub get_status_label : Text → Action Text
unfolding text_eq load_status_labels
get_status_label status = do
  kept ← gets (λ w. w.status_labels)
  labels ← loaded_or kept
  pure (label_of labels status)

-- The labels that are stored, none before they are loaded.
abbrev pub labels_in : World → List (Text × Text)
labels_in w = read_or_none w.status_labels
