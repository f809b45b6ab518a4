-- ===== src/Repository/Orders/Unlabelled.antt =====
-- `loadStatusLabels` of internal/repository/order.go when its statement fails.
use magento2_customer_graphq.Base.{◌≡◌, true, none, arith}
use magento2_customer_graphq.Base.Text.{Text}
use magento2_customer_graphq.World.{World}
use magento2_customer_graphq.World.Monad.{ok, next_fault}
use magento2_customer_graphq.Repository.Orders.Labels.{get_status_label}

-- The labels are not loaded yet and the statement that loads them fails: the code of the status is
-- shown, and from then on the code of every status is, with no statement sent.
pub labels_never_loaded :
    (status : Text) (w : World)
    → w.status_labels ≡ none
    → next_fault w.faults ≡ true
    → (v : World) × (get_status_label status w ≡ (ok status, v))
      × ((later : Text) → get_status_label later v ≡ (ok later, v))
unfolding get_status_label
labels_never_loaded status w e f =
    ((get_status_label status w).1, ground arith, (λ later. ground arith))
