-- ===== src/Service/Orders/Loading.antt =====
-- `GetOrders` of internal/service/orders.go: the maps that it builds, as a function of the tables.
use magento2_customer_graphq.Base.{ℕ, ◌≡◌, refl, ◌∙◌, List, [], ◌∷◌}
use magento2_customer_graphq.Env.{Env}
use magento2_customer_graphq.World.{World}
use magento2_customer_graphq.World.Orders.{Sales, OrderData}
use magento2_customer_graphq.World.Monad.{Action, ok, ◌>>=◌, within}
use magento2_customer_graphq.World.Monad.Reads.{
  Reads, pure-Reads, within-Reads, sales_of, read_first,
}
use magento2_customer_graphq.Errors.{
  Context, items, addresses, payments, invoices, invoice_items, shipments, shipment_items,
  shipment_tracks, credit_memos, credit_memo_items, comments,
}
use magento2_customer_graphq.Repository.Orders.Parts.{Groups, values_at}
use magento2_customer_graphq.Repository.Orders.Loads.{
  loaded_items, loaded_addresses, loaded_payments, loaded_invoices, loaded_shipments,
  loaded_credit_memos, loaded_comments, loaded_invoice_items, loaded_shipment_items,
  loaded_shipment_tracks, loaded_credit_memo_items, get_items-Reads, get_addresses-Reads,
  get_payments-Reads, get_invoices-Reads, get_shipments-Reads, get_credit_memos-Reads,
  get_comments-Reads, get_invoice_items-Reads, get_shipment_items-Reads, get_shipment_tracks-Reads,
  get_credit_memo_items-Reads,
}
use magento2_customer_graphq.Service.Orders.Listing.{Parts, ids_in, load_some, load_parts}

module _ {A B R : Type 0} (s : Sales) {b : B} {v : World} where
  -- To prove something of a chain that begins with a load, take the rest on what was read of `s`.
  load_first :
      (c : Context) (m : Action A) (k : A → Action B) (f : Sales → A) (w : World)
      → Reads sales_of m f
      → w.sales ≡ s
      → (within c m >>= k) w ≡ (ok b, v)
      → ((u : World) → u.sales ≡ s → k (f s) u ≡ (ok b, v) → R)
      → R
  load_first c m k f w hm e h rest =
      let (u, e', h') =
        read_first sales_of (within c m) k f s w (within-Reads sales_of c m f hm) e h in
      rest u e' h'

module _ {A B R : Type 0} (s : Sales) {b : B} {v : World} where
  -- The same for a load that is left out for no ids.
  load_some_first :
      (c : Context) (f : List ℕ → Sales → Groups A) (ids : List ℕ) (m : Action (Groups A))
      (k : Groups A → Action B) (w : World)
      → f [] s ≡ []
      → Reads sales_of m (f ids)
      → w.sales ≡ s
      → (load_some ids (within c m) >>= k) w ≡ (ok b, v)
      → ((u : World) → u.sales ≡ s → k (f ids s) u ≡ (ok b, v) → R)
      → R
  load_some_first c f [] m k w nothing hm e h rest = rest w e (rw nothing h)
  load_some_first c f (i ∷ is) m k w nothing hm e h rest =
      load_first s c m k (f (i ∷ is)) w hm e h rest

abbrev pub invoice_ids : List ℕ → Sales → List ℕ
invoice_ids ids s = ids_in (λ i. i.entity_id) (loaded_invoices ids s)

abbrev pub shipment_ids : List ℕ → Sales → List ℕ
shipment_ids ids s = ids_in (λ i. i.entity_id) (loaded_shipments ids s)

abbrev pub memo_ids : List ℕ → Sales → List ℕ
memo_ids ids s = ids_in (λ i. i.entity_id) (loaded_credit_memos ids s)

module _ (env : Env) where
  -- What `load_parts` makes of the tables.
  abbrev pub raw_parts : List ℕ → Sales → OrderData → Parts
  raw_parts ids s o = record {
    items = values_at o.entity_id (loaded_items ids s);
    addresses = values_at o.entity_id (loaded_addresses ids s);
    payments = values_at o.entity_id (loaded_payments ids s);
    invoices = values_at o.entity_id (loaded_invoices ids s);
    invoice_items = λ id. values_at id (loaded_invoice_items (invoice_ids ids s) s);
    shipments = values_at o.entity_id (loaded_shipments ids s);
    shipment_items = λ id. values_at id (loaded_shipment_items (shipment_ids ids s) s);
    shipment_tracks = λ id. values_at id (loaded_shipment_tracks (shipment_ids ids s) s);
    credit_memos = values_at o.entity_id (loaded_credit_memos ids s);
    credit_memo_items = λ id. values_at id (loaded_credit_memo_items (memo_ids ids s) s);
    comments = values_at o.entity_id (loaded_comments env ids s);
  }

  pub load_parts-Reads : (ids : List ℕ) → Reads sales_of (load_parts env ids) (raw_parts ids)
  unfolding load_parts
  load_parts-Reads ids w p v h =
      let s = w.sales in
      load_first s items _ _ (loaded_items ids) w (get_items-Reads ids) refl h λ _ e h.
        load_first s addresses _ _ (loaded_addresses ids) _ (get_addresses-Reads ids) e h λ _ e h.
          load_first s payments _ _ (loaded_payments ids) _ (get_payments-Reads ids) e h λ _ e h.
            load_first s invoices _ _ (loaded_invoices ids) _ (get_invoices-Reads ids) e h λ _ e h.
              load_first s shipments _ _ (loaded_shipments ids) _ (get_shipments-Reads ids) e h
                λ _ e h.
                  load_first s credit_memos _ _ (loaded_credit_memos ids) _
                    (get_credit_memos-Reads ids) e h
                    λ _ e h.
                      load_first s comments _ _ (loaded_comments env ids) _
                        (get_comments-Reads env ids) e h
                        λ _ e h.
                          load_some_first s invoice_items loaded_invoice_items (invoice_ids ids s) _
                            _ _ refl (get_invoice_items-Reads (invoice_ids ids s)) e h
                            λ _ e h.
                              load_some_first s shipment_items loaded_shipment_items
                                (shipment_ids ids s) _ _ _ refl
                                (get_shipment_items-Reads (shipment_ids ids s)) e h
                                λ _ e h.
                                  load_some_first s shipment_tracks loaded_shipment_tracks
                                    (shipment_ids ids s) _ _ _ refl
                                    (get_shipment_tracks-Reads (shipment_ids ids s)) e h
                                    λ _ e h.
                                      load_some_first s credit_memo_items loaded_credit_memo_items
                                        (memo_ids ids s) _ _ _ refl
                                        (get_credit_memo_items-Reads (memo_ids ids s)) e h
                                        λ u e h.
                                          let (value, same) = pure-Reads sales_of _ u p v h in
                                          (value, same ∙ e)
