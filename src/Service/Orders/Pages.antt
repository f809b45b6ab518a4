-- ===== src/Service/Orders/Pages.antt =====
-- `GetOrders` of internal/service/orders.go: whose orders are on its pages, and how many.
use magento2_customer_graphq.Base.{
  ℕ, zero, suc, ◌-◌, ◌*◌, ◌^◌, append_assoc, ◌≤◌, ◌<◌, ◌≡◌, refl, ap, sym, ◌∙◌, Bool, true, Option,
  List, [], ◌∷◌, ◌++◌, map, length, take, drop, length-take, All, Bool-cases, inl, inr, arith,
}
use mathlib.Core.List.{Permᴰ}
use mathlib.Core.Path.{subst}
use magento2_customer_graphq.Base.Text.{Text}
use magento2_customer_graphq.Env.{Env}
use magento2_customer_graphq.World.{World}
use magento2_customer_graphq.World.Orders.{Sales, OrderData}
use magento2_customer_graphq.World.Monad.{ok}
use magento2_customer_graphq.Model.Orders.{
  CustomerOrdersFilterInput, CustomerOrderSortInput, CustomerOrders,
}
use magento2_customer_graphq.Repository.Sql.{select}
use magento2_customer_graphq.Repository.Orders.{
  OrderFilter, OrderSort, sort_field, sort_direction, offset, offset-suc,
}
use magento2_customer_graphq.Repository.Orders.Conditions.{
  matches, matching, meets_all, page_of, conditions, skip,
}
use magento2_customer_graphq.Repository.Orders.Labels.{labels_in}
use magento2_customer_graphq.Go.Int.{ℤ, pos, negsuc}
use magento2_customer_graphq.Service.Addresses.Pages.{page}
use magento2_customer_graphq.Service.Orders.{map_filter, map_sort}
use magento2_customer_graphq.Service.Orders.Listing.{get_orders, order_ids}
use magento2_customer_graphq.Service.Orders.Reference.{order_of, result_of}
use magento2_customer_graphq.Service.Orders.Refinement.{get_orders-result_of}

-- ORDER BY only changes the order of the rows.
abbrev pub Reorders : Env → Type 0
Reorders env =
    (column direction : Text) (rows : List OrderData)
    → Permᴰ (env.order_by column direction rows) rows

abbrev nil_of : {A : Type 0} → List A
nil_of = []

module _ {A : Type 0} where
  length-perm : {xs ys : List A} → Permᴰ xs ys → length xs ≡ length ys
  length-perm Permᴰ.nil = refl
  length-perm (Permᴰ.cons e d) = ap suc (length-perm d)
  length-perm (Permᴰ.swap e e') = refl
  length-perm (Permᴰ.trans d d') = length-perm d ∙ length-perm d'

  module _ (P : A → Type 0) where
    All-perm : {xs ys : List A} → Permᴰ xs ys → All P ys → All P xs
    All-perm Permᴰ.nil h = tt
    All-perm (Permᴰ.cons e d) (h, hs) = (subst P (sym e) h, All-perm d hs)
    All-perm (Permᴰ.swap e e') (h, (h', hs)) = (subst P (sym e) h', (subst P (sym e') h, hs))
    All-perm (Permᴰ.trans d d') h = All-perm d (All-perm d' h)

    All-take : (n : ℕ) (xs : List A) → All P xs → All P (take n xs)
    All-take zero xs h = tt
    All-take (suc n) [] h = tt
    All-take (suc n) (x ∷ xs) (h, hs) = (h, All-take n xs hs)

    All-drop : (n : ℕ) (xs : List A) → All P xs → All P (drop n xs)
    All-drop zero xs h = h
    All-drop (suc n) [] h = tt
    All-drop (suc n) (x ∷ xs) (h, hs) = All-drop n xs hs

    All-skip : (n : ℤ) (xs : List A) → All P xs → All P (skip n xs)
    All-skip (pos n) xs h = All-drop n xs h
    All-skip (negsuc n) xs h = tt

  -- A row stands in a table.
  abbrev pub IsIn : List A → A → Type 0
  IsIn rs r = (before after : List A) × (rs ≡ before ++ r ∷ after)

  select-All :
      (p : A → Bool) (before rs : List A)
      → All (λ r. (p r ≡ true) × IsIn (before ++ rs) r) (select p rs)
  unfolding select
  select-All p before [] = tt
  select-All p before (r ∷ rs) =
      let rest =
        subst (λ t. All (λ r. (p r ≡ true) × IsIn t r) (select p rs))
          (append_assoc before (r ∷ []) rs) (select-All p (before ++ r ∷ []) rs) in
      elim (Bool-cases (p r)) [ inl e ↦ rw e ((e, (before, rs, refl)), rest) | inr e ↦ rw e rest ]

  take-nothing : (n : ℕ) → take n (nil_of {A = A}) ≡ []
  take-nothing zero = refl
  take-nothing (suc n) = refl

  drop-past : (n : ℕ) (xs : List A) → length xs ≤ n → drop n xs ≡ []
  drop-past zero [] h = refl
  drop-past zero (x ∷ xs) h = absurd (omega arith)
  drop-past (suc n) [] h = refl
  drop-past (suc n) (x ∷ xs) h = drop-past n xs (omega arith)

  skip-past :
      (p size : ℕ) (xs : List A)
      → (p - 1) * size < 2 ^ 63
      → length xs ≤ (p - 1) * size
      → skip (offset p size) xs ≡ []
  unfolding offset
  skip-past zero zero xs b h = drop-past 0 xs (omega arith)
  skip-past zero (suc size) xs b h = refl
  skip-past (suc n) size xs b h =
      let same : (suc n - 1 ≡ n) = omega arith in
      rw (offset-suc n size (rw same at b)) (drop-past (n * size) xs (rw same at h))

module _ (env : Env) (reorders : Reorders env) (customer : ℕ) (filter : Option OrderFilter)
    (sort : Option OrderSort) (s : Sales) where
  abbrev sorted : List OrderData
  sorted = env.order_by (sort_field sort) (sort_direction sort) (matches env customer filter s)

  length-sorted : length sorted ≡ length (matches env customer filter s)
  length-sorted = length-perm (reorders _ _ _)

  sorted-matching : All (λ o. (matching env customer filter o ≡ true) × IsIn s.orders o) sorted
  sorted-matching =
      All-perm _ (reorders _ _ _) (select-All (matching env customer filter) [] s.orders)

  page_of-matching :
      (p size : ℕ)
      → All
          (λ o. (matching env customer filter o ≡ true) × IsIn s.orders o)
          (page_of env customer filter sort p size s)
  page_of-matching p size = All-take _ size _ (All-skip _ (offset p size) sorted sorted-matching)

  page_of_past :
      (p size : ℕ)
      → (p - 1) * size < 2 ^ 63
      → length (matches env customer filter s) ≤ (p - 1) * size
      → page_of env customer filter sort p size s ≡ []
  page_of_past p size b h =
      ap (take size) (skip-past p size sorted b (omega (arith, length-sorted))) ∙ take-nothing size

  length-page_of : (p size : ℕ) → length (page_of env customer filter sort p size s) ≤ size
  length-page_of p size = omega (arith, length-take size (skip (offset p size) sorted))

  -- The orders of the pages from 1 to `n`.
  abbrev pub on_pages : ℕ → ℕ → List OrderData
  on_pages zero size = []
  on_pages (suc n) size = on_pages n size ++ page_of env customer filter sort (suc n) size s

-- The orders that a result is made of.
abbrev pub ListsOwn :
    Env → World → World → ℕ → Option CustomerOrdersFilterInput → ℕ → CustomerOrders → Type 0
ListsOwn env w v customer filter size r =
    (os : List OrderData) × (r.items ≡ map (order_of env w.sales (labels_in v) (order_ids os)) os)
    × All
        (λ o.
          (o.customer_id ≡ customer)
          × (meets_all env o (conditions (map_filter filter)) ≡ true)
          × IsIn w.sales.orders o)
        os
    × (length os ≤ size)

items-result_of :
    (env : Env) (s : Sales) (labels : List (Text × Text)) (page size : ℕ) (os : List OrderData)
    (total : ℕ)
    → (result_of env s labels page size os total).items
      ≡ map (order_of env s labels (order_ids os)) os
items-result_of env s labels page size [] total = refl
items-result_of env s labels page size (o ∷ os) total = refl

module _ (env : Env) (reorders : Reorders env) (customer : ℕ)
    (filter : Option CustomerOrdersFilterInput) (sort : Option CustomerOrderSortInput)
    (page size : ℕ) (w : World) (r : CustomerOrders) (v : World) where
  matching_own :
      (os : List OrderData)
      → All (λ o. (matching env customer (map_filter filter) o ≡ true) × IsIn w.sales.orders o) os
      → All
          (λ o.
            (o.customer_id ≡ customer)
            × (meets_all env o (conditions (map_filter filter)) ≡ true)
            × IsIn w.sales.orders o)
          os
  matching_own [] h = tt
  matching_own (o ∷ os) ((h, i), hs) = ((ground arith, ground arith, i), matching_own os hs)

  -- Where ORDER BY only reorders, and whatever statement fails: the orders that are returned are
  -- at most as many as a page holds, each is a row of the table, the caller's own, and meets the
  -- filter, and each is shown with what the tables hold of it.
  pub get_orders-ListsOwn :
      get_orders env customer filter sort page size w ≡ (ok r, v)
      → ListsOwn env w v customer filter size r
  get_orders-ListsOwn h =
      let f = map_filter filter in
      let os = page_of env customer f (map_sort sort) page size w.sales in
      let (_, e) = get_orders-result_of env customer filter sort page size w r v h in
      (
        os,
        ap (λ x. x.items) e ∙ items-result_of env w.sales (labels_in v) page size os _,
        matching_own os
            (page_of-matching env reorders customer f (map_sort sort) w.sales page size),
        length-page_of env reorders customer f (map_sort sort) w.sales page size,
      )

  -- Where ORDER BY only reorders: if a page past the last one is returned, and it begins within the
  -- integers of 64 bits, its number of orders in all and its number of pages are 0, however many
  -- orders match.
  pub page_past_last :
      (page - 1) * size < 2 ^ 63
      → length (matches env customer (map_filter filter) w.sales) ≤ (page - 1) * size
      → get_orders env customer filter sort page size w ≡ (ok r, v)
      → (r.items ≡ []) × (r.total_count ≡ 0) × (r.total_pages ≡ pos 0)
  page_past_last b past h =
      let nothing =
        page_of_past env reorders customer (map_filter filter) (map_sort sort) w.sales page size b
          past in
      let (_, e) = get_orders-result_of env customer filter sort page size w r v h in
      rw (rw nothing at e) (refl, refl, refl)
