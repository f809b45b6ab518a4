-- ===== src/Repository/Orders/Grouping.antt =====
-- Each load of internal/repository/order.go puts every row under the id that it belongs to.
use magento2_customer_graphq.Base.{
  ℕ, ◌≡◌, refl, sym, ◌∙◌, Bool, true, List, [], ◌∷◌, ◌++◌, append_assoc, append-nil, ◌==◌,
  if◌then◌else◌, Bool-cases, inl, inr, arith,
}
use magento2_customer_graphq.Errors.{Context}
use magento2_customer_graphq.World.Orders.{Sales, SalesTable}
use magento2_customer_graphq.World.Monad.Reads.{
  Reads, pure-Reads, within-Reads, query-Reads, >>=-Reads, sales_of,
}
use magento2_customer_graphq.Repository.Orders.Scanning.{scan_rows-Reads}
use magento2_customer_graphq.Repository.Sql.{select}
use magento2_customer_graphq.Repository.Orders.Parts.{
  one_of, Groups, values_at, add_to, group_from, load,
}

module _ {A : Type 0} where
  values_at-add_to :
      (j id : ℕ) (x : A) (m : Groups A)
      → values_at j (add_to id x m) ≡ (if id == j then values_at j m ++ x ∷ [] else values_at j m)
  unfolding values_at add_to
  values_at-add_to j id x [] = ground arith
  values_at-add_to j id x ((k, xs) ∷ m) = ground (arith, values_at-add_to j id x m)

  -- The rows under an id are those that belong to it, in the order in which they were read.
  pub values_at-group_from :
      (key : A → ℕ) (j : ℕ) (m : Groups A) (xs : List A)
      → values_at j (group_from key m xs) ≡ values_at j m ++ select (λ r. key r == j) xs
  unfolding group_from select
  values_at-group_from key j m [] = sym (append-nil _)
  values_at-group_from key j m (x ∷ xs) =
      values_at-group_from key j (add_to (key x) x m) xs ∙ (elim (Bool-cases (key x == j)) [
        | inl e ↦ rw (values_at-add_to j (key x) x m, e) (append_assoc (values_at j m) (x ∷ []) _)
        | inr e ↦ rw (values_at-add_to j (key x) x m, e) refl
      ])

  -- A selection that implies a second one.
  pub select-select :
      (p q : A → Bool) (rs : List A)
      → ((r : A) → p r ≡ true → q r ≡ true)
      → select p (select q rs) ≡ select p rs
  unfolding select
  select-select p q [] h = refl
  select-select p q (r ∷ rs) h = ground (arith, h r, select-select p q rs h)

  -- What a load returns.
  abbrev pub loaded : (A → ℕ) → (Sales → List A) → List ℕ → Sales → Groups A
  loaded key table [] s = []
  loaded key table (i ∷ is) s = group_from key [] (select (λ r. one_of (i ∷ is) (key r)) (table s))

  pub load-Reads :
      (c scan : Context) (t : SalesTable) (id key : A → ℕ) (table : Sales → List A) (ids : List ℕ)
      → Reads sales_of (load c scan t id key table ids) (loaded key table ids)
  unfolding load
  load-Reads c scan t id key table [] = pure-Reads sales_of []
  load-Reads c scan t id key table (i ∷ is) =
      let rows = λ (s : Sales). select (λ r. one_of (i ∷ is) (key r)) (table s) in
      >>=-Reads sales_of _ _ rows (λ rs _. group_from key [] rs)
        (scan_rows-Reads scan t id _ rows (within-Reads sales_of c _ rows (query-Reads rows)))
        (λ rs. pure-Reads sales_of _)

  -- Under each id that was asked for stand the rows of the table that belong to it.
  pub values_at-loaded :
      (key : A → ℕ) (table : Sales → List A) (ids : List ℕ) (s : Sales) (id : ℕ)
      → one_of ids id ≡ true
      → values_at id (loaded key table ids s) ≡ select (λ r. key r == id) (table s)
  unfolding select values_at
  values_at-loaded key table [] s id h = cc
  values_at-loaded key table (i ∷ is) s id h =
      values_at-group_from key id [] (select (λ r. one_of (i ∷ is) (key r)) (table s))
      ∙ select-select (λ r. key r == id) (λ r. one_of (i ∷ is) (key r)) (table s)
          (λ r e. ground arith)
