-- ===== src/Repository/Orders/Scanning.antt =====
-- `rows.Scan` in the loops of internal/repository/order.go.
use magento2_customer_graphq.Base.{ℕ, ◌≡◌, refl, Bool, true, false, ◌&&◌, not, List, [], ◌∷◌, arith}
use magento2_customer_graphq.Errors.{Context, database}
use magento2_customer_graphq.World.Orders.{Sales, SalesTable}
use magento2_customer_graphq.World.Monad.{Action, ◌>>=◌, ◌>>◌, pure, gets, within, fail_if}
use magento2_customer_graphq.World.Monad.Reads.{
  Reads, pure-Reads, within-Reads, >>=-Reads, sales_of,
}
use magento2_customer_graphq.World.Monad.Sure.{IsSure, >>=-IsSure}

passed-Reads : (b : Bool) → Reads sales_of (fail_if b database) (λ _. tt)
passed-Reads true w a v h = absurd (ground arith)
passed-Reads false w a v h = ground arith

module _ {A : Type 0} where
  abbrev pub scan_all : (ℕ → Bool) → (A → ℕ) → List A → Bool
  scan_all scans id [] = true
  scan_all scans id (r ∷ rs) = scans (id r) && scan_all scans id rs

  -- The loop over rows that were read: it ends at the first that does not scan.
  unfoldable pub scan_rows : Context → SalesTable → (A → ℕ) → Action (List A) → Action (List A)
  scan_rows c t id m = do
    rows ← m
    scans ← gets (λ w. w.sales.scans t)
    within c (fail_if (not (scan_all scans id rows)) database)
    pure rows

  pub scan_rows-Reads :
      (c : Context) (t : SalesTable) (id : A → ℕ) (m : Action (List A)) (f : Sales → List A)
      → Reads sales_of m f
      → Reads sales_of (scan_rows c t id m) f
  unfolding scan_rows
  scan_rows-Reads c t id m f h =
      >>=-Reads sales_of m _ f (λ rows _. rows) h
        λ rows.
          >>=-Reads sales_of (gets (λ w. w.sales.scans t)) _ (λ s. s.scans t) (λ _ _. rows)
            (λ w a v e. ground arith)
            λ scans.
              >>=-Reads sales_of (within c (fail_if (not (scan_all scans id rows)) database)) _
                (λ _. tt) (λ _ _. rows)
                (within-Reads sales_of c _ (λ _. tt) (passed-Reads (not (scan_all scans id rows))))
                λ _. pure-Reads sales_of rows

  scan_all-true :
      (scans : ℕ → Bool) (id : A → ℕ) (rows : List A)
      → ((n : ℕ) → scans n ≡ true)
      → scan_all scans id rows ≡ true
  scan_all-true scans id [] h = refl
  scan_all-true scans id (r ∷ rs) h = rw (h (id r), scan_all-true scans id rs h) refl

  pub scan_rows-IsSure :
      (c : Context) (t : SalesTable) (id : A → ℕ) (m : Action (List A))
      → IsSure m
      → IsSure (scan_rows c t id m)
  unfolding scan_rows
  scan_rows-IsSure c t id m h =
      >>=-IsSure m _ h
        λ rows w q s. (rows, w, rw (scan_all-true (w.sales.scans t) id rows (s t)) refl, q, s)
