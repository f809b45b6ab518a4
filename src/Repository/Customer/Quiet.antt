-- ===== src/Repository/Customer/Quiet.antt =====
-- The methods of CustomerRepository where no statement fails.
use magento2_customer_graphq.Base.{ℕ, ◌≡◌, some, List, [], ◌∷◌, arith}
use magento2_customer_graphq.Base.Text.{Text}
use magento2_customer_graphq.World.{World, CustomerRow}
use magento2_customer_graphq.World.Monad.{ok}
use magento2_customer_graphq.Env.{Env}
use magento2_customer_graphq.Repository.Sql.{find, update_where}
use magento2_customer_graphq.Repository.Customer.{
  CustomerData, has_id, has_email, scan_customer, get_by_id, get_by_email, update, Assign, updated,
  on_customers, one_more_failure, increment_login_failure, no_failures, reset_login_failures,
  get_login_failures, coalesce,
}

pub get_by_id_quiet :
    (id : ℕ) (w : World) (r : CustomerRow)
    → w.faults ≡ []
    → find (has_id id) w.customers ≡ some r
    → get_by_id id w ≡ (ok (scan_customer r), w)
unfolding get_by_id
get_by_id_quiet id w r q e = ground arith

module _ (env : Env) where
  pub get_by_email_quiet :
      (email : Text) (website : ℕ) (w : World) (r : CustomerRow)
      → w.faults ≡ []
      → find (has_email env email website) w.customers ≡ some r
      → get_by_email env email website w ≡ (ok (scan_customer r), w)
  unfolding get_by_email
  get_by_email_quiet email website w r q e = ground arith

  pub update_quiet :
      (id : ℕ) (a : Assign) (fields : List Assign) (w : World)
      → w.faults ≡ []
      → update env id (a ∷ fields) w
        ≡ (ok tt, on_customers (update_where (has_id id) (updated env (a ∷ fields))) w)
  unfolding update
  update_quiet id a fields w q = ground arith

  pub increment_login_failure_quiet :
      (id : ℕ) (w : World)
      → w.faults ≡ []
      → increment_login_failure env id w
        ≡ (ok tt, on_customers (update_where (has_id id) (one_more_failure env)) w)
  unfolding increment_login_failure
  increment_login_failure_quiet id w q = ground arith

pub reset_login_failures_quiet :
    (id : ℕ) (w : World)
    → w.faults ≡ []
    → reset_login_failures id w ≡ (ok tt, on_customers (update_where (has_id id) no_failures) w)
unfolding reset_login_failures
reset_login_failures_quiet id w q = ground arith

pub get_login_failures_quiet :
    (id : ℕ) (w : World) (r : CustomerRow)
    → w.faults ≡ []
    → find (has_id id) w.customers ≡ some r
    → get_login_failures id w ≡ (ok (coalesce 0 r.failures_num), w)
unfolding get_login_failures
get_login_failures_quiet id w r q e = ground arith

-- A customer that was found is a row of the table, also where other statements fail.
pub get_by_id_found :
    (id : ℕ) (w : World) {c : CustomerData} {w' : World}
    → get_by_id id w ≡ (ok c, w')
    → (r : CustomerRow) × (find (has_id id) w.customers ≡ some r)
      × (c ≡ scan_customer r)
      × (w'.customers ≡ w.customers)
unfolding get_by_id
get_by_id_found id w h = ground arith

pub get_by_email_found :
    (env : Env) (email : Text) (website : ℕ) (w : World) {c : CustomerData} {w' : World}
    → get_by_email env email website w ≡ (ok c, w')
    → (r : CustomerRow) × (find (has_email env email website) w.customers ≡ some r)
      × (c ≡ scan_customer r)
      × (w'.customers ≡ w.customers)
unfolding get_by_email
get_by_email_found env email website w h = ground arith
