-- ===== src/Service/Security/Lockout.antt =====
-- What a failed login writes: internal/service/security.go.
use magento2_customer_graphq.Base.{
  ℕ, ◌+◌, ◌≡◌, refl, Bool, true, false, some, List, [], ◌∷◌, arith, leb,
}
use magento2_customer_graphq.World.{World, CustomerRow}
use magento2_customer_graphq.World.Monad.{ok}
use magento2_customer_graphq.Env.{Env, lockout_failures}
use magento2_customer_graphq.Repository.Sql.{find, update_where, find-update_where_hit}
use magento2_customer_graphq.Repository.Customer.{
  has_id, updated, on_customers, one_more_failure, coalesce, set_lock_expires,
}
use magento2_customer_graphq.Repository.Customer.Quiet.{
  update_quiet, increment_login_failure_quiet, get_login_failures_quiet,
}
use magento2_customer_graphq.Service.Security.{
  record_login_failure, default_lockout_failures, lock_text,
}

module _ (env : Env) where
  abbrev pub max_failures : ℕ
  max_failures = env.get_int lockout_failures 0 default_lockout_failures

  -- The failures counted so far.
  abbrev pub failures : CustomerRow → ℕ
  failures r = coalesce 0 r.failures_num

  abbrev pub locked_row : CustomerRow → CustomerRow
  locked_row r = updated env (set_lock_expires (lock_text env) ∷ []) r

  abbrev pub failed_if : Bool → CustomerRow → CustomerRow
  failed_if false r = one_more_failure env r
  failed_if true r = locked_row (one_more_failure env r)

  -- Whether the next failure locks the account.
  abbrev pub locks : CustomerRow → Bool
  locks r = leb max_failures (failures r + 1)

  -- One failure more, and a lock from the configured number of failures on.
  abbrev pub failed_row : CustomerRow → CustomerRow
  failed_row r = failed_if (locks r) r

  abbrev pub failed_rows : ℕ → Bool → List CustomerRow → List CustomerRow
  failed_rows id false rows = update_where (has_id id) (one_more_failure env) rows
  failed_rows id true rows =
      update_where (has_id id) locked_row (update_where (has_id id) (one_more_failure env) rows)

  -- A condition that neither update touches finds the failed row.
  pub find_failed :
      (id : ℕ) (p : CustomerRow → Bool) (locking : Bool) (rows : List CustomerRow) (r : CustomerRow)
      → ((s : CustomerRow) → p (one_more_failure env s) ≡ p s)
      → ((s : CustomerRow) → p (locked_row s) ≡ p s)
      → r.entity_id ≡ id
      → find p rows ≡ some r
      → find p (failed_rows id locking rows) ≡ some (failed_if locking r)
  unfolding one_more_failure
  find_failed id p false rows r keep keep' same e =
      find-update_where_hit p (has_id id) (one_more_failure env) rows r keep (ground arith) e
  find_failed id p true rows r keep keep' same e =
      find-update_where_hit p (has_id id) locked_row _ (one_more_failure env r) keep' (ground arith)
        (find-update_where_hit p (has_id id) (one_more_failure env) rows r keep (ground arith) e)

  one_more_failure_id :
      (id : ℕ) (s : CustomerRow) → has_id id (one_more_failure env s) ≡ has_id id s
  unfolding one_more_failure
  one_more_failure_id id s = refl

  failures_one_more : (r : CustomerRow) → failures (one_more_failure env r) ≡ failures r + 1
  unfolding one_more_failure
  failures_one_more r = refl

  -- The counter is read back as the number before and one, and the lock follows from it.
  pub record_login_failure_quiet :
      (id : ℕ) (w : World) (r : CustomerRow)
      → w.faults ≡ []
      → r.entity_id ≡ id
      → find (has_id id) w.customers ≡ some r
      → record_login_failure env id w ≡ (ok tt, on_customers (failed_rows id (locks r)) w)
  unfolding record_login_failure
  record_login_failure_quiet id w r q same e =
      let w' = on_customers (update_where (has_id id) (one_more_failure env)) w in
      let found : find (has_id id) w'.customers ≡ some (one_more_failure env r) =
        find-update_where_hit (has_id id) (has_id id) (one_more_failure env) w.customers r
          (one_more_failure_id id) (ground arith) e in
      ground (
        arith,
        increment_login_failure_quiet env id w q,
        get_login_failures_quiet id w' (one_more_failure env r) q found,
        failures_one_more r,
        update_quiet env id (set_lock_expires (lock_text env)) [] w' q,
      )
