-- ===== src/Service/Reset/Requests.antt =====
-- `RequestPasswordResetEmail` of internal/service/customer.go: what an answer tells of an address.
use magento2_customer_graphq.Base.{
  ℕ, ◌+◌, ◌≡◌, Bool, true, Option, none, some, [], length, arith, if◌then◌else◌, Bool-cases,
  Option-cases, inl, inr,
}
use magento2_customer_graphq.Base.Text.{Text}
use magento2_customer_graphq.Errors.{account_locked}
use magento2_customer_graphq.World.{World, CustomerRow}
use magento2_customer_graphq.World.Monad.{Outcome, ok, err}
use magento2_customer_graphq.Env.{Env}
use magento2_customer_graphq.Repository.Sql.{find}
use magento2_customer_graphq.Repository.Customer.{update, has_email, scan_customer, get_by_email}
use magento2_customer_graphq.Repository.Customer.Quiet.{get_by_email_quiet}
use magento2_customer_graphq.Repository.Cache.Coherence.{
  website_of, store_seen, website_id_for_store_quiet,
}
use magento2_customer_graphq.Service.Security.{is_valid_email, runs_until, is_customer_locked}
use magento2_customer_graphq.Service.Reset.{request_password_reset_email, send_reset}

module _ (env : Env) where
  -- What a request is answered with, by the account that the address has.
  abbrev pub answer : Option CustomerRow → Outcome Bool
  answer none = ok true
  answer (some r) = if runs_until env r.lock_expires then err account_locked else ok true

  -- How many messages a request sends.
  abbrev pub messages : Option CustomerRow → ℕ
  messages none = 0
  messages (some r) = if runs_until env r.lock_expires then 0 else 1

  -- Where no statement fails: a request for a well-formed address is answered with true, also where
  -- no account has the address, and with an error of its own exactly where the account is locked;
  -- one message is sent where there is an account that is not locked, and none elsewhere.
  pub request_answers :
      (email : Text) (w : World)
      → w.faults ≡ []
      → is_valid_email email ≡ true
      → let row = find (has_email env email (website_of env.store_id w)) w.customers in
        ((request_password_reset_email env email w).0 ≡ answer row)
        × (length (request_password_reset_email env email w).1.outbox
            ≡ messages row + length w.outbox)
  unfolding request_password_reset_email send_reset is_customer_locked scan_customer update
      get_by_email
  request_answers email w quiet valid =
      let seen = website_id_for_store_quiet env.store_id w quiet in
      elim (Option-cases (find (has_email env email (website_of env.store_id w)) w.customers)) [
        | inl e ↦ (ground (arith, seen), ground (arith, seen))
        | inr (r, e) ↦
            let read =
              get_by_email_quiet env email (website_of env.store_id w) (store_seen env.store_id w) r
                quiet e in
            elim (Bool-cases (runs_until env r.lock_expires)) [
              | inl locked ↦ (ground (arith, seen, read), ground (arith, seen, read))
              | inr free ↦ (ground (arith, seen, read), ground (arith, seen, read))
            ]
      ]
