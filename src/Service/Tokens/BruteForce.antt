-- ===== src/Service/Tokens/BruteForce.antt =====
-- The lock of internal/service/security.go against a series of guesses.
use magento2_customer_graphq.Base.{
  ◌+◌, ◌≤◌, ◌≡◌, refl, ◌∙◌, sym, Bool, true, false, some, List, [], ◌∷◌, arith, All, length,
  Bool-cases, inl, inr,
}
use mathlib.Core.Path.{subst}
use magento2_customer_graphq.Base.Text.{Text}
use magento2_customer_graphq.Errors.{auth_failed}
use magento2_customer_graphq.World.{World, CustomerRow}
use magento2_customer_graphq.World.Monad.{err}
use magento2_customer_graphq.Env.{Env}
use magento2_customer_graphq.Repository.Customer.{
  has_id, has_email, on_customers, one_more_failure, updated,
}
use magento2_customer_graphq.Repository.Cache.Coherence.{
  website_of, store_seen, website_of-store_seen,
}
use magento2_customer_graphq.Service.Security.{runs_until, lock_text}
use magento2_customer_graphq.Service.Security.Lockout.{
  max_failures, failures, failed_if, failed_rows, find_failed, locks,
}
use magento2_customer_graphq.Service.Tokens.{generate_token}
use magento2_customer_graphq.Service.Tokens.Login.{
  IsAccount, matches, generate_token_locked, generate_token_mismatch,
}

module _ (env : Env) (email : Text) where
  -- The world after a series of attempts.
  pub attempts : List Text → World → World
  attempts [] w = w
  attempts (p ∷ ps) w = attempts ps (generate_token env email p w).1

  -- An attempt on the locked account leaves it as it is.
  store_seen-IsAccount :
      (w : World) (r : CustomerRow)
      → IsAccount env email w r
      → IsAccount env email (store_seen env.store_id w) r
  store_seen-IsAccount w r a = record {
    quiet = a.quiet;
    by_email = rw (website_of-store_seen env.store_id w) a.by_email;
    by_id = a.by_id;
    active = a.active;
    confirmed = a.confirmed;
    runs = a.runs;
  }

  -- A failure leaves the account in place, with its row changed.
  failed-IsAccount :
      (w : World) (r : CustomerRow) (b : Bool)
      → IsAccount env email w r
      → IsAccount env email (on_customers (failed_rows env r.entity_id b) w) (failed_if env b r)
  unfolding one_more_failure updated
  failed-IsAccount w r false a = record {
    quiet = a.quiet;
    by_email =
        find_failed env r.entity_id (has_email env email (website_of env.store_id w)) false
          w.customers r (λ s. refl) (λ s. refl) refl a.by_email;
    by_id =
        find_failed env r.entity_id (has_id r.entity_id) false w.customers r (λ s. refl) (λ s. refl)
          refl a.by_id;
    active = a.active;
    confirmed = a.confirmed;
    runs = a.runs;
  }
  failed-IsAccount w r true a = record {
    quiet = a.quiet;
    by_email =
        find_failed env r.entity_id (has_email env email (website_of env.store_id w)) true
          w.customers r (λ s. refl) (λ s. refl) refl a.by_email;
    by_id =
        find_failed env r.entity_id (has_id r.entity_id) true w.customers r (λ s. refl) (λ s. refl)
          refl a.by_id;
    active = a.active;
    confirmed = a.confirmed;
    runs = a.runs;
  }

  -- The state that a series of guesses ends in.
  pub record IsLocked (w : World) : Type 0 where
    pub row : CustomerRow
    pub account : IsAccount env email w row
    pub locked : runs_until env row.lock_expires ≡ true

  attempts-IsLocked : (ps : List Text) (w : World) → IsLocked w → IsLocked (attempts ps w)
  unfolding attempts
  attempts-IsLocked [] w l = l
  attempts-IsLocked (p ∷ ps) w l =
      let after : IsLocked (generate_token env email p w).1 =
        rw (generate_token_locked env email p w l.row l.account l.locked) (record {
          row = l.row;
          account = store_seen-IsAccount w l.row l.account;
          locked = l.locked;
        }) in
      attempts-IsLocked ps (generate_token env email p w).1 after

  failed-matches :
      (b : Bool) (r : CustomerRow) (p : Text)
      → matches env email (failed_if env b r) p ≡ matches env email r p
  unfolding one_more_failure updated
  failed-matches false r p = refl
  failed-matches true r p = refl

  failed-locked : (r : CustomerRow) → (failed_if env true r).lock_expires ≡ some (lock_text env)
  unfolding updated
  failed-locked r = refl

  failed-failures :
      (b : Bool) (r : CustomerRow) → failures env (failed_if env b r) ≡ failures env r + 1
  unfolding one_more_failure updated
  failed-failures false r = refl
  failed-failures true r = refl

  -- Every guess of the list is wrong for the row.
  abbrev pub Wrong : CustomerRow → List Text → Type 0
  Wrong r = All (λ p. matches env email r p ≡ false)

  Wrong-failed :
      (b : Bool) (r : CustomerRow) (ps : List Text) → Wrong r ps → Wrong (failed_if env b r) ps
  Wrong-failed b r [] h = tt
  Wrong-failed b r (p ∷ ps) h = (failed-matches b r p ∙ h.0, Wrong-failed b r ps h.1)

  -- One wrong guess at an account that is not locked.
  after_mismatch :
      (p : Text) (w : World) (r : CustomerRow)
      → IsAccount env email w r
      → runs_until env r.lock_expires ≡ false
      → matches env email r p ≡ false
      → IsAccount env email (generate_token env email p w).1 (failed_if env (locks env r) r)
  after_mismatch p w r a free wrong =
      rw (generate_token_mismatch env email p w r a free wrong)
        (failed-IsAccount (store_seen env.store_id w) r (locks env r) (store_seen-IsAccount w r a))

  module _ (lasting : runs_until env (some (lock_text env)) ≡ true) where
    locking-IsLocked :
        (p : Text) (w : World) (r : CustomerRow)
        → IsAccount env email w r
        → runs_until env r.lock_expires ≡ false
        → matches env email r p ≡ false
        → locks env r ≡ true
        → IsLocked (generate_token env email p w).1
    locking-IsLocked p w r a free wrong yes' = record {
      row = failed_if env (locks env r) r;
      account = after_mismatch p w r a free wrong;
      locked =
          subst (λ b. runs_until env (failed_if env b r).lock_expires ≡ true) (sym yes')
            (rw (failed-locked r) lasting);
    }

    guesses-IsLocked :
        (p : Text) (ps : List Text) (w : World) (r : CustomerRow)
        → IsAccount env email w r
        → Wrong r (p ∷ ps)
        → max_failures env ≤ failures env r + length (p ∷ ps)
        → IsLocked (attempts (p ∷ ps) w)
    unfolding attempts
    guesses-IsLocked p [] w r a wrong enough = elim (Bool-cases (runs_until env r.lock_expires)) [
      | inl locked ↦ attempts-IsLocked (p ∷ []) w (record { row = r; account = a; locked = locked })
      | inr free ↦ locking-IsLocked p w r a free wrong.0 (ground arith)
    ]
    guesses-IsLocked p (q ∷ qs) w r a wrong enough =
        elim (Bool-cases (runs_until env r.lock_expires)) [
          | inl locked ↦
              attempts-IsLocked (p ∷ q ∷ qs) w (record { row = r; account = a; locked = locked })
          | inr free ↦ elim (Bool-cases (locks env r)) [
            | inl full ↦
                attempts-IsLocked (q ∷ qs) (generate_token env email p w).1
                  (locking-IsLocked p w r a free wrong.0 full)
            | inr left ↦
                guesses-IsLocked q qs (generate_token env email p w).1
                  (failed_if env (locks env r) r) (after_mismatch p w r a free wrong.0)
                  (Wrong-failed (locks env r) r (q ∷ qs) wrong.1)
                  (omega (arith, failed-failures (locks env r) r))
          ]
        ]

-- After wrong guesses that bring the failures of an account up to the configured number, no
-- password gets a token, not even the right one, as long as the time that is written to
-- `lock_expires` reads back as one to come. The guesses and the last attempt fall on one instant,
-- no statement fails, and the stored hash does not ask argon2 for 0 rounds.
pub brute_force_locked :
    (env : Env) (email : Text) (p : Text) (ps : List Text) (w : World) (r : CustomerRow)
    (password : Text)
    → runs_until env (some (lock_text env)) ≡ true
    → IsAccount env email w r
    → Wrong env email r (p ∷ ps)
    → max_failures env ≤ failures env r + length (p ∷ ps)
    → (generate_token env email password (attempts env email (p ∷ ps) w)).0 ≡ err auth_failed
brute_force_locked env email p ps w r password lasting a wrong enough =
    let l = guesses-IsLocked env email lasting p ps w r a wrong enough in
    rw (
      generate_token_locked env email password (attempts env email (p ∷ ps) w) l.row l.account
        l.locked)
