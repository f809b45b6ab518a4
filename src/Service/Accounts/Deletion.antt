-- ===== src/Service/Accounts/Deletion.antt =====
-- `DeleteCustomer` of internal/service/customer.go.
use magento2_customer_graphq.Base.{ℕ, ◌≡◌, ◌≢◌, refl, ap, Bool, true, Option, none, arith, ◌==◌}
use mathlib.Core.Path.{subst}
use magento2_customer_graphq.Errors.{unauthorized}
use magento2_customer_graphq.World.Monad.Laws.{>>=-eq-ok, fail_if-eq-ok}
use magento2_customer_graphq.World.{World, CustomerRow}
use magento2_customer_graphq.World.Monad.{Action, ok, ◌>>◌, pure, ignore}
use magento2_customer_graphq.World.Monad.Frame.{Keeps, >>-Keeps}
use magento2_customer_graphq.Env.{Env}
use magento2_customer_graphq.Repository.Sql.{find, find-delete_where_self, find-delete_where_ne}
use magento2_customer_graphq.Repository.Customer.{has_id, delete}
use magento2_customer_graphq.Repository.Token.{revoke_all_for_customer}
use magento2_customer_graphq.Service.Tokens.{signed_in}
use magento2_customer_graphq.Service.Accounts.{delete_customer}

-- The row of an account.
abbrev pub account : ℕ → World → Option CustomerRow
account id w = find (has_id id) w.customers

module _ (env : Env) where
  pub revoked-customers :
      (id : ℕ) (w : World) → (ignore (revoke_all_for_customer env id) w).1.customers ≡ w.customers
  unfolding revoke_all_for_customer
  revoked-customers id w = ground arith

  gone : (id : ℕ) (w : World) {w' : World} → delete id w ≡ (ok tt, w') → account id w' ≡ none
  unfolding delete
  gone id w h = ground (arith, find-delete_where_self (has_id id) w.customers)

  pub others : (id j : ℕ) → id ≢ j → Keeps (account j) (delete id)
  unfolding delete
  others id j ne w =
      ground (arith, find-delete_where_ne (has_id j) (has_id id) w.customers (λ r h. ground arith))

  value : (b : Bool) (x w' : World) → pure true x ≡ (ok b, w') → b ≡ true
  value b x w' h = ground arith

  -- Whatever else fails: if the deletion of an account returns a value, the caller is signed in, the
  -- value is true, and the account has no row any more.
  pub delete_customer-gone :
      (w : World) {b : Bool} {w' : World}
      → delete_customer env w ≡ (ok b, w')
      → (env.customer_id ≢ 0) × (b ≡ true) × (account env.customer_id w' ≡ none)
  unfolding delete_customer
  delete_customer-gone w {b} {w'} h =
      let sessions = ignore (revoke_all_for_customer env env.customer_id) in
      let remove : Action Bool = delete env.customer_id >> pure true in
      let (on, h1) = fail_if-eq-ok (env.customer_id == 0) unauthorized (sessions >> remove) w h in
      let (_, v, _, h2) = >>=-eq-ok sessions (λ _. remove) w h1 in
      let (u, x, done, last) = >>=-eq-ok (delete env.customer_id) (λ _. pure true) v h2 in
      let same : x ≡ w' = ap (λ t. t.1) last in
      (
        ground (arith, on),
        value b x w' last,
        subst (λ y. account env.customer_id y ≡ none) same (gone env.customer_id v done),
      )

  -- However a deletion ends, and whatever statements fail, the row of every other account is as it
  -- was.
  pub delete_customer-others :
      (j : ℕ) (w : World) → env.customer_id ≢ j → account j (delete_customer env w).1 ≡ account j w
  unfolding delete_customer
  delete_customer-others j w ne =
      >>-Keeps (account j) (signed_in env) _ (λ w. refl)
        (>>-Keeps (account j) (ignore (revoke_all_for_customer env env.customer_id)) _
          (λ w. ap (find (has_id j)) (revoked-customers env.customer_id w))
          (>>-Keeps (account j) (delete env.customer_id) (pure true) (others env.customer_id j ne)
            (λ w. refl)))
        w
