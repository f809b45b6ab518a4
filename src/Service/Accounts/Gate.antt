-- ===== src/Service/Accounts/Gate.antt =====
-- `ChangePassword` and `UpdateEmail` of internal/service/customer.go: the password that they ask for.
use magento2_customer_graphq.Base.{
  refl, ◌⊎◌, inl, inr, Bool-cases, ◌≡◌, ◌≢◌, ◌∙◌, ap, sym, true, false, not, some, [], ◌∷◌, arith,
  ◌==◌,
}
use magento2_customer_graphq.Base.Text.{Text}
use magento2_customer_graphq.Errors.{unauthorized, password_mismatch}
use magento2_customer_graphq.World.{World, CustomerRow}
use magento2_customer_graphq.World.Monad.{
  Action, Outcome, ok, err, panic, ◌>>=◌, ◌>>◌, fail_if, ignore,
}
use magento2_customer_graphq.World.Monad.Frame.{>>=-cases}
use magento2_customer_graphq.Service.Accounts.Frames.{get_by_id-Keeps, validate_password-Keeps}
use magento2_customer_graphq.Env.{Env}
use magento2_customer_graphq.Repository.Sql.{find}
use magento2_customer_graphq.Repository.Customer.{
  CustomerData, has_id, update, set_password_hash, get_by_id, scan_customer, coalesce,
}
use magento2_customer_graphq.Repository.Customer.Quiet.{get_by_id_found}
use magento2_customer_graphq.Repository.Password.{
  rounds_checked, argon2_panics, verify_password-runs, verify_password, hash_password,
}
use magento2_customer_graphq.Repository.Token.{revoke_all_for_customer}
use magento2_customer_graphq.Service.Mapper.{map_customer}
use magento2_customer_graphq.Service.Password.{validate_password}
use magento2_customer_graphq.Service.Password.Strength.{IsStrong, IsStrong-of_validated}
use magento2_customer_graphq.Service.Accounts.{
  change_password, update_email, replace_password, replace_email,
}

module _ (env : Env) where
  -- The caller is signed in, and the password is that of the caller's own account.
  abbrev pub KnowsPassword : Text → World → Type 0
  KnowsPassword password w =
      (row : CustomerRow) × (env.customer_id ≢ 0)
      × (find (has_id env.customer_id) w.customers ≡ some row)
      × (verify_password env (coalesce [] row.password_hash) password ≡ true)

  -- The call goes on with `k`, on the customers as they were.
  abbrev Reaches : {A : Type 0} → (CustomerData → Action A) → Action A → World → Type 0
  Reaches k m w = (c : CustomerData) × (v : World) × (m w ≡ k c v) × (v.customers ≡ w.customers)

  signed : (env.customer_id == 0) ≡ false → env.customer_id ≢ 0
  signed h = ground arith

  -- The call returns no value and leaves the customers alone.
  abbrev pub Refused : {A : Type 0} → Action A → World → Type 0
  Refused {A} m w = ((m w).1.customers ≡ w.customers) × ((a : A) → (m w).0 ≢ ok a)

  failed :
      {A : Type 0} (m : Action A) (w : World) {o : Outcome A} {v : World}
      → m w ≡ (o, v)
      → ((a : A) → o ≢ ok a)
      → v.customers ≡ w.customers
      → Refused m w
  failed m w h none_ok same =
      (ap (λ p. p.1.customers) h ∙ same, λ a k. none_ok a (sym (ap (λ p. p.0) h) ∙ k))

  gate :
      {A : Type 0} (password : Text) (k : CustomerData → Action A) (w : World)
      → let m =
          fail_if (env.customer_id == 0) unauthorized
          >> (get_by_id env.customer_id >>= λ c.
              rounds_checked c.password_hash
              >> (fail_if (not (verify_password env c.password_hash password)) password_mismatch
                  >> k c)) in
        Refused m w ⊎ (KnowsPassword password w × Reaches k m w)
  unfolding scan_customer
  gate password k w =
      let test = λ (c : CustomerData).
        rounds_checked c.password_hash
        >> (fail_if (not (verify_password env c.password_hash password)) password_mismatch
            >> k c) in
      let rest = get_by_id env.customer_id >>= test in
      elim (Bool-cases (env.customer_id == 0)) [
        | inl e ↦ inl (ground arith, λ a h. ground arith)
        | inr on ↦
            let start : ((fail_if (env.customer_id == 0) unauthorized >> rest) w ≡ rest w) =
              rw on refl in
            elim (>>=-cases (get_by_id env.customer_id) test w) [
              | inl (same, none_ok) ↦ inl (
                ap (λ p. p.1.customers) start
                    ∙ (ap (λ u. u.customers) same ∙ get_by_id-Keeps env.customer_id w),
                λ a h. none_ok a (ap (λ p. p.0) (sym start) ∙ h),
              )
              | inr (c, v, read, e) ↦
                  let kept =
                    ap (λ p. p.1.customers) (sym read) ∙ get_by_id-Keeps env.customer_id w in
                  elim (Bool-cases (verify_password env c.password_hash password)) [
                    | inl right ↦
                        let runs = verify_password-runs env c.password_hash password right in
                        let passed : (test c v ≡ k c v) = rw (runs, right) refl in
                        let (row, found, same, _) =
                          get_by_id_found env.customer_id w {c = c} {w' = v} read in
                        inr (
                          (row, signed on, found, rw same at right),
                          (c, v, start ∙ (e ∙ passed), kept),
                        )
                    | inr wrong ↦
                        let whole = fail_if (env.customer_id == 0) unauthorized >> rest in
                        elim (Bool-cases (argon2_panics c.password_hash)) [
                          | inl broken ↦
                              let stopped : (test c v ≡ (panic, v)) = rw broken refl in
                              inl
                                (failed whole w (start ∙ (e ∙ stopped)) (λ a h. ground arith) kept)
                          | inr runs ↦
                              let stopped : (test c v ≡ (err password_mismatch, v)) =
                                rw (runs, wrong) refl in
                              inl
                                (failed whole w (start ∙ (e ∙ stopped)) (λ a h. ground arith) kept)
                        ]
                  ]
            ]
      ]

  -- Whatever statement fails on the way, and however the call ends: an email address is only changed
  -- for a caller who is signed in and gives the password of the caller's own account; for any other
  -- the call returns no value and the table of customers is the same.
  pub update_email-KnowsPassword :
      (email password : Text) (w : World)
      → Refused (update_email env email password) w ⊎ KnowsPassword password w
  unfolding update_email
  update_email-KnowsPassword email password w = elim (gate password (replace_email env email) w) [
    | inl h ↦ inl h
    | inr (knows, _) ↦ inr knows
  ]

  -- Whatever statement fails on the way, and however the call ends: a password is only changed for a
  -- caller who is signed in and gives the password of the caller's own account, and only to one of
  -- the configured strength; for any other the call returns no value and the table of customers is
  -- the same.
  pub change_password-KnowsPassword :
      (current new : Text) (w : World)
      → Refused (change_password env current new) w ⊎ (KnowsPassword current w × IsStrong env new)
  unfolding change_password replace_password
  change_password-KnowsPassword current new w = elim (gate current (replace_password env new) w) [
    | inl h ↦ inl h
    | inr (knows, (c, v, on, same)) ↦
        elim (>>=-cases (validate_password env new)
          (λ _. hash_password env new >>= λ hash.
            update env env.customer_id (set_password_hash hash ∷ [])
            >> (ignore (revoke_all_for_customer env env.customer_id)
                >> (get_by_id env.customer_id >>= map_customer)))
          v) [
            | inl (kept, none_ok) ↦ inl (
              ap (λ p. p.1.customers) on
                  ∙ (ap (λ u. u.customers) kept ∙ (validate_password-Keeps env new v ∙ same)),
              λ a h. none_ok a (ap (λ p. p.0) (sym on) ∙ h),
            )
            | inr (_, u, checked, _) ↦ inr (knows, IsStrong-of_validated env new v checked)
          ]
  ]
