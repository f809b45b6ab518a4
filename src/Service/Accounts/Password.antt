-- ===== src/Service/Accounts/Password.antt =====
-- `ChangePassword` of internal/service/customer.go: what it leaves.
use magento2_customer_graphq.Base.{
  ℕ, ◌≡◌, ◌≢◌, refl, sym, ap, ◌∙◌, true, false, Option, none, some, [], ◌∷◌, arith, All, inl, inr,
  Option-cases, Bool-cases,
}
use mathlib.Core.Option
use mathlib.Core.Path.{subst}
use magento2_customer_graphq.Base.Text.{Text}
use magento2_customer_graphq.Go.Strconv.{IsByte}
use magento2_customer_graphq.World.{World, CustomerRow, RevocationRow, GroupData}
use magento2_customer_graphq.World.Monad.{ok, next_fault, later_faults, attempt}
use magento2_customer_graphq.Env.{Env, unix}
use magento2_customer_graphq.Model.{CustomerGroup, Customer}
use magento2_customer_graphq.Repository.Sql.{find, update_where, find-update_where_hit, find_sound}
use magento2_customer_graphq.Repository.Customer.{
  CustomerData, has_id, scan_customer, coalesce, updated, assign_all, set_password_hash,
}
use magento2_customer_graphq.Repository.Customer.Quiet.{get_by_id_quiet, update_quiet}
use magento2_customer_graphq.Repository.Cache.{get_group, cached, group_row}
use magento2_customer_graphq.Repository.Password.{
  verify_password-runs, hash_of, hash_password, verify_password,
}
use magento2_customer_graphq.Repository.Password.RoundTrip.{verify_password-hash_of_iff}
use magento2_customer_graphq.Repository.Token.{
  revoke, live_of, revoked_token, revoke_all_for_customer,
}
use magento2_customer_graphq.Service.Mapper.{map_customer, map_group, customer_output, encode_uid}
use magento2_customer_graphq.Service.Password.Strength.{IsStrong, validate_password-ok_iff}
use magento2_customer_graphq.Service.Accounts.{change_password, replace_password}
use magento2_customer_graphq.Service.Accounts.Deletion.{account}
use magento2_customer_graphq.Service.Reset.SingleUse.{revoked_row, find-revoke, none_live}

abbrev group_output : GroupData → CustomerGroup
group_output g = record { uid = encode_uid g.group_id; name = g.group_code }

abbrev later : World → World
later w = record w { faults = later_faults w.faults }

-- What the steps at the end of an operation leave as it is.
abbrev Same : World → World → Type 0
Same v w =
    (v.customers ≡ w.customers)
    × (v.revocations ≡ w.revocations)
    × (v.oauth_tokens ≡ w.oauth_tokens)

group_step :
    (id : ℕ) (w : World)
    → (group : Option CustomerGroup) × (v : World) × (attempt (map_group id) w ≡ (ok group, v))
      × Same v w
unfolding map_group get_group
group_step id w = elim (Option-cases (cached id w.group_cache)) [
  | inr (g, hit) ↦ (some (group_output g), w, ground (arith, hit), (refl, refl, refl))
  | inl miss ↦ elim (Bool-cases (next_fault w.faults)) [
    | inl fault ↦ (none, later w, ground (arith, miss, fault), (refl, refl, refl))
    | inr fine ↦ elim (Option-cases (find (group_row id) w.groups)) [
      | inl missing ↦ (none, later w, ground (arith, miss, fine, missing), (refl, refl, refl))
      | inr (g, there) ↦ (
        some (group_output g),
        record (later w) { group_cache = (id, g) ∷ w.group_cache },
        ground (arith, miss, fine, there),
        (refl, refl, refl),
      )
    ]
  ]
]

-- A customer is always mapped, also without a group.
pub mapped_customer :
    (c : CustomerData) (w : World)
    → (group : Option CustomerGroup) × (v : World) × (map_customer c w
        ≡ (ok (customer_output c group), v))
      × Same v w
unfolding map_customer
mapped_customer c w =
    let (group, v, e, same) = group_step c.group_id w in (group, v, ground (arith, e), same)

module _ (env : Env) where
  abbrev pub new_hash : Text → CustomerRow → CustomerRow
  new_hash hash = updated env (set_password_hash hash ∷ [])

  -- The world before the account is read back.
  abbrev changed : Text → World → World
  changed hash w = record w {
    customers = update_where (has_id env.customer_id) (new_hash hash) w.customers;
    revocations = revoke env.customer_id (unix env.now) w.revocations;
    oauth_tokens = update_where (live_of env.customer_id) revoked_token w.oauth_tokens;
  }

  found_changed :
      (hash : Text) (w : World) (r : CustomerRow)
      → account env.customer_id w ≡ some r
      → account env.customer_id (changed hash w) ≡ some (new_hash hash r)
  unfolding updated assign_all
  found_changed hash w r e =
      find-update_where_hit (has_id env.customer_id) (has_id env.customer_id) (new_hash hash)
        w.customers r (λ s. refl) (find_sound (has_id env.customer_id) w.customers r e) e

  -- The account has the new password, its tokens from before now are revoked, and no OAuth token of
  -- it is live.
  abbrev pub IsChanged : Text → World → Type 0
  IsChanged new v =
      ((row : CustomerRow) × (account env.customer_id v ≡ some row)
        × (verify_password env (coalesce [] row.password_hash) new ≡ true))
      × (Option.map (λ (t : RevocationRow). t.revoke_before)
            (find (revoked_row env.customer_id) v.revocations)
          ≡ some (unix env.now))
      × All (λ t. live_of env.customer_id t ≡ false) v.oauth_tokens

  hashed :
      (new salt : Text) (w : World)
      → env.salt ≡ some salt
      → hash_password env new w ≡ (ok (hash_of env salt new), w)
  unfolding hash_password
  hashed new salt w e = rw e refl

  changed_run :
      (current new hash : Text) (w : World) (r : CustomerRow)
      → w.faults ≡ []
      → env.customer_id ≢ 0
      → account env.customer_id w ≡ some r
      → verify_password env (coalesce [] r.password_hash) current ≡ true
      → IsStrong env new
      → hash_password env new w ≡ (ok hash, w)
      → change_password env current new w
        ≡ map_customer (scan_customer (new_hash hash r)) (changed hash w)
  unfolding change_password replace_password revoke_all_for_customer scan_customer
  changed_run current new hash w r q signed found right strong hashed = ground (
    arith,
    get_by_id_quiet env.customer_id w r q found,
    (validate_password-ok_iff env new w).1 strong,
    verify_password-runs env (coalesce [] r.password_hash) current right,
    update_quiet env env.customer_id (set_password_hash hash) [] w q,
    get_by_id_quiet env.customer_id (changed hash w) (new_hash hash r) q
        (found_changed hash w r found),
  )

  -- Where no statement fails, the caller is signed in, has the row `r` and gives its password, and a
  -- salt could be drawn: changing the password to one of the configured strength returns, and leaves
  -- the account with the new password and every earlier session ended.
  pub change_password_takes_effect :
      (current new salt : Text) (w : World) (r : CustomerRow)
      → w.faults ≡ []
      → env.customer_id ≢ 0
      → account env.customer_id w ≡ some r
      → verify_password env (coalesce [] r.password_hash) current ≡ true
      → IsStrong env new
      → env.salt ≡ some salt
      → All IsByte salt
      → (c : Customer) × (v : World) × (change_password env current new w ≡ (ok c, v))
        × IsChanged new v
  unfolding updated assign_all
  change_password_takes_effect current new salt w r q signed found right strong salted bytes =
      let hash = hash_of env salt new in
      let (group, v, mapped, (rows, revoked, tokens)) =
        mapped_customer (scan_customer (new_hash hash r)) (changed hash w) in
      (
        customer_output (scan_customer (new_hash hash r)) group,
        v,
        changed_run current new hash w r q signed found right strong (hashed new salt w salted)
            ∙ mapped,
        (
          (
            new_hash hash r,
            ap (find (has_id env.customer_id)) rows ∙ found_changed hash w r found,
            (verify_password-hash_of_iff env salt new new bytes).1 refl,
          ),
          ap
                (λ rs.
                  Option.map (λ (t : RevocationRow). t.revoke_before)
                    (find (revoked_row env.customer_id) rs))
                revoked
              ∙ find-revoke env.customer_id (unix env.now) w.revocations,
          subst (All (λ t. live_of env.customer_id t ≡ false)) (sym tokens)
              (none_live env.customer_id w.oauth_tokens),
        ),
      )
