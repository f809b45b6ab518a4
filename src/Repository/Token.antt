-- ===== src/Repository/Token.antt =====
-- internal/repository/token.go: tokens and their revocation.
use magento2_customer_graphq.Base.{
  ℕ, Bool, true, not, ◌&&◌, none, some, List, [], ◌∷◌, ◌==◌, if◌then◌else◌,
}
use magento2_customer_graphq.Base.Text.{Text}
use magento2_customer_graphq.Go.Int.{ℤ}
use magento2_customer_graphq.Errors.{jwt_not_configured, jwt_failed, revoke_tokens}
use magento2_customer_graphq.World.{RevocationRow, OauthRow}
use magento2_customer_graphq.World.Monad.{Action, ◌>>◌, pure, fail, within, exec, ignore}
use magento2_customer_graphq.Env.{Env, unix}
use magento2_customer_graphq.Repository.Sql.{update_where}

-- `INSERT INTO jwt_auth_revoked ... ON DUPLICATE KEY UPDATE revoke_before = VALUES(revoke_before)`
unfoldable pub revoke : ℕ → ℤ → List RevocationRow → List RevocationRow
revoke id t [] = record { user_id = id; revoke_before = t } ∷ []
revoke id t (r ∷ rs) =
    if r.user_id == id then record r { revoke_before = t } ∷ rs else r ∷ revoke id t rs

abbrev pub live_of : ℕ → OauthRow → Bool
live_of id t = t.customer_id == id && not t.revoked

abbrev pub revoked_token : OauthRow → OauthRow
revoked_token t = record t { revoked = true }

module _ (env : Env) where
  unfoldable pub create : ℕ → Action Text
  create id = elim env.jwt_create [
    | none ↦ fail jwt_not_configured
    | some sign ↦ elim (sign id) [ none ↦ fail jwt_failed | some token ↦ pure token ]
  ]

  unfoldable pub revoke_all_for_customer : ℕ → Action (Unit {0})
  unfolding revoke
  revoke_all_for_customer id = do
    within (revoke_tokens id)
        (exec (λ w. record w { revocations = revoke id (unix env.now) w.revocations }))
    ignore (
        exec
          (λ w. record w { oauth_tokens = update_where (live_of id) revoked_token w.oauth_tokens }))
