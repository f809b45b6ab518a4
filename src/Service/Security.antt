-- ===== src/Service/Security.antt =====
-- internal/service/security.go: account lockout and the format of an email address.
pub mod Email
pub mod Lockout
use magento2_customer_graphq.Base.{
  ℕ, suc, ◌+◌, ◌-◌, ◌≡◌, refl, Bool, true, false, ◌&&◌, ◌||◌, Option, none, some, [], ◌∷◌, length,
  take, drop, ltb, leb, ◌==◌, if◌then◌else◌,
}
use magento2_customer_graphq.Base.Text.{Text, text, is_empty}
use magento2_customer_graphq.Go.Int.{ltb_ℤ, ◌+ℤ◌}
use magento2_customer_graphq.Go.Strings.{index, last_index}
use magento2_customer_graphq.Errors.{auth_failed}
use magento2_customer_graphq.World.Monad.{Action, ◌>>=◌, ◌>>◌, fail_if, when, ignore}
use magento2_customer_graphq.Env.{Env, lockout_failures, lockout_threshold, minutes}
use magento2_customer_graphq.Repository.Customer.{
  CustomerData, update, set_lock_expires, increment_login_failure, get_login_failures,
}

abbrev pub default_lockout_failures : ℕ
default_lockout_failures = 10

abbrev pub default_lockout_threshold : ℕ
default_lockout_threshold = 10

-- `dot > 0 && dot < len(domain)-1`
abbrev pub dot_inside : Text → Option ℕ → Bool
dot_inside domain none = false
dot_inside domain (some dot) = ltb 0 dot && ltb dot (length domain - 1)

abbrev pub valid_parts : Text → Text → Bool
valid_parts local domain =
    if length local == 0 || ltb (length domain) 3
    then false
    else dot_inside domain (last_index b'.' domain)

abbrev pub valid_around : Text → Option ℕ → Bool
valid_around email none = false
valid_around email (some at) =
    if ltb at 1 then false else valid_parts (take at email) (drop (suc at) email)

unfoldable pub is_valid_email : Text → Bool
is_valid_email email = valid_around email (index b'@' email)

module _ (env : Env) where
  -- `err == nil && now.Before(lockExpires)`
  abbrev pub runs_until : Option Text → Bool
  runs_until none = false
  runs_until (some s) =
      if is_empty s
      then false
      else elim (env.parse_time s) [ none ↦ false | some t ↦ ltb_ℤ env.now t ]

  unfoldable pub check_account_lockout : CustomerData → Action (Unit {0})
  check_account_lockout c = fail_if (runs_until c.lock_expires) auth_failed

  unfoldable pub is_customer_locked : CustomerData → Bool
  is_customer_locked c = runs_until c.lock_expires

  -- The text that is written to `lock_expires`.
  abbrev pub lock_text : Text
  lock_text =
      env.format_time
        (env.now +ℤ minutes (env.get_int lockout_threshold 0 default_lockout_threshold))

  unfoldable pub record_login_failure : ℕ → Action (Unit {0})
  record_login_failure id = do
    let max_failures = env.get_int lockout_failures 0 default_lockout_failures
    increment_login_failure env id
    failures ← get_login_failures id
    when (leb max_failures failures) (ignore (update env id (set_lock_expires lock_text ∷ [])))

tests :
    (is_valid_email (text "a@b.c") ≡ true)
    × (is_valid_email (text "@b.cd") ≡ false)
    × (is_valid_email (text "a@b.") ≡ false)
    × (is_valid_email (text "a@.bc") ≡ false)
    × (is_valid_email (text "a.b") ≡ false)
unfolding is_valid_email index last_index
tests = (refl, refl, refl, refl, refl)
