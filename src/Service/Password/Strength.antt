-- ===== src/Service/Password/Strength.antt =====
-- When internal/service/password.go accepts a password.
use magento2_customer_graphq.Base.{
  ℕ, ◌+◌, ◌≤◌, ◌≡◌, ◌↔◌, Bool, true, false, ◌||◌, List, [], ◌∷◌, map, arith, length,
}
use magento2_customer_graphq.Base.Text.{Text}
use magento2_customer_graphq.Go.Utf8.{runes}
use magento2_customer_graphq.World.{World}
use magento2_customer_graphq.World.Monad.{ok}
use magento2_customer_graphq.Env.{Env, minimum_password_length, required_character_classes_number}
use magento2_customer_graphq.Service.Password.{
  CharClass, mark, none_seen, lower, upper, digit, special, Seen, one_if, class_of, scan_classes,
  class_count, validate_password, default_min_password_len, default_required_classes,
}

abbrev same : CharClass → CharClass → Bool
same lower lower = true
same upper upper = true
same digit digit = true
same special special = true
same _ _ = false

-- Whether a class is among those of the runes.
abbrev occurs : CharClass → List CharClass → Bool
occurs c [] = false
occurs c (d ∷ ds) = same c d || occurs c ds

-- The number of classes that occur.
abbrev pub distinct : List CharClass → ℕ
distinct ds =
    one_if (occurs lower ds)
    + one_if (occurs upper ds)
    + one_if (occurs digit ds)
    + one_if (occurs special ds)

module _ (env : Env) where
  scan_classes-occurs :
      (rs : List ℕ) (s : Seen)
      → let ds = map (class_of env) rs in
        let t = scan_classes env rs s in
        (t.has_lower ≡ s.has_lower || occurs lower ds)
        × (t.has_upper ≡ s.has_upper || occurs upper ds)
        × (t.has_digit ≡ s.has_digit || occurs digit ds)
        × (t.has_special ≡ s.has_special || occurs special ds)
  unfolding scan_classes
  scan_classes-occurs [] s = ground arith
  scan_classes-occurs (r ∷ rs) s = ground (arith, scan_classes-occurs rs (mark (class_of env r) s))

  class_count-eq-distinct :
      (password : Text) → class_count env password ≡ distinct (map (class_of env) (runes password))
  unfolding class_count
  class_count-eq-distinct password =
      ground (arith, scan_classes-occurs (runes password) (none_seen env))

  -- The configured length at least, 256 bytes at most, and the configured number of different
  -- classes of characters at least.
  abbrev pub IsStrong : Text → Type 0
  IsStrong password =
      (env.get_int minimum_password_length 0 default_min_password_len ≤ length password)
      × (length password ≤ 256)
      × (env.get_int required_character_classes_number 0 default_required_classes
          ≤ distinct (map (class_of env) (runes password)))

  -- A password is accepted exactly if it has the configured length at least, 256 bytes at most, and
  -- the configured number of different classes of characters at least.
  pub validate_password-ok_iff :
      (password : Text) (w : World)
      → (validate_password env password w ≡ (ok tt, w)) ↔ IsStrong password
  unfolding validate_password
  validate_password-ok_iff password w = ground (arith, class_count-eq-distinct password)

  validated :
      (password : Text) (w : World) {w' : World}
      → validate_password env password w ≡ (ok tt, w')
      → validate_password env password w ≡ (ok tt, w)
  unfolding validate_password
  validated password w h = ground arith

  pub IsStrong-of_validated :
      (password : Text) (w : World) {w' : World}
      → validate_password env password w ≡ (ok tt, w')
      → IsStrong password
  IsStrong-of_validated password w h =
      (validate_password-ok_iff password w).0 (validated password w h)
