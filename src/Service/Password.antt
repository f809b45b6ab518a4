-- ===== src/Service/Password.antt =====
-- internal/service/password.go: password strength.
pub mod Strength
use magento2_customer_graphq.Base.{
  ℕ, ◌+◌, Bool, true, false, ◌&&◌, List, [], ◌∷◌, length, ltb, leb, if◌then◌else◌,
}
use magento2_customer_graphq.Base.Text.{Text}
use magento2_customer_graphq.Go.Utf8.{runes}
use magento2_customer_graphq.Errors.{password_too_short, password_too_long, password_classes_short}
use magento2_customer_graphq.World.Monad.{Action, ◌>>◌, fail_if}
use magento2_customer_graphq.Env.{Env, minimum_password_length, required_character_classes_number}

abbrev pub default_min_password_len : ℕ
default_min_password_len = 8

abbrev pub default_required_classes : ℕ
default_required_classes = 3

pub data CharClass : Type 0 where
  lower upper digit special : CharClass

-- Which classes were met.
pub record Seen : Type 0 where
  pub has_lower : Bool
  pub has_upper : Bool
  pub has_digit : Bool
  pub has_special : Bool

abbrev mark : CharClass → Seen → Seen
mark lower s = record s { has_lower = true }
mark upper s = record s { has_upper = true }
mark digit s = record s { has_digit = true }
mark special s = record s { has_special = true }

abbrev pub one_if : Bool → ℕ
one_if true = 1
one_if false = 0

module _ (env : Env) where
  abbrev is_lower : ℕ → Bool
  is_lower r = if ltb r 128 then leb b'a' r && leb r b'z' else env.unicode_lower r

  abbrev is_upper : ℕ → Bool
  is_upper r = if ltb r 128 then leb b'A' r && leb r b'Z' else env.unicode_upper r

  abbrev is_digit : ℕ → Bool
  is_digit r = if ltb r 128 then leb b'0' r && leb r b'9' else env.unicode_digit r

  -- The `switch` of the loop.
  unfoldable pub class_of : ℕ → CharClass
  class_of r =
      if is_lower r
      then lower
      else if is_upper r
      then upper
      else if is_digit r
      then digit
      else special

  -- The loop over the runes.
  unfoldable pub scan_classes : List ℕ → Seen → Seen
  scan_classes [] s = s
  scan_classes (r ∷ rs) s = scan_classes rs (mark (class_of r) s)

  abbrev none_seen : Seen
  none_seen = record {
    has_lower = false;
    has_upper = false;
    has_digit = false;
    has_special = false;
  }

  unfoldable pub class_count : Text → ℕ
  class_count password =
      let s = scan_classes (runes password) none_seen in
      one_if s.has_lower + one_if s.has_upper + one_if s.has_digit + one_if s.has_special

  unfoldable pub validate_password : Text → Action (Unit {0})
  validate_password password = do
    let min_len = env.get_int minimum_password_length 0 default_min_password_len
    let required = env.get_int required_character_classes_number 0 default_required_classes
    fail_if (ltb (length password) min_len) (password_too_short min_len)
    fail_if (ltb 256 (length password)) password_too_long
    fail_if (ltb (class_count password) required) (password_classes_short required)
