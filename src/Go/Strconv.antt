-- ===== src/Go/Strconv.antt =====
-- `strconv.Itoa` and `strconv.Atoi`.
use magento2_customer_graphq.Base.{
  ℕ, zero, suc, ◌+◌, ◌-◌, ◌*◌, ◌/◌, ◌%◌, ◌≤◌, ◌<◌, ◌≡◌, refl, Bool, ◌&&◌, All, Option, none, some,
  [], ◌∷◌, arith, ltb, leb, ◌==◌, if◌then◌else◌,
}
use magento2_customer_graphq.Base.Text.{Text, text, Free}
use magento2_customer_graphq.Go.Int.{ℤ, pos, negsuc}

abbrev pub max_int : ℕ
max_int = 9223372036854775807

-- The digits of `n` before those of `acc`; the fuel exceeds the number of digits.
itoa_from : ℕ → ℕ → Text → Text
itoa_from zero n acc = acc
itoa_from (suc f) n acc =
    let rest = itoa_from f (n / 10) ((48 + n % 10) ∷ acc) in
    if ltb n 10 then (48 + n) ∷ acc else rest

-- `strconv.Itoa(n)` for an n that is not negative.
unfoldable pub itoa : ℕ → Text
unfolding itoa_from
itoa n = itoa_from (suc n) n []

abbrev is_digit : ℕ → Bool
is_digit b = leb b'0' b && leb b b'9'

parse_digits : ℕ → Text → Option ℕ
parse_digits v [] = some v
parse_digits v (b ∷ s) = if is_digit b then parse_digits (v * 10 + (b - 48)) s else none

abbrev in_range : ℕ → (ℕ → ℤ) → Option ℕ → Option ℤ
in_range most sign none = none
in_range most sign (some v) = if leb v most then some (sign v) else none

abbrev negative : ℕ → ℤ
negative zero = pos 0
negative (suc n) = negsuc n

-- The digits, of which there is one at least.
abbrev parse_unsigned : Text → Option ℕ
parse_unsigned [] = none
parse_unsigned (b ∷ s) = parse_digits 0 (b ∷ s)

-- `strconv.Atoi(s)`; `none` is a syntax or a range error.
unfoldable pub atoi : Text → Option ℤ
unfolding parse_digits
atoi [] = none
atoi (b ∷ s) =
    if b == b'-'
    then in_range (max_int + 1) negative (parse_unsigned s)
    else if b == b'+'
    then in_range max_int pos (parse_unsigned s)
    else in_range max_int pos (parse_digits 0 (b ∷ s))

parse_digits-itoa_from :
    (f n : ℕ) (acc : Text) → n < f → parse_digits 0 (itoa_from f n acc) ≡ parse_digits n acc
unfolding itoa_from parse_digits
parse_digits-itoa_from zero n acc h = elim h [ ]
parse_digits-itoa_from (suc f) n acc h =
    ground (arith, parse_digits-itoa_from f (n / 10) ((48 + n % 10) ∷ acc))

-- A text that begins with a digit.
abbrev StartsDigit : Text → Type 0
StartsDigit [] = ⊥
StartsDigit (b ∷ _) = (48 ≤ b) × (b ≤ 57)

itoa_from-StartsDigit : (f n : ℕ) (acc : Text) → n < f → StartsDigit (itoa_from f n acc)
unfolding itoa_from
itoa_from-StartsDigit zero n acc h = elim h [ ]
itoa_from-StartsDigit (suc f) n acc h =
    ground (arith, itoa_from-StartsDigit f (n / 10) ((48 + n % 10) ∷ acc))

atoi_of_digits :
    (s : Text) (n : ℕ)
    → StartsDigit s
    → parse_digits 0 s ≡ some n
    → n ≤ max_int
    → atoi s ≡ some (pos n)
unfolding atoi
atoi_of_digits [] n d e r = absurd d
atoi_of_digits (b ∷ s) n d e r = ground arith

-- What `Itoa` writes, `Atoi` reads back.
pub atoi-itoa : (n : ℕ) → n ≤ max_int → atoi (itoa n) ≡ some (pos n)
unfolding itoa parse_digits
atoi-itoa n h =
    atoi_of_digits (itoa_from (suc n) n []) n (itoa_from-StartsDigit (suc n) n [] (omega arith))
      (parse_digits-itoa_from (suc n) n [] (omega arith)) h

itoa_from-Free : (sep f n : ℕ) (acc : Text) → 57 < sep → Free sep acc → Free sep (itoa_from f n acc)
unfolding itoa_from
itoa_from-Free sep zero n acc h k = k
itoa_from-Free sep (suc f) n acc h k =
    ground (arith, itoa_from-Free sep f (n / 10) ((48 + n % 10) ∷ acc) h)

-- A byte above the digits does not stand in a number.
pub itoa-Free : (sep n : ℕ) → 57 < sep → Free sep (itoa n)
unfolding itoa
itoa-Free sep n h = itoa_from-Free sep (suc n) n [] h tt

abbrev pub IsByte : ℕ → Type 0
IsByte b = b < 256

itoa_from-All : (f n : ℕ) (acc : Text) → All IsByte acc → All IsByte (itoa_from f n acc)
unfolding itoa_from
itoa_from-All zero n acc k = k
itoa_from-All (suc f) n acc k = ground (arith, itoa_from-All f (n / 10) ((48 + n % 10) ∷ acc))

pub itoa-IsByte : (n : ℕ) → All IsByte (itoa n)
unfolding itoa
itoa-IsByte n = itoa_from-All (suc n) n [] tt

itoa_test : itoa 67108864 ≡ text "67108864"
unfolding itoa
itoa_test = refl

atoi_tests : (atoi (text "-12") ≡ some (negsuc 11)) × (atoi (text "12x") ≡ none) × (atoi [] ≡ none)
unfolding atoi
atoi_tests = (refl, refl, refl)
