-- ===== src/Go/Base64.antt =====
-- `base64.StdEncoding`: `EncodeToString` and `DecodeString`. The decoder skips line breaks and
-- wants the padding.
use magento2_customer_graphq.Base.{
  ℕ, ◌+◌, ◌-◌, ◌*◌, ◌/◌, ◌%◌, ◌<◌, ◌≢◌, ◌≡◌, refl, ◌&&◌, ◌||◌, Option, none, some, [], ◌∷◌, arith,
  All, ltb, leb, ◌==◌, if◌then◌else◌,
}
use magento2_customer_graphq.Base.Text.{Text, text, Free}
use magento2_customer_graphq.Go.Strconv.{IsByte}

-- The alphabet: A-Z, a-z, 0-9, + and /.
sextet : ℕ → ℕ
sextet v =
    if ltb v 26
    then 65 + v
    else if ltb v 52
    then 71 + v
    else if ltb v 62
    then v - 4
    else if v == 62
    then b'+'
    else b'/'

unfoldable pub base64_encode : Text → Text
unfolding sextet
base64_encode [] = []
base64_encode (a ∷ []) = sextet (a / 4) ∷ sextet (a % 4 * 16) ∷ b'=' ∷ b'=' ∷ []
base64_encode (a ∷ b ∷ []) =
    sextet (a / 4) ∷ sextet (a % 4 * 16 + b / 16) ∷ sextet (b % 16 * 4) ∷ b'=' ∷ []
base64_encode (a ∷ b ∷ c ∷ s) =
    sextet (a / 4)
    ∷ sextet (a % 4 * 16 + b / 16)
    ∷ sextet (b % 16 * 4 + c / 64)
    ∷ sextet (c % 64)
    ∷ base64_encode s

-- The place of a byte in the alphabet.
value : ℕ → Option ℕ
value b =
    if leb b'A' b && leb b b'Z'
    then some (b - 65)
    else if leb b'a' b && leb b b'z'
    then some (b - 71)
    else if leb b'0' b && leb b b'9'
    then some (b + 4)
    else if b == b'+'
    then some 62
    else if b == b'/'
    then some 63
    else none

abbrev prepend3 : Option ℕ → Option ℕ → Option ℕ → Option ℕ → Option Text → Option Text
prepend3 (some p) (some q) (some r) (some t) (some s) =
    some ((p * 4 + q / 16) ∷ (q % 16 * 16 + r / 4) ∷ (r % 4 * 64 + t) ∷ s)
prepend3 _ _ _ _ _ = none

abbrev last2 : Option ℕ → Option ℕ → Option ℕ → Option Text
last2 (some p) (some q) (some r) = some ((p * 4 + q / 16) ∷ (q % 16 * 16 + r / 4) ∷ [])
last2 _ _ _ = none

abbrev last1 : Option ℕ → Option ℕ → Option Text
last1 (some p) (some q) = some ((p * 4 + q / 16) ∷ [])
last1 _ _ = none

-- Groups of four; the last may end in one or two signs of padding.
decode_groups : Text → Option Text
decode_groups [] = some []
decode_groups (p ∷ q ∷ r ∷ t ∷ []) =
    if t == b'='
    then if r == b'=' then last1 (value p) (value q) else last2 (value p) (value q) (value r)
    else prepend3 (value p) (value q) (value r) (value t) (some [])
decode_groups (p ∷ q ∷ r ∷ t ∷ s) =
    prepend3 (value p) (value q) (value r) (value t) (decode_groups s)
decode_groups _ = none

without_breaks : Text → Text
without_breaks [] = []
without_breaks (b ∷ s) = if b == 10 || b == 13 then without_breaks s else b ∷ without_breaks s

unfoldable pub base64_decode : Text → Option Text
unfolding value decode_groups without_breaks
base64_decode s = decode_groups (without_breaks s)

tests :
    (base64_encode (text "12345") ≡ text "MTIzNDU=")
    × (base64_decode (text "MTIzNDU=") ≡ some (text "12345"))
    × (base64_decode (text "MQ==") ≡ some (text "1"))
    × (base64_decode (text "MQ=") ≡ none)
unfolding base64_encode base64_decode
tests = (refl, refl, refl, refl)

value-sextet : (v : ℕ) → v < 64 → value (sextet v) ≡ some v
unfolding value sextet
value-sextet v h = ground arith

-- A sign of the alphabet is no padding, no line break and no colon.
sextet_plain :
    (v : ℕ) → v < 64 → (sextet v ≢ b'=') × (sextet v ≢ 10) × (sextet v ≢ 13) × (sextet v ≢ b':')
unfolding sextet
sextet_plain v h = ground arith

-- A group with no padding is read whatever follows it.
decode_groups_full :
    (p q r t : ℕ) (s : Text)
    → t ≢ b'='
    → decode_groups (p ∷ q ∷ r ∷ t ∷ s)
      ≡ prepend3 (value p) (value q) (value r) (value t) (decode_groups s)
unfolding decode_groups
decode_groups_full p q r t [] h = ground arith
decode_groups_full p q r t (_ ∷ s) h = refl

regroup3 :
    (a b c : ℕ) (s : Option Text)
    → a < 256
    → b < 256
    → c < 256
    → prepend3
        (value (sextet (a / 4)))
        (value (sextet (a % 4 * 16 + b / 16)))
        (value (sextet (b % 16 * 4 + c / 64)))
        (value (sextet (c % 64)))
        s
      ≡ prepend3
          (some (a / 4))
          (some (a % 4 * 16 + b / 16))
          (some (b % 16 * 4 + c / 64))
          (some (c % 64))
          s
regroup3 a b c s ha hb hc = rw (
  value-sextet (a / 4) (omega arith),
  value-sextet (a % 4 * 16 + b / 16) (omega arith),
  value-sextet (b % 16 * 4 + c / 64) (omega arith),
  value-sextet (c % 64) (omega arith),
)

decode_groups-base64_encode : (s : Text) → All IsByte s → decode_groups (base64_encode s) ≡ some s
unfolding base64_encode
decode_groups-base64_encode [] h = unfold decode_groups in refl
decode_groups-base64_encode (a ∷ []) h =
    unfold decode_groups in
    rw (value-sextet (a / 4) (omega arith), value-sextet (a % 4 * 16) (omega arith)) (ground arith)
decode_groups-base64_encode (a ∷ b ∷ []) h =
    unfold decode_groups in
    rw
      (
        value-sextet (a / 4) (omega arith),
        value-sextet (a % 4 * 16 + b / 16) (omega arith),
        value-sextet (b % 16 * 4) (omega arith),
      )
      (ground (arith, sextet_plain (b % 16 * 4)))
decode_groups-base64_encode (a ∷ b ∷ c ∷ s) h =
    rw
      (
        decode_groups_full _ _ _ (sextet (c % 64)) (base64_encode s)
            (sextet_plain (c % 64) (omega arith)).0,
        regroup3 a b c (decode_groups (base64_encode s)) h.0 h.1.0 h.1.1.0,
        decode_groups-base64_encode s h.1.1.1,
      )
      (ground arith)

-- A byte that is no line break.
abbrev IsKept : ℕ → Type 0
IsKept b = (b ≢ 10) × (b ≢ 13)

without_breaks_of_IsKept : (s : Text) → All IsKept s → without_breaks s ≡ s
unfolding without_breaks
without_breaks_of_IsKept [] h = refl
without_breaks_of_IsKept (b ∷ s) h = ground (arith, without_breaks_of_IsKept s h.1)

-- What the alphabet and the padding have in common.
module _ (P : ℕ → Type 0) (sign : (v : ℕ) → v < 64 → P (sextet v)) (pad : P b'=') where
  base64_encode-All : (s : Text) → All IsByte s → All P (base64_encode s)
  unfolding base64_encode
  base64_encode-All [] h = tt
  base64_encode-All (a ∷ []) h =
      (sign (a / 4) (omega arith), (sign (a % 4 * 16) (omega arith), (pad, (pad, tt))))
  base64_encode-All (a ∷ b ∷ []) h = (
    sign (a / 4) (omega arith),
    (sign (a % 4 * 16 + b / 16) (omega arith), (sign (b % 16 * 4) (omega arith), (pad, tt))),
  )
  base64_encode-All (a ∷ b ∷ c ∷ s) h = (
    sign (a / 4) (omega arith),
    (
      sign (a % 4 * 16 + b / 16) (omega arith),
      (
        sign (b % 16 * 4 + c / 64) (omega arith),
        (sign (c % 64) (omega arith), base64_encode-All s h.1.1.1),
      ),
    ),
  )

sextet-IsKept : (v : ℕ) → v < 64 → IsKept (sextet v)
sextet-IsKept v h = ((sextet_plain v h).1, (sextet_plain v h).2)

-- The decoder inverts the encoder.
pub base64_decode-base64_encode :
    (s : Text) → All IsByte s → base64_decode (base64_encode s) ≡ some s
unfolding base64_decode
base64_decode-base64_encode s h = rw (
  without_breaks_of_IsKept (base64_encode s)
      (base64_encode-All IsKept sextet-IsKept (omega arith) s h),
  decode_groups-base64_encode s h,
)

Free-of_All : (s : Text) → All (λ b. b ≢ b':') s → Free b':' s
Free-of_All [] h = tt
Free-of_All (b ∷ s) h = (h.0, Free-of_All s h.1)

-- The encoded text holds no colon.
pub base64_encode-Free : (s : Text) → All IsByte s → Free b':' (base64_encode s)
base64_encode-Free s h =
    Free-of_All (base64_encode s)
      (base64_encode-All (λ b. b ≢ b':') (λ v k. (sextet_plain v k).3) (omega arith) s h)
