-- ===== src/Go/Hex.antt =====
-- `hex.EncodeToString`.
use magento2_customer_graphq.Base.{ℕ, ◌≡◌, refl, ◌+◌, ◌/◌, ◌%◌, [], ◌∷◌, arith, ltb, if◌then◌else◌}
use magento2_customer_graphq.Base.Text.{Text, Free}

hex_digit : ℕ → ℕ
hex_digit v = if ltb v 10 then 48 + v else 87 + v

unfoldable pub hex_encode : Text → Text
unfolding hex_digit
hex_encode [] = []
hex_encode (b ∷ s) = hex_digit (b / 16) ∷ hex_digit (b % 16) ∷ hex_encode s

pub hex_encode-Free : (s : Text) → Free b':' (hex_encode s)
unfolding hex_encode
hex_encode-Free [] = tt
hex_encode-Free (b ∷ s) = ground (arith, hex_encode-Free s)

-- Two texts with the same encoding are the same.
pub hex_encode_inj : (s t : Text) → hex_encode s ≡ hex_encode t → s ≡ t
unfolding hex_encode
hex_encode_inj [] [] h = refl
hex_encode_inj [] (b ∷ t) h = cc
hex_encode_inj (a ∷ s) [] h = cc
hex_encode_inj (a ∷ s) (b ∷ t) h = ground (arith, hex_encode_inj s t)
