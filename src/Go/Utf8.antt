-- ===== src/Go/Utf8.antt =====
-- `for _, r := range s` over a string: the runes that `utf8.DecodeRuneInString` finds. A byte that
-- begins no valid sequence is the rune U+FFFD of width 1.
use magento2_customer_graphq.Base.{
  ℕ, zero, suc, ◌+◌, ◌-◌, ◌*◌, ◌≡◌, refl, ◌&&◌, List, [], ◌∷◌, ltb, leb, if◌then◌else◌,
}
use magento2_customer_graphq.Base.Text.{Text}

abbrev rune_error : ℕ
rune_error = 0xFFFD

abbrev continues : ℕ → ℕ → ℕ → ℕ → ℕ
continues lo hi b r = if leb lo b && leb b hi then r else 0

-- A rune and its width, or the error.
abbrev checked : ℕ → ℕ → ℕ × ℕ
checked width zero = (rune_error, 1)
checked width (suc r) = (suc r, width)

abbrev decode2 : ℕ → Text → ℕ × ℕ
decode2 b (c ∷ _) = checked 2 (continues 0x80 0xBF c ((b - 0xC0) * 64 + (c - 0x80)))
decode2 b [] = (rune_error, 1)

-- The second byte of a longer sequence has a range of its own: no overlong forms, no surrogates.
abbrev low3 : ℕ → ℕ
low3 b = if leb b 0xE0 then 0xA0 else 0x80

abbrev high3 : ℕ → ℕ
high3 b = if leb b 0xEC then 0xBF else if leb b 0xED then 0x9F else 0xBF

abbrev decode3 : ℕ → Text → ℕ × ℕ
decode3 b (c ∷ d ∷ _) = checked 3 (
    continues (low3 b) (high3 b) c
      (continues 0x80 0xBF d ((b - 0xE0) * 4096 + (c - 0x80) * 64 + (d - 0x80))))
decode3 b _ = (rune_error, 1)

abbrev low4 : ℕ → ℕ
low4 b = if leb b 0xF0 then 0x90 else 0x80

abbrev high4 : ℕ → ℕ
high4 b = if leb b 0xF3 then 0xBF else 0x8F

abbrev decode4 : ℕ → Text → ℕ × ℕ
decode4 b (c ∷ d ∷ e ∷ _) = checked 4 (
    continues (low4 b) (high4 b) c (
      continues 0x80 0xBF d (
        continues 0x80 0xBF e
          ((b - 0xF0) * 262144 + (c - 0x80) * 4096 + (d - 0x80) * 64 + (e - 0x80)))))
decode4 b _ = (rune_error, 1)

-- The first rune and its width.
decode_rune : ℕ → Text → ℕ × ℕ
decode_rune b s =
    if ltb b 0x80
    then (b, 1)
    else if ltb b 0xC2
    then (rune_error, 1)
    else if ltb b 0xE0
    then decode2 b s
    else if ltb b 0xF0
    then decode3 b s
    else if ltb b 0xF5
    then decode4 b s
    else (rune_error, 1)

-- `skip` bytes belong to the rune before.
runes_from : ℕ → Text → List ℕ
runes_from skip [] = []
runes_from zero (b ∷ s) = let (r, width) = decode_rune b s in r ∷ runes_from (width - 1) s
runes_from (suc skip) (b ∷ s) = runes_from skip s

unfoldable pub runes : Text → List ℕ
unfolding decode_rune runes_from
runes s = runes_from 0 s

-- "aé€😀", a lone continuation byte and an overlong slash.
runes_test :
    runes (
      0x61 ∷ 0xC3 ∷ 0xA9 ∷ 0xE2 ∷ 0x82 ∷ 0xAC ∷ 0xF0 ∷ 0x9F ∷ 0x98 ∷ 0x80 ∷ 0xBF ∷ 0xC0 ∷ 0xAF ∷ [])
    ≡ 0x61 ∷ 0xE9 ∷ 0x20AC ∷ 0x1F600 ∷ rune_error ∷ rune_error ∷ rune_error ∷ []
unfolding runes
runes_test = refl
