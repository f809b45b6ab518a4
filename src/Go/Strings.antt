-- ===== src/Go/Strings.antt =====
-- `strings.Index`, `strings.LastIndex`, `strings.TrimSpace`, `strings.ToUpper` and slices.
use magento2_customer_graphq.Base.{
  ℕ, zero, suc, ◌+◌, ◌-◌, take, drop, Option-cases, ◌≡◌, refl, Bool, true, false, ◌&&◌, ◌||◌,
  Option, none, some, [], ◌∷◌, ◌++◌, map, arith, length, leb, ◌==◌, if◌then◌else◌,
}
use mathlib.Core.List.{reverse}
use magento2_customer_graphq.Base.Text.{Text, text, Free}

abbrev one_later : Option ℕ → Option ℕ
one_later none = none
one_later (some i) = some (suc i)

-- `strings.Index(s, b)` for one byte; `none` is -1.
unfoldable pub index : ℕ → Text → Option ℕ
index b [] = none
index b (c ∷ s) = if c == b then some 0 else one_later (index b s)

-- `strings.LastIndex(s, b)` for one byte; `none` is -1.
abbrev later_or : Bool → Option ℕ → Option ℕ
later_or here (some i) = some (suc i)
later_or true none = some 0
later_or false none = none

unfoldable pub last_index : ℕ → Text → Option ℕ
last_index b [] = none
last_index b (c ∷ s) = later_or (c == b) (last_index b s)

-- The first occurrence: what stands before it is free of the byte.
pub index_first : (b : ℕ) (s t : Text) → Free b s → index b (s ++ b ∷ t) ≡ some (length s)
unfolding index
index_first b [] t h = ground arith
index_first b (c ∷ s) t h = ground (arith, index_first b s t h.1)

-- The text around the first occurrence.
pub index_cut :
    (b : ℕ) (s : Text) (i : ℕ)
    → index b s ≡ some i
    → (s ≡ take i s ++ b ∷ drop (suc i) s) × Free b (take i s) × (length (take i s) ≡ i)
unfolding index
index_cut b [] i h = cc
index_cut b (c ∷ s) zero h = ground (arith, Option-cases (index b s))
index_cut b (c ∷ s) (suc i) h = ground (arith, index_cut b s i)

-- The text around the last occurrence.
pub last_index-none : (b : ℕ) (s : Text) → last_index b s ≡ none → Free b s
unfolding last_index
last_index-none b [] h = tt
last_index-none b (c ∷ s) h = ground (arith, last_index-none b s)

pub last_index_cut :
    (b : ℕ) (s : Text) (i : ℕ)
    → last_index b s ≡ some i
    → (s ≡ take i s ++ b ∷ drop (suc i) s)
      × Free b (drop (suc i) s)
      × (length s ≡ i + 1 + length (drop (suc i) s))
unfolding last_index
last_index_cut b [] i h = cc
last_index_cut b (c ∷ s) zero h = ground (arith, last_index-none b s)
last_index_cut b (c ∷ s) (suc i) h = ground (arith, last_index_cut b s i)

last_index_of_Free : (b : ℕ) (s : Text) → Free b s → last_index b s ≡ none
unfolding last_index
last_index_of_Free b [] h = refl
last_index_of_Free b (c ∷ s) h = ground (arith, last_index_of_Free b s h.1)

pub last_index_last : (b : ℕ) (s t : Text) → Free b t → last_index b (s ++ b ∷ t) ≡ some (length s)
unfolding last_index
last_index_last b [] t h = ground (arith, last_index_of_Free b t h)
last_index_last b (c ∷ s) t h = ground (arith, last_index_last b s t h)

-- `strings.TrimSpace` for ASCII white space.
abbrev is_space : ℕ → Bool
is_space b = b == 32 || (leb 9 b && leb b 13)

trim_left : Text → Text
trim_left [] = []
trim_left (b ∷ s) = let rest = trim_left s in if is_space b then rest else b ∷ s

unfoldable pub trim_space : Text → Text
unfolding trim_left
trim_space s = reverse (trim_left (reverse (trim_left s)))

-- `strings.ToUpper` for ASCII letters.
abbrev upper_byte : ℕ → ℕ
upper_byte b = if leb b'a' b && leb b b'z' then b - 32 else b

unfoldable pub to_upper : Text → Text
to_upper s = map upper_byte s

trim_test : trim_space (text " a b\n") ≡ text "a b"
unfolding trim_space
trim_test = refl

index_tests : (index b'@' (text "a@b@c") ≡ some 1) × (last_index b'.' (text "a.b.c") ≡ some 3)
unfolding index last_index
index_tests = (refl, refl)

-- `strings.Contains(s, sub)`
unfoldable pub starts : Text → Text → Bool
starts [] s = true
starts (a ∷ sub) [] = false
starts (a ∷ sub) (b ∷ s) = a == b && starts sub s

unfoldable pub contains : Text → Text → Bool
unfolding starts
contains sub [] = starts sub []
contains sub (c ∷ s) = starts sub (c ∷ s) || contains sub s

-- What a text contains, it contains with more text before it.
pub contains_after : (sub s t : Text) → contains sub t ≡ true → contains sub (s ++ t) ≡ true
unfolding contains
contains_after sub [] t h = h
contains_after sub (c ∷ s) t h = ground (arith, contains_after sub s t h)
