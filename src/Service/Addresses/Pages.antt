-- ===== src/Service/Addresses/Pages.antt =====
-- `GetAddressesPaginated` of internal/service/customer.go: the pages of the address book.
use magento2_customer_graphq.Base.{
  ℕ, zero, suc, ◌+◌, ◌-◌, ◌*◌, ◌/◌, ◌^◌, ltb, false, ◌≡◌, ◌≤◌, ◌<◌, refl, ap, ◌∙◌, sym, List, [],
  ◌∷◌, ◌++◌, length, take, drop, min, arith,
}
use native.Mathlib.Nat.{lt-div-mul-add, mul-le-mul_right, div-mul-le_self}
use magento2_customer_graphq.Go.Int.{pos, add64-small}
use magento2_customer_graphq.Repository.Orders.{offset, offset-suc}
use magento2_customer_graphq.World.{World}
use magento2_customer_graphq.World.Monad.{Outcome, ok, err, panic}
use magento2_customer_graphq.Service.Addresses.{slice_page, total_pages}

-- A term at its type.
abbrev pub the : (A : Type 0) → A → A
the A a = a

-- The pages before the last one are full.
pub page_below : (total size k : ℕ) → 0 < size → k < (total + size - 1) / size → k * size < total
page_below total size k h l = omega (
  arith,
  mul-le-mul_right {m = suc k} size (the (suc k ≤ (total + size - 1) / size) (omega arith)),
  div-mul-le_self (total + size - 1) size,
  the (suc k * size ≡ k * size + size) (omega arith),
)

-- A page that begins within a list ends within the integers of 64 bits.
page_end :
    (p size total : ℕ)
    → size < 2 ^ 63
    → total < 2 ^ 62
    → p * size < total
    → min (p * size) total + size < 2 ^ 63
page_end zero size total s l b = omega arith
page_end (suc p) size total s l b =
    omega (arith, the (suc p * size ≡ p * size + size) (omega arith))

pub enough : (total size : ℕ) → 0 < size → total ≤ total_pages total size * size
unfolding total_pages
enough total size h = omega (arith, lt-div-mul-add {a = total + size - 1} h)

module _ {A : Type 0} where
  take-[] : (n : ℕ) → take n (the (List A) []) ≡ []
  take-[] zero = refl
  take-[] (suc n) = refl

  drop-[] : (n : ℕ) → drop n (the (List A) []) ≡ []
  drop-[] zero = refl
  drop-[] (suc n) = refl

  take-min : (n : ℕ) (xs : List A) → take (min n (length xs)) xs ≡ take n xs
  take-min zero xs = rw (the (min 0 (length xs) ≡ 0) (omega arith)) refl
  take-min (suc n) [] = rw (the (min (suc n) 0 ≡ 0) (omega arith)) refl
  take-min (suc n) (x ∷ xs) =
      rw (the (min (suc n) (suc (length xs)) ≡ suc (min n (length xs))) (omega arith))
        (ap (λ ys. x ∷ ys) (take-min n xs))

  -- The page `p`, from 1 on.
  abbrev pub page : ℕ → ℕ → List A → List A
  page p size xs = take size (drop ((p - 1) * size) xs)

  window :
      (s n : ℕ) (xs : List A)
      → take
          (min (min s (length xs) + n) (length xs) - min s (length xs))
          (drop (min s (length xs)) xs)
        ≡ take n (drop s xs)
  window zero n xs =
      rw
        (
          the (min 0 (length xs) ≡ 0) (omega arith),
          the (min (0 + n) (length xs) - 0 ≡ min n (length xs)) (omega arith),
        )
        (take-min n xs)
  window (suc s) n [] = rw (drop-[] (min (suc s) 0), take-[] n) (take-[] _)
  window (suc s) n (x ∷ xs) =
      rw
        (
          the (min (suc s) (suc (length xs)) ≡ suc (min s (length xs))) (omega arith),
          the
              (min (suc (min s (length xs)) + n) (suc (length xs)) - suc (min s (length xs))
                ≡ min (min s (length xs) + n) (length xs) - min s (length xs))
              (omega arith),
        )
        (window s n xs)

  slice_page-at :
      (p size s : ℕ) (xs : List A) (w : World)
      → offset p size ≡ pos s
      → min s (length xs) + size < 2 ^ 63
      → slice_page p size xs w ≡ (ok (take size (drop s xs)), w)
  unfolding slice_page
  slice_page-at p size s xs w h b =
      let t = min s (length xs) in
      let passed : (ltb (min (t + size) (length xs)) t ≡ false) = ground arith in
      rw (h, add64-small t size b, passed, window s size xs) refl

  slice_page-page :
      (p size : ℕ) (xs : List A) (w : World)
      → p * size < 2 ^ 63
      → min (p * size) (length xs) + size < 2 ^ 63
      → slice_page (suc p) size xs w ≡ (ok (page (suc p) size xs), w)
  slice_page-page p size xs w h b =
      let same : (suc p - 1 ≡ p) = omega arith in
      rw same (slice_page-at (suc p) size (p * size) xs w (offset-suc p size h) b)

  take-add : (m n : ℕ) (xs : List A) → take (m + n) xs ≡ take m xs ++ take n (drop m xs)
  take-add zero n xs = rw (the (0 + n ≡ n) (omega arith)) refl
  take-add (suc m) n [] = rw (take-[] (suc m + n), take-[] n) refl
  take-add (suc m) n (x ∷ xs) =
      rw (the (suc m + n ≡ suc (m + n)) (omega arith)) (ap (λ ys. x ∷ ys) (take-add m n xs))

  -- The pages from 1 to `n`, one after the other.
  abbrev pub pages : ℕ → ℕ → List A → List A
  pages zero size xs = []
  pages (suc n) size xs = pages n size xs ++ page (suc n) size xs

  pub pages-take : (n size : ℕ) (xs : List A) → pages n size xs ≡ take (n * size) xs
  pages-take zero size xs = rw (the (0 * size ≡ 0) (omega arith)) refl
  pages-take (suc n) size xs =
      rw
        (
          pages-take n size xs,
          the (suc n - 1 ≡ n) (omega arith),
          the (suc n * size ≡ n * size + size) (omega arith),
        )
        (sym (take-add (n * size) size xs))

  pub take-all : (n : ℕ) (xs : List A) → length xs ≤ n → take n xs ≡ xs
  take-all zero [] h = refl
  take-all zero (x ∷ xs) h = absurd (omega arith)
  take-all (suc n) [] h = refl
  take-all (suc n) (x ∷ xs) h = ap (λ ys. x ∷ ys) (take-all n xs (omega arith))

module _ {A : Type 0} where
  abbrev page_or_nil : Outcome (List A) → List A
  page_or_nil (ok xs) = xs
  page_or_nil (err _) = []
  page_or_nil panic = []

  -- What a client collects that asks for the pages 1 to `n`.
  abbrev pub collected : ℕ → ℕ → List A → World → List A
  collected zero size xs w = []
  collected (suc n) size xs w =
      collected n size xs w ++ page_or_nil (slice_page (suc n) size xs w).0

  -- The pages that begin within the list.
  collected-pages :
      (n size : ℕ) (xs : List A) (w : World)
      → size < 2 ^ 63
      → length xs < 2 ^ 62
      → ((k : ℕ) → k < n → k * size < length xs)
      → collected n size xs w ≡ pages n size xs
  collected-pages zero size xs w s l h = refl
  collected-pages (suc n) size xs w s l h =
      let below = h n (omega arith) in
      rw
        (
          collected-pages n size xs w s l (λ k b. h k (omega arith)),
          slice_page-page n size xs w (omega arith) (page_end n size (length xs) s l below),
        )
        refl

  -- For a page size above 0 that is an integer of 64 bits, and a list of fewer than 2 ^ 62 entries:
  -- the pages from 1 to the number of pages that is reported hold, one
  -- after the other, the whole list, each entry once and in its order.
  pub pages_cover :
      (size : ℕ) (xs : List A) (w : World)
      → 0 < size
      → size < 2 ^ 63
      → length xs < 2 ^ 62
      → collected (total_pages (length xs) size) size xs w ≡ xs
  unfolding total_pages
  pages_cover size xs w h s l =
      let n = total_pages (length xs) size in
      collected-pages n size xs w s l (λ k b. page_below (length xs) size k h b)
      ∙ (pages-take n size xs ∙ take-all (n * size) xs (enough (length xs) size h))
