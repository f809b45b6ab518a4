-- ===== src/Repository/Sql.antt =====
-- What the statements of internal/repository do to a table: the first row that a condition picks,
-- an update and a deletion of the rows that it picks.
use magento2_customer_graphq.Base.{
  ◌≡◌, refl, ap, ◌+◌, length, Bool, true, false, Option, none, some, List, [], ◌∷◌, ◌++◌, arith,
  All, if◌then◌else◌, Bool-cases, inl, inr,
}
use mathlib.Core.Option
use mathlib.Core.Path.{subst}

module _ {A : Type 0} where
  -- `SELECT ... WHERE p`, read by `QueryRow`.
  unfoldable pub find : (A → Bool) → List A → Option A
  find p [] = none
  find p (r ∷ rs) = if p r then some r else find p rs

  -- `SELECT ... WHERE p`
  unfoldable pub select : (A → Bool) → List A → List A
  select p [] = []
  select p (r ∷ rs) = if p r then r ∷ select p rs else select p rs

  -- `UPDATE ... SET f WHERE p`
  unfoldable pub update_where : (A → Bool) → (A → A) → List A → List A
  update_where p f [] = []
  update_where p f (r ∷ rs) = (if p r then f r else r) ∷ update_where p f rs

  -- `DELETE ... WHERE p`
  unfoldable pub delete_where : (A → Bool) → List A → List A
  delete_where p [] = []
  delete_where p (r ∷ rs) = if p r then delete_where p rs else r ∷ delete_where p rs

  pub find-append_of_none :
      (p : A → Bool) (rs : List A) (r : A)
      → find p rs ≡ none
      → p r ≡ true
      → find p (rs ++ r ∷ []) ≡ some r
  unfolding find
  find-append_of_none p [] r h k = rw k
  find-append_of_none p (x ∷ rs) r h k = ground (arith, find-append_of_none p rs r)

  pub find-append_of_some :
      (p : A → Bool) (rs ss : List A) (r : A) → find p rs ≡ some r → find p (rs ++ ss) ≡ some r
  unfolding find
  find-append_of_some p [] ss r h = cc
  find-append_of_some p (x ∷ rs) ss r h = ground (arith, find-append_of_some p rs ss r)

  -- An update that keeps the condition is seen in the row that is found.
  pub find-update_where_self :
      (p : A → Bool) (f : A → A) (rs : List A)
      → ((r : A) → p (f r) ≡ p r)
      → find p (update_where p f rs) ≡ Option.map f (find p rs)
  unfolding find update_where
  find-update_where_self p f [] keep = refl
  find-update_where_self p f (r ∷ rs) keep =
      ground (arith, keep r, find-update_where_self p f rs keep)

  -- The row that is found after an update is the one before, updated if the update picks it.
  pub find-update_where :
      (p q : A → Bool) (f : A → A) (rs : List A)
      → ((r : A) → p (f r) ≡ p r)
      → find p (update_where q f rs) ≡ Option.map (λ r. if q r then f r else r) (find p rs)
  unfolding find update_where
  find-update_where p q f [] keep = refl
  find-update_where p q f (r ∷ rs) keep = ground (arith, keep r, find-update_where p q f rs keep)

  pub find-update_where_hit :
      (p q : A → Bool) (f : A → A) (rs : List A) (r : A)
      → ((s : A) → p (f s) ≡ p s)
      → q r ≡ true
      → find p rs ≡ some r
      → find p (update_where q f rs) ≡ some (f r)
  find-update_where_hit p q f rs r keep hit e =
      rw (find-update_where p q f rs keep, e) (ground arith)

  -- An update of other rows is not seen.
  pub find-update_where_ne :
      (q p : A → Bool) (f : A → A) (rs : List A)
      → ((r : A) → p r ≡ true → (q r ≡ false) × (q (f r) ≡ false))
      → find q (update_where p f rs) ≡ find q rs
  unfolding find update_where
  find-update_where_ne q p f [] keep = refl
  find-update_where_ne q p f (r ∷ rs) keep =
      ground (arith, keep r, find-update_where_ne q p f rs keep)

  pub find-delete_where_self : (p : A → Bool) (rs : List A) → find p (delete_where p rs) ≡ none
  unfolding find delete_where
  find-delete_where_self p [] = refl
  find-delete_where_self p (r ∷ rs) = ground (arith, find-delete_where_self p rs)

  pub find-delete_where_ne :
      (q p : A → Bool) (rs : List A)
      → ((r : A) → p r ≡ true → q r ≡ false)
      → find q (delete_where p rs) ≡ find q rs
  unfolding find delete_where
  find-delete_where_ne q p [] keep = refl
  find-delete_where_ne q p (r ∷ rs) keep = ground (arith, keep r, find-delete_where_ne q p rs keep)

  -- The row that is found satisfies the condition.
  pub find_sound : (p : A → Bool) (rs : List A) (r : A) → find p rs ≡ some r → p r ≡ true
  unfolding find
  find_sound p [] r h = cc
  find_sound p (x ∷ rs) r h = ground (arith, find_sound p rs r)

  pub All-update_where :
      (P : A → Type 0) (p : A → Bool) (f : A → A) (rs : List A)
      → ((r : A) → p r ≡ true → P r → P (f r))
      → All P rs
      → All P (update_where p f rs)
  unfolding update_where
  All-update_where P p f [] keep h = tt
  All-update_where P p f (r ∷ rs) keep (h, hs) = elim (Bool-cases (p r)) [
    | inl e ↦ rw e (keep r e h, All-update_where P p f rs keep hs)
    | inr e ↦ rw e (h, All-update_where P p f rs keep hs)
  ]

  pub All-delete_where :
      (P : A → Type 0) (p : A → Bool) (rs : List A) → All P rs → All P (delete_where p rs)
  unfolding delete_where
  All-delete_where P p [] h = tt
  All-delete_where P p (r ∷ rs) (h, hs) = elim (Bool-cases (p r)) [
    | inl e ↦ rw e (All-delete_where P p rs hs)
    | inr e ↦ rw e (h, All-delete_where P p rs hs)
  ]

  pub All-find :
      (P : A → Type 0) (p : A → Bool) (rs : List A) (r : A) → All P rs → find p rs ≡ some r → P r
  unfolding find
  All-find P p [] r h e = cc
  All-find P p (x ∷ rs) r (h, hs) e = elim (Bool-cases (p x)) [
    | inl here ↦ let same : x ≡ r = ground arith in subst P same h
    | inr there ↦ All-find P p rs r hs (rw there at e)
  ]

  -- A row that is not deleted is found as before.
  pub find-delete_where_kept :
      (q p : A → Bool) (rs : List A) (r : A)
      → find q rs ≡ some r
      → p r ≡ false
      → find q (delete_where p rs) ≡ some r
  unfolding find delete_where
  find-delete_where_kept q p [] r e keep = cc
  find-delete_where_kept q p (x ∷ rs) r e keep = elim (Bool-cases (q x)) [
    | inl here ↦ let same : x ≡ r = ground arith in ground (arith, ap p same)
    | inr there ↦ ground (arith, find-delete_where_kept q p rs r (rw there at e) keep)
  ]

  -- An update that keeps a condition does not change how many rows meet it.
  pub length-select-update_where :
      (p q : A → Bool) (f : A → A) (rs : List A)
      → ((r : A) → p (f r) ≡ p r)
      → length (select p (update_where q f rs)) ≡ length (select p rs)
  unfolding select update_where
  length-select-update_where p q f [] keep = refl
  length-select-update_where p q f (r ∷ rs) keep =
      ground (arith, keep r, length-select-update_where p q f rs keep)

  pub length-select-append :
      (p : A → Bool) (rs : List A) (r : A)
      → p r ≡ true
      → length (select p (rs ++ r ∷ [])) ≡ length (select p rs) + 1
  unfolding select
  length-select-append p [] r h = ground arith
  length-select-append p (x ∷ rs) r h = ground (arith, length-select-append p rs r h)
