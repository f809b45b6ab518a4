-- ===== src/World/Monad/Reads.antt =====
-- Calls that read: what a call returns, if it returns a value, is a function of the part of the
-- world that `part` shows, and that part stays.
use magento2_customer_graphq.Base.{◌≡◌, ap, ◌∙◌, inl, inr, Bool-cases, arith}
use magento2_customer_graphq.Errors.{Context}
use magento2_customer_graphq.World.{World}
use magento2_customer_graphq.World.Orders.{Sales}
use magento2_customer_graphq.World.Monad.{
  Outcome, ok, err, panic, Action, ◌>>=◌, pure, within, query, next_fault, wrap_outcome,
}
use magento2_customer_graphq.World.Monad.Laws.{>>=-eq-ok}

within-eq-ok :
    {A : Type 0} (c : Context) (o : Outcome A) (a : A) → wrap_outcome c o ≡ ok a → o ≡ ok a
within-eq-ok c (ok b) a h = h
within-eq-ok c (err e) a h = absurd (ground arith)
within-eq-ok c panic a h = absurd (ground arith)

module _ {S : Type 0} (part : World → S) where
  abbrev pub Reads : {A : Type 0} → Action A → (S → A) → Type 0
  Reads {A} m f =
      (w : World) (a : A) (v : World) → m w ≡ (ok a, v) → (a ≡ f (part w)) × (part v ≡ part w)

  pub pure-Reads : {A : Type 0} (a : A) → Reads (pure a) (λ _. a)
  pure-Reads a w b v h = ground arith

  pub >>=-Reads :
      {A B : Type 0} (m : Action A) (k : A → Action B) (f : S → A) (g : A → S → B)
      → Reads m f
      → ((a : A) → Reads (k a) (g a))
      → Reads (m >>= k) (λ s. g (f s) s)
  >>=-Reads m k f g hm hk w b v h =
      let (a, u, e, e') = >>=-eq-ok m k w h in
      let (value, same) = hm w a u e in
      let (value', same') = hk a u b v e' in (rw (← value, ← same) value', same' ∙ same)

  -- A chain that begins with a call that reads: the rest runs on what was read of `s`.
  pub read_first :
      {A B : Type 0} (m : Action A) (k : A → Action B) (f : S → A) (s : S) (w : World) {b : B}
      {v : World}
      → Reads m f
      → part w ≡ s
      → (m >>= k) w ≡ (ok b, v)
      → (u : World) × (part u ≡ s) × (k (f s) u ≡ (ok b, v))
  read_first m k f s w hm same h =
      let (a, u, e, e') = >>=-eq-ok m k w h in
      let (value, kept) = hm w a u e in (u, kept ∙ same, rw (← same, ← value) e')

  pub within-Reads :
      {A : Type 0} (c : Context) (m : Action A) (f : S → A) → Reads m f → Reads (within c m) f
  within-Reads c m f hm w a v h =
      hm w a v (λ i. (within-eq-ok c (m w).0 a (ap (λ t. t.0) h) i, (h i).1))

-- A statement that reads one table of sales.
abbrev pub sales_of : World → Sales
sales_of w = w.sales

pub query-Reads : {A : Type 0} (f : Sales → A) → Reads sales_of (query (λ w. f w.sales)) f
query-Reads f w a v h = elim (Bool-cases (next_fault w.faults)) [
  | inl e ↦ absurd (ground arith)
  | inr e ↦ ground arith
]
