-- ===== src/World/Monad/Frame.antt =====
-- What a call leaves alone: the part of the world that `part` shows is the same before and after,
-- however the call ends.
use magento2_customer_graphq.Base.{
  ◌≡◌, ◌≢◌, ◌⊎◌, inl, inr, arith, refl, ◌∙◌, Bool, true, false, Option, none, some,
}
use magento2_customer_graphq.Errors.{Error}
use magento2_customer_graphq.World.{World}
use magento2_customer_graphq.World.Monad.{
  Outcome, ok, err, panic, Action, bind_outcome, ◌>>=◌, ◌>>◌, deref, row, when, fail_if,
}

module _ {P : Type 0} (part : World → P) where
  abbrev pub Keeps : {A : Type 0} → Action A → Type 0
  Keeps m = (w : World) → part (m w).1 ≡ part w

  bind_outcome-Keeps :
      {A B : Type 0} (f : A → Action B)
      → ((a : A) → Keeps (f a))
      → (o : Outcome A) (w : World) → part (bind_outcome o w f).1 ≡ part w
  bind_outcome-Keeps f h (ok a) w = h a w
  bind_outcome-Keeps f h (err e) w = refl
  bind_outcome-Keeps f h panic w = refl

  pub >>=-Keeps :
      {A B : Type 0} (m : Action A) (f : A → Action B)
      → Keeps m
      → ((a : A) → Keeps (f a))
      → Keeps (m >>= f)
  >>=-Keeps m f h k w = bind_outcome-Keeps f k (m w).0 (m w).1 ∙ h w

  -- A first call that keeps what it shows of one world.
  pub >>=-kept :
      {A B : Type 0} (m : Action A) (f : A → Action B) {p : P} (w : World)
      → part (m w).1 ≡ p
      → ((a : A) → Keeps (f a))
      → part ((m >>= f) w).1 ≡ p
  >>=-kept m f w h k = bind_outcome-Keeps f k (m w).0 (m w).1 ∙ h

  pub fail_if-Keeps : (c : Bool) (e : Error) → Keeps (fail_if c e)
  fail_if-Keeps c e w = refl

  pub >>-Keeps :
      {B : Type 0} (m : Action (Unit {0})) (k : Action B) → Keeps m → Keeps k → Keeps (m >> k)
  >>-Keeps m k h h' = >>=-Keeps m (λ _. k) h (λ _. h')

  pub when-Keeps : (c : Bool) (m : Action (Unit {0})) → Keeps m → Keeps (when c m)
  when-Keeps true m h = h
  when-Keeps false m h = λ w. refl

  pub deref-Keeps : {A : Type 0} (o : Option A) → Keeps (deref o)
  deref-Keeps none w = refl
  deref-Keeps (some a) w = refl

  pub row-Keeps : {A : Type 0} (o : Option A) → Keeps (row o)
  row-Keeps none w = refl
  row-Keeps (some a) w = refl

module _ (P : World → Type 0) where
  bind_outcome-holds :
      {A B : Type 0} (f : A → Action B) (o : Outcome A) (w : World)
      → P w
      → ((a : A) → o ≡ ok a → P (f a w).1)
      → P (bind_outcome o w f).1
  bind_outcome-holds f (ok a) w h k = k a refl
  bind_outcome-holds f (err e) w h k = h
  bind_outcome-holds f panic w h k = h

  -- What holds after the first call, and after the second wherever the first returned a value.
  pub >>=-holds :
      {A B : Type 0} (m : Action A) (f : A → Action B) (w : World)
      → P (m w).1
      → ((a : A) → (m w).0 ≡ ok a → P (f a (m w).1).1)
      → P ((m >>= f) w).1
  >>=-holds m f w = bind_outcome-holds f (m w).0 (m w).1

bind_outcome-cases :
    {A B : Type 0} (f : A → Action B) (o : Outcome A) (v : World)
    → (((bind_outcome o v f).1 ≡ v) × ((b : B) → (bind_outcome o v f).0 ≢ ok b))
      ⊎ ((a : A) × (u : World) × (o ≡ ok a) × (v ≡ u) × (bind_outcome o v f ≡ f a u))
bind_outcome-cases f (ok a) v = inr (a, v, refl, refl, refl)
bind_outcome-cases f (err e) v = inl (refl, λ b h. ground arith)
bind_outcome-cases f panic v = inl (refl, λ b h. ground arith)

-- A first call that returns a value, or ends the chain.
pub >>=-cases :
    {A B : Type 0} (m : Action A) (f : A → Action B) (w : World)
    → ((((m >>= f) w).1 ≡ (m w).1) × ((b : B) → ((m >>= f) w).0 ≢ ok b))
      ⊎ ((a : A) × (v : World) × (m w ≡ (ok a, v)) × ((m >>= f) w ≡ f a v))
>>=-cases m f w = elim (bind_outcome-cases f (m w).0 (m w).1) [
  | inl h ↦ inl h
  | inr (a, u, e, e', h) ↦ inr (a, u, λ i. (e i, e' i), h)
]
