-- ===== src/World/Monad/Laws.antt =====
-- What a chain of calls that succeeds says of its parts.
use magento2_customer_graphq.Base.{◌≡◌, refl, ap, Bool, true, false, not, arith}
use magento2_customer_graphq.Errors.{Error}
use magento2_customer_graphq.World.{World}
use magento2_customer_graphq.World.Monad.{
  Outcome, ok, err, panic, Action, bind_outcome, ◌>>=◌, ◌>>◌, fail_if, or_fail, replace_outcome,
}

bind_outcome-eq-ok :
    {A B : Type 0} (o : Outcome A) (w : World) (f : A → Action B) {b : B} {w' : World}
    → bind_outcome o w f ≡ (ok b, w')
    → (a : A) × (o ≡ ok a) × (f a w ≡ (ok b, w'))
bind_outcome-eq-ok (ok a) w f h = (a, refl, h)
bind_outcome-eq-ok (err e) w f h = absurd (ground arith)
bind_outcome-eq-ok panic w f h = absurd (ground arith)

-- The first call has returned a value, and the rest has run on it.
pub >>=-eq-ok :
    {A B : Type 0} (m : Action A) (f : A → Action B) (w : World) {b : B} {w' : World}
    → (m >>= f) w ≡ (ok b, w')
    → (a : A) × (v : World) × (m w ≡ (ok a, v)) × (f a v ≡ (ok b, w'))
>>=-eq-ok m f w h =
    let (a, e, k) = bind_outcome-eq-ok (m w).0 (m w).1 f h in (a, (m w).1, (λ i. (e i, (m w).1)), k)

-- A guard that was passed had a false condition, and changed nothing.
pub fail_if-eq-ok :
    {B : Type 0} (c : Bool) (e : Error) (k : Action B) (w : World) {b : B} {w' : World}
    → (fail_if c e >> k) w ≡ (ok b, w')
    → (c ≡ false) × (k w ≡ (ok b, w'))
fail_if-eq-ok true e k w h = absurd (ground arith)
fail_if-eq-ok false e k w h = (refl, h)

replace_outcome-eq-ok :
    {A : Type 0} (e : Error) (o : Outcome A) {a : A} → replace_outcome e o ≡ ok a → o ≡ ok a
replace_outcome-eq-ok e (ok a) h = h
replace_outcome-eq-ok e (err _) h = cc
replace_outcome-eq-ok e panic h = cc

pub or_fail-eq-ok :
    {A : Type 0} (e : Error) (m : Action A) (w : World) {a : A} {w' : World}
    → or_fail e m w ≡ (ok a, w')
    → m w ≡ (ok a, w')
or_fail-eq-ok e m w h =
    let first : (m w).0 ≡ ok _ = replace_outcome-eq-ok e (m w).0 (ap (λ t. t.0) h) in
    λ i. (first i, (h i).1)

pub not-eq-false : (b : Bool) → not b ≡ false → b ≡ true
not-eq-false true h = refl
not-eq-false false h = cc

-- The rest of a chain runs on what the first call returns.
pub >>=-ok :
    {A B : Type 0} (m : Action A) (k : A → Action B) (w : World) {a : A} {v : World}
    → m w ≡ (ok a, v)
    → (m >>= k) w ≡ k a v
>>=-ok m k w e i = bind_outcome (e i).0 (e i).1 k
