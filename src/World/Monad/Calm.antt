-- ===== src/World/Monad/Calm.antt =====
-- Calls that never panic: no nil dereference, and no slice out of range.
use magento2_customer_graphq.Base.{
  ◌≡◌, ◌≢◌, refl, Bool, true, false, Option, none, some, Bool-cases, inl, inr, arith,
}
use magento2_customer_graphq.Errors.{Error, Context}
use magento2_customer_graphq.World.{World}
use magento2_customer_graphq.World.Monad.{
  Outcome, ok, err, panic, Action, bind_outcome, ◌>>=◌, pure, fail, gets, modify, within, query,
  next_fault, later_faults, attempt, catch, wrap_outcome, fail_if,
}

abbrev pub IsCalm : {A : Type 0} → Action A → Type 0
IsCalm m = (w : World) → (m w).0 ≢ panic

bind_outcome-calm :
    {A B : Type 0} (o : Outcome A) (v : World) (k : A → Action B)
    → o ≢ panic
    → ((a : A) → o ≡ ok a → (k a v).0 ≢ panic)
    → (bind_outcome o v k).0 ≢ panic
bind_outcome-calm (ok a) v k h h' = h' a refl
bind_outcome-calm (err e) v k h h' = λ p. cc
bind_outcome-calm panic v k h h' = absurd (h refl)

-- The second call may rely on what the first one returns.
pub >>=-IsCalm_of :
    {A B : Type 0} (m : Action A) (k : A → Action B)
    → IsCalm m
    → ((w : World) (a : A) → (m w).0 ≡ ok a → IsCalm (k a))
    → IsCalm (m >>= k)
>>=-IsCalm_of m k h h' w = bind_outcome-calm (m w).0 (m w).1 k (h w) (λ a e. h' w a e (m w).1)

pub >>=-IsCalm :
    {A B : Type 0} (m : Action A) (k : A → Action B)
    → IsCalm m
    → ((a : A) → IsCalm (k a))
    → IsCalm (m >>= k)
>>=-IsCalm m k h h' = >>=-IsCalm_of m k h (λ w a e. h' a)

pub pure-IsCalm : {A : Type 0} (a : A) → IsCalm (pure a)
pure-IsCalm a w e = cc

pub fail-IsCalm : {A : Type 0} (e : Error) → IsCalm (fail {A = A} e)
fail-IsCalm e w p = cc

pub gets-IsCalm : {A : Type 0} (f : World → A) → IsCalm (gets f)
gets-IsCalm f w p = cc

pub modify-IsCalm : (f : World → World) → IsCalm (modify f)
modify-IsCalm f w p = cc

wrap_outcome-calm :
    {A : Type 0} (c : Context) (o : Outcome A) → o ≢ panic → wrap_outcome c o ≢ panic
wrap_outcome-calm c (ok a) h = λ p. cc
wrap_outcome-calm c (err e) h = λ p. cc
wrap_outcome-calm c panic h = absurd (h refl)

pub within-IsCalm : {A : Type 0} (c : Context) (m : Action A) → IsCalm m → IsCalm (within c m)
within-IsCalm c m h w = wrap_outcome-calm c (m w).0 (h w)

pub query-IsCalm : {A : Type 0} (f : World → A) → IsCalm (query f)
query-IsCalm f w = ground arith

pub fail_if-IsCalm : (c : Bool) (e : Error) → IsCalm (fail_if c e)
fail_if-IsCalm true e w p = cc
fail_if-IsCalm false e w p = cc

-- What a statement returns is what it reads of some world.
pub query-eq-ok :
    {A : Type 0} (c : Context) (f : World → A) (w : World) (a : A)
    → (within c (query f) w).0 ≡ ok a
    → (v : World) × (a ≡ f v)
query-eq-ok c f w a h = elim (Bool-cases (next_fault w.faults)) [
  | inl e ↦ absurd (ground arith)
  | inr e ↦ (record w { faults = later_faults w.faults }, ground arith)
]

-- A calm call whose error is dropped returns.
catch_calm : {A : Type 0} (o : Outcome A) → o ≢ panic → (a : Option A) × (catch o ≡ ok a)
catch_calm (ok a) h = (some a, refl)
catch_calm (err e) h = (none, refl)
catch_calm panic h = absurd (h refl)

pub attempt_returns :
    {A : Type 0} (m : Action A)
    → IsCalm m
    → (w : World) → (a : Option A) × (v : World) × (attempt m w ≡ (ok a, v))
attempt_returns m h w = let (a, e) = catch_calm (m w).0 (h w) in (a, (m w).1, (λ i. (e i, (m w).1)))
