-- ===== src/World/Monad.antt =====
-- A call: what a Go function returns, and the world that it leaves. A statement that fails changes
-- no table; what was written before it stays written.
pub mod Laws
pub mod Frame
pub mod Reads
pub mod Calm
pub mod Sure
use magento2_customer_graphq.Base.{
  Bool, true, false, Option, none, some, List, [], ◌∷◌, if◌then◌else◌,
}
use magento2_customer_graphq.Errors.{Error, Context, wrap, no_rows, database}
use magento2_customer_graphq.World.{World, Mail}

-- `panic` is a nil dereference or a slice out of range, which the server recovers from.
pub data Outcome (A : Type 0) : Type 0 where
  ok : A → Outcome A
  err : Error → Outcome A
  panic : Outcome A

abbrev pub Action : Type 0 → Type 0
Action A = World → Outcome A × World

abbrev pub bind_outcome : {A B : Type 0} → Outcome A → World → (A → Action B) → Outcome B × World
bind_outcome (ok a) w f = f a w
bind_outcome (err e) w f = (err e, w)
bind_outcome panic w f = (panic, w)

infixl 5 ◌>>=◌ ◌>>◌
abbrev pub ◌>>=◌ : {A B : Type 0} → Action A → (A → Action B) → Action B
◌>>=◌ m f w = let (r, w') = m w in bind_outcome r w' f

abbrev pub ◌>>◌ : {A B : Type 0} → Action A → Action B → Action B
m >> k = m >>= λ _. k

module _ {A : Type 0} where
  abbrev pub pure : A → Action A
  pure a w = (ok a, w)

  abbrev pub fail : Error → Action A
  fail e w = (err e, w)

  abbrev pub gets : (World → A) → Action A
  gets f w = (ok (f w), w)

  -- `v, _ := m`, and calls whose error is only logged: `none` on an error.
  abbrev catch : Outcome A → Outcome (Option A)
  catch (ok a) = ok (some a)
  catch (err e) = ok none
  catch panic = panic

  abbrev pub attempt : Action A → Action (Option A)
  attempt m w = let (r, w') = m w in (catch r, w')

  -- The error of a call, if there is one.
  abbrev error_of : Outcome A → Outcome (Option Error)
  error_of (ok a) = ok none
  error_of (err e) = ok (some e)
  error_of panic = panic

  abbrev pub caught : Action A → Action (Option Error)
  caught m w = let (r, w') = m w in (error_of r, w')

  -- A call whose result and error are dropped.
  abbrev drop : Outcome A → Outcome (Unit {0})
  drop (ok a) = ok tt
  drop (err e) = ok tt
  drop panic = panic

  abbrev pub ignore : Action A → Action (Unit {0})
  ignore m w = let (r, w') = m w in (drop r, w')

  -- `fmt.Errorf("...: %w", err)`
  abbrev wrap_outcome : Context → Outcome A → Outcome A
  wrap_outcome c (ok a) = ok a
  wrap_outcome c (err e) = err (wrap c e)
  wrap_outcome c panic = panic

  abbrev pub within : Context → Action A → Action A
  within c m w = let (r, w') = m w in (wrap_outcome c r, w')

  -- `if err != nil { return nil, e }`
  abbrev replace_outcome : Error → Outcome A → Outcome A
  replace_outcome e (ok a) = ok a
  replace_outcome e (err _) = err e
  replace_outcome e panic = panic

  abbrev pub or_fail : Error → Action A → Action A
  or_fail e m w = let (r, w') = m w in (replace_outcome e r, w')

  -- A field of a pointer that may be nil.
  abbrev pub deref : Option A → Action A
  deref none w = (panic, w)
  deref (some a) w = (ok a, w)

  -- The row of a `QueryRow`, if there is one.
  abbrev pub row : Option A → Action A
  row none w = (err no_rows, w)
  row (some a) w = (ok a, w)

-- `if c { return nil, e }`
abbrev pub fail_if : Bool → Error → Action (Unit {0})
fail_if c e w = (if c then err e else ok tt, w)

abbrev pub when : Bool → Action (Unit {0}) → Action (Unit {0})
when true m = m
when false m = pure tt

abbrev pub modify : (World → World) → Action (Unit {0})
modify f w = (ok tt, f w)

-- One statement is sent to the database: it may fail.
abbrev pub next_fault : List Bool → Bool
next_fault [] = false
next_fault (b ∷ _) = b

abbrev pub later_faults : List Bool → List Bool
later_faults [] = []
later_faults (_ ∷ fs) = fs

abbrev pub statement : Action (Unit {0})
statement w = (
  if next_fault w.faults then err database else ok tt,
  record w { faults = later_faults w.faults },
)

-- A statement that reads, and one that writes.
abbrev pub query : {A : Type 0} → (World → A) → Action A
query f = statement >> gets f

abbrev pub exec : (World → World) → Action (Unit {0})
exec f = statement >> modify f

-- `s.email.Send(...)`
abbrev pub send : Mail → Action (Unit {0})
send m = modify (λ w. record w { outbox = m ∷ w.outbox })
