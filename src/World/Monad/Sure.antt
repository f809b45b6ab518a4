-- ===== src/World/Monad/Sure.antt =====
-- Calls that return a value where no statement fails and every row of the sales tables scans.
use magento2_customer_graphq.Base.{ℕ, ◌≡◌, refl, ◌∙◌, ap, Bool, true, false, [], arith}
use magento2_customer_graphq.Errors.{Error, Context}
use magento2_customer_graphq.World.{World}
use magento2_customer_graphq.World.Orders.{SalesTable}
use magento2_customer_graphq.World.Monad.{
  ok, Action, ◌>>=◌, pure, within, query, fail_if, wrap_outcome,
}
use magento2_customer_graphq.World.Monad.Laws.{>>=-ok}

-- Every row of the sales tables scans.
abbrev pub ScansAll : World → Type 0
ScansAll w = (t : SalesTable) (n : ℕ) → w.sales.scans t n ≡ true

abbrev pub IsSure : {A : Type 0} → Action A → Type 0
IsSure {A = A} m =
    (w : World)
    → w.faults ≡ []
    → ScansAll w
    → (a : A) × (v : World) × (m w ≡ (ok a, v)) × (v.faults ≡ []) × ScansAll v

pub >>=-IsSure :
    {A B : Type 0} (m : Action A) (f : A → Action B)
    → IsSure m
    → ((a : A) → IsSure (f a))
    → IsSure (m >>= f)
>>=-IsSure m f h k w q s =
    let (a, v, e, q', s') = h w q s in
    let (b, u, e', q'', s'') = k a v q' s' in (b, u, >>=-ok m f w e ∙ e', q'', s'')

pub pure-IsSure : {A : Type 0} (a : A) → IsSure (pure a)
pure-IsSure a w q s = (a, w, refl, q, s)

pub within-IsSure : {A : Type 0} (c : Context) (m : Action A) → IsSure m → IsSure (within c m)
within-IsSure c m h w q s =
    let (a, v, e, q', s') = h w q s in (a, v, ap (λ p. (wrap_outcome c p.0, p.1)) e, q', s')

pub query-IsSure : {A : Type 0} (f : World → A) → IsSure (query f)
query-IsSure f w q s = (f w, w, ground arith, q, s)

pub passed-IsSure : (c : Bool) (e : Error) → c ≡ false → IsSure (fail_if c e)
passed-IsSure c e h w q s = (tt, w, ground arith, q, s)
