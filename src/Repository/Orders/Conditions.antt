-- ===== src/Repository/Orders/Conditions.antt =====
-- `FindByCustomerID` of internal/repository/order.go as an action: the filter as conditions on a
-- row.
use magento2_customer_graphq.Base.{
  ℕ, Bool, true, false, ◌&&◌, ◌||◌, Option, none, some, List, [], ◌∷◌, ◌++◌, take, drop, length,
  ◌==◌,
}
use magento2_customer_graphq.Base.Text.{Text}
use magento2_customer_graphq.Errors.{count_orders, query_orders, scan_order_row, database}
use magento2_customer_graphq.World.Orders.{Sales, OrderData, sales_order}
use magento2_customer_graphq.World.Monad.{
  Action, ◌>>=◌, ◌>>◌, pure, gets, within, query, statement, fail_if,
}
use magento2_customer_graphq.Env.{Env}
use magento2_customer_graphq.Repository.Sql.{select}
use magento2_customer_graphq.Repository.Orders.{
  OrderFilter, OrderSort, containing, sort_field, sort_direction, offset,
}
use magento2_customer_graphq.Repository.Orders.Scanning.{scan_rows}
use magento2_customer_graphq.Go.Int.{ℤ, pos, negsuc, is_negative}

-- A condition of the clause that `where_of` builds.
pub data Condition : Type 0 where
  number_is number_like created_from created_to status_is total_from total_to : Text → Condition
  number_among status_among : List Text → Condition

abbrev pub on_set : (Text → Condition) → Option Text → List Condition
on_set c none = []
on_set c (some v) = c v ∷ []

abbrev pub on_any : (List Text → Condition) → List Text → List Condition
on_any c [] = []
on_any c (v ∷ vs) = c (v ∷ vs) ∷ []

abbrev pub set_conditions : OrderFilter → List Condition
set_conditions f =
    on_set number_is f.number_eq
    ++ (on_set number_like (containing f.number_match)
        ++ (on_any number_among f.number_in
            ++ (on_set created_from f.date_from
                ++ (on_set created_to f.date_to
                    ++ (on_set status_is f.status_eq
                        ++ (on_any status_among f.status_in
                            ++ (on_set total_from f.grand_total_from
                                ++ on_set total_to f.grand_total_to)))))))

unfoldable pub conditions : Option OrderFilter → List Condition
conditions none = []
conditions (some f) = set_conditions f

-- The rows after an OFFSET; a statement with a negative one returns none.
abbrev pub skip : {A : Type 0} → ℤ → List A → List A
skip (pos n) rs = drop n rs
skip (negsuc n) rs = []

module _ (env : Env) where
  abbrev pub among : Text → List Text → Bool
  among s [] = false
  among s (v ∷ vs) = env.collate s v || among s vs

  -- What the database makes of a condition.
  abbrev pub meets : OrderData → Condition → Bool
  meets o (number_is v) = env.collate o.increment_id v
  meets o (number_like v) = env.like o.increment_id v
  meets o (number_among vs) = among o.increment_id vs
  meets o (created_from v) = env.time_le v o.created_at
  meets o (created_to v) = env.time_le o.created_at v
  meets o (status_is v) = env.collate o.status v
  meets o (status_among vs) = among o.status vs
  meets o (total_from v) = env.number_ge o.grand_total v
  meets o (total_to v) = env.number_le o.grand_total v

  abbrev pub meets_all : OrderData → List Condition → Bool
  meets_all o [] = true
  meets_all o (c ∷ cs) = meets o c && meets_all o cs

  -- The rows that both statements are about.
  abbrev pub matching : ℕ → Option OrderFilter → OrderData → Bool
  matching customer filter o = o.customer_id == customer && meets_all o (conditions filter)

  abbrev pub matches : ℕ → Option OrderFilter → Sales → List OrderData
  matches customer filter s = select (matching customer filter) s.orders

  abbrev pub page_of : ℕ → Option OrderFilter → Option OrderSort → ℕ → ℕ → Sales → List OrderData
  page_of customer filter sort page size s = take size (
      skip (offset page size)
        (env.order_by (sort_field sort) (sort_direction sort) (matches customer filter s)))

  -- A negative OFFSET is refused by the database.
  unfoldable pub find_by_customer_id :
      ℕ → Option OrderFilter → Option OrderSort → ℕ → ℕ → Action (List OrderData × ℕ)
  unfolding select conditions offset scan_rows
  find_by_customer_id customer filter sort page size = do
    total ← within count_orders (query (λ w. length (matches customer filter w.sales)))
    orders ←
        scan_rows scan_order_row sales_order (λ o. o.entity_id)
          (within query_orders do
            statement
            fail_if (is_negative (offset page size)) database
            gets (λ w. page_of customer filter sort page size w.sales))
    pure (orders, total)
