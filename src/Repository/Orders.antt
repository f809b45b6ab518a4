-- ===== src/Repository/Orders.antt =====
-- internal/repository/order.go: the two statements that `FindByCustomerID` sends. The line breaks of
-- a statement are written as single blanks.
pub mod Statement
pub mod Conditions
pub mod Parts
pub mod Scanning
pub mod Labels
pub mod Grouping
pub mod Loads
pub mod Meaning
pub mod Unlabelled
pub mod Values
use magento2_customer_graphq.Base.{
  ℕ, zero, suc, ◌+◌, ◌-◌, ◌*◌, ◌^◌, ◌<◌, ◌≡◌, Bool, ◌&&◌, ◌||◌, Option, none, some, List, [], ◌∷◌,
  ◌++◌, ◌==◌, length, map, if◌then◌else◌,
}
use magento2_customer_graphq.Base.Text.{Text, text, text_eq, is_empty}
use magento2_customer_graphq.Go.Int.{ℤ, pos, negsuc, int64, int64-small}
use magento2_customer_graphq.Go.Strings.{to_upper}

pub record OrderFilter : Type 0 where
  pub number_eq : Option Text
  pub number_match : Option Text
  pub number_in : List Text
  pub date_from : Option Text
  pub date_to : Option Text
  pub status_eq : Option Text
  pub status_in : List Text
  pub grand_total_from : Option Text
  pub grand_total_to : Option Text

pub record OrderSort : Type 0 where
  pub field : Text
  pub direction : Text

-- An argument of a statement.
pub data Arg : Type 0 where
  int : ℤ → Arg
  string : Text → Arg

-- `strings.TrimRight(s, cutset)` for a set of one byte.
unfoldable pub trim_right : ℕ → Text → Text
trim_right b [] = []
trim_right b (c ∷ s) = let rest = trim_right b s in if is_empty rest && c == b then [] else c ∷ rest

-- `strings.Repeat`
unfoldable pub repeat : Text → ℕ → Text
repeat s zero = []
repeat s (suc n) = s ++ repeat s n

unfoldable pub in_placeholders : ℕ → Text
unfolding trim_right repeat
in_placeholders n = trim_right b',' (repeat (text "?,") n)

-- `whereClause` and `args`.
pub record Where : Type 0 where
  pub clause : Text
  pub args : List Arg

-- `whereClause += s; args = append(args, as...)`
unfoldable pub and_where : Text → List Arg → Where → Where
and_where s vs w = record { clause = w.clause ++ s; args = w.args ++ vs }

-- A condition on a field that is set.
unfoldable pub when_set : Option Text → Text → Where → Where
unfolding and_where
when_set none s w = w
when_set (some v) s w = and_where s (string v ∷ []) w

-- A condition on a list that is not empty.
unfoldable pub when_any : List Text → Text → Where → Where
unfolding and_where in_placeholders
when_any [] s w = w
when_any (v ∷ vs) s w =
    and_where (s ++ in_placeholders (length (v ∷ vs)) ++ text ")") (map string (v ∷ vs)) w

-- `"%"+*filter.NumberMatch+"%"`
abbrev pub containing : Option Text → Option Text
containing none = none
containing (some m) = some (text "%" ++ m ++ text "%")

-- The customer's own orders.
abbrev pub of_customer : ℕ → Where
of_customer customer = record { clause = text "customer_id = ?"; args = int (pos customer) ∷ [] }

unfoldable pub where_of : ℕ → Option OrderFilter → Where
unfolding when_set when_any
where_of customer none = of_customer customer
where_of customer (some f) =
    let w0 = of_customer customer in
    let w1 = when_set f.number_eq (text " AND increment_id = ?") w0 in
    let w2 = when_set (containing f.number_match) (text " AND increment_id LIKE ?") w1 in
    let w3 = when_any f.number_in (text " AND increment_id IN (") w2 in
    let w4 = when_set f.date_from (text " AND created_at >= ?") w3 in
    let w5 = when_set f.date_to (text " AND created_at <= ?") w4 in
    let w6 = when_set f.status_eq (text " AND status = ?") w5 in
    let w7 = when_any f.status_in (text " AND status IN (") w6 in
    let w8 = when_set f.grand_total_from (text " AND grand_total >= ?") w7 in
    when_set f.grand_total_to (text " AND grand_total <= ?") w8

-- The whitelists of the sort.
unfoldable pub sort_direction : Option OrderSort → Text
unfolding to_upper text_eq
sort_direction none = text "ASC"
sort_direction (some s) =
    let d = to_upper s.direction in
    if text_eq d (text "ASC")
    then text "ASC"
    else if text_eq d (text "DESC")
    then text "DESC"
    else text "ASC"

unfoldable pub sort_field : Option OrderSort → Text
unfolding text_eq
sort_field none = text "created_at"
sort_field (some s) =
    if text_eq s.field (text "number")
    then text "increment_id"
    else if text_eq s.field (text "order_date")
    then text "created_at"
    else if text_eq s.field (text "grand_total")
    then text "grand_total"
    else text "created_at"

-- `(currentPage - 1) * pageSize`
unfoldable pub offset : ℕ → ℕ → ℤ
unfolding int64
offset zero zero = pos 0
offset zero (suc size) = negsuc size
offset (suc page) size = int64 (page * size)

pub offset-suc : (n size : ℕ) → n * size < 2 ^ 63 → offset (suc n) size ≡ pos (n * size)
unfolding offset
offset-suc n size h = int64-small (n * size) h

-- A statement and its arguments.
pub record Query : Type 0 where
  pub statement : Text
  pub args : List Arg

abbrev pub select_count : Text
select_count = text "SELECT COUNT(*) FROM sales_order WHERE "

unfoldable pub count_query : ℕ → Option OrderFilter → Query
unfolding where_of
count_query customer filter =
    let w = where_of customer filter in
    record { statement = select_count ++ w.clause; args = w.args }

-- The columns of the page, up to the condition.
abbrev pub select_orders : Text
select_orders =
    text "SELECT entity_id, increment_id, customer_id, store_id, status, state, "
    ++ text "created_at, grand_total, subtotal, tax_amount, shipping_amount, "
    ++ text "shipping_method, shipping_description, order_currency_code "
    ++ text "FROM sales_order WHERE "

abbrev pub order_by : Option OrderSort → Text
order_by sort = text " ORDER BY " ++ sort_field sort ++ text " " ++ sort_direction sort

unfoldable pub page_query : ℕ → Option OrderFilter → Option OrderSort → ℕ → ℕ → Query
unfolding where_of sort_field sort_direction offset
page_query customer filter sort current_page page_size =
    let w = where_of customer filter in
    record {
      statement = select_orders ++ w.clause ++ order_by sort ++ text " LIMIT ? OFFSET ?";
      args = w.args ++ int (pos page_size) ∷ int (offset current_page page_size) ∷ [];
    }
