-- ===== src/Repository/Orders/Meaning.antt =====
-- `FindByCustomerID` of internal/repository/order.go: the text of the clause says the conditions
-- that the rows are tested by.
use magento2_customer_graphq.Base.{
  ℕ, ◌≡◌, refl, sym, ◌∙◌, Option, none, some, List, [], ◌∷◌, ◌++◌, length, map, ap, append-nil,
  append_assoc,
}
use magento2_customer_graphq.Base.Text.{Text, text}
use magento2_customer_graphq.Repository.Orders.{
  OrderFilter, Arg, string, Where, and_where, in_placeholders, when_set, when_any, containing,
  where_of, of_customer, Query, count_query, page_query, select_count, select_orders, order_by,
  offset, int, OrderSort,
}
use magento2_customer_graphq.Go.Int.{pos}
use magento2_customer_graphq.Repository.Orders.Statement.{count, queries-BindsOwn}
use magento2_customer_graphq.Repository.Orders.Conditions.{
  Condition, number_is, number_like, number_among, created_from, created_to, status_is,
  status_among, total_from, total_to, on_set, on_any, conditions,
}

-- A condition in SQL, and its arguments.
abbrev pub list_sql : List Text → Text
list_sql vs = in_placeholders (length vs) ++ text ")"

abbrev pub sql_of : Condition → Text
sql_of (number_is v) = text "increment_id = ?"
sql_of (number_like v) = text "increment_id LIKE ?"
sql_of (number_among vs) = text "increment_id IN (" ++ list_sql vs
sql_of (created_from v) = text "created_at >= ?"
sql_of (created_to v) = text "created_at <= ?"
sql_of (status_is v) = text "status = ?"
sql_of (status_among vs) = text "status IN (" ++ list_sql vs
sql_of (total_from v) = text "grand_total >= ?"
sql_of (total_to v) = text "grand_total <= ?"

abbrev pub args_of : Condition → List Arg
args_of (number_is v) = string v ∷ []
args_of (number_like v) = string v ∷ []
args_of (number_among vs) = map string vs
args_of (created_from v) = string v ∷ []
args_of (created_to v) = string v ∷ []
args_of (status_is v) = string v ∷ []
args_of (status_among vs) = map string vs
args_of (total_from v) = string v ∷ []
args_of (total_to v) = string v ∷ []

-- The conditions joined by AND after the first one.
abbrev pub conjunction : List Condition → Where → Where
conjunction [] w = w
conjunction (c ∷ cs) w =
    conjunction cs
      (record { clause = w.clause ++ (text " AND " ++ sql_of c); args = w.args ++ args_of c })

module _ (rest : List Condition) (w : Where) where
  set_step :
      (c : Text → Condition) (s : Text) (v : Option Text)
      → ((u : Text) → text " AND " ++ sql_of (c u) ≡ s)
      → ((u : Text) → args_of (c u) ≡ string u ∷ [])
      → conjunction (on_set c v ++ rest) w ≡ conjunction rest (when_set v s w)
  unfolding when_set and_where
  set_step c s none sql args = refl
  set_step c s (some v) sql args =
      λ i. conjunction rest (record { clause = w.clause ++ sql v i; args = w.args ++ args v i })

  any_step :
      (c : List Text → Condition) (s : Text) (vs : List Text)
      → ((us : List Text)
          → text " AND " ++ sql_of (c us) ≡ s ++ in_placeholders (length us) ++ text ")")
      → ((us : List Text) → args_of (c us) ≡ map string us)
      → conjunction (on_any c vs ++ rest) w ≡ conjunction rest (when_any vs s w)
  unfolding when_any and_where
  any_step c s [] sql args = refl
  any_step c s (v ∷ vs) sql args = λ i.
      conjunction rest
        (record { clause = w.clause ++ sql (v ∷ vs) i; args = w.args ++ args (v ∷ vs) i })

last_step :
    (w : Where) (c : Text → Condition) (s : Text) (v : Option Text)
    → ((u : Text) → text " AND " ++ sql_of (c u) ≡ s)
    → ((u : Text) → args_of (c u) ≡ string u ∷ [])
    → conjunction (on_set c v) w ≡ when_set v s w
unfolding when_set and_where
last_step w c s none sql args = refl
last_step w c s (some v) sql args =
    λ i. record { clause = w.clause ++ sql v i; args = w.args ++ args v i }

pub where_of-conjunction :
    (customer : ℕ) (filter : Option OrderFilter)
    → where_of customer filter ≡ conjunction (conditions filter) (of_customer customer)
unfolding where_of conditions
where_of-conjunction customer none = refl
where_of-conjunction customer (some f) = sym (
    set_step _ _ number_is _ f.number_eq (λ _. refl) (λ _. refl)
    ∙ (set_step _ _ number_like _ (containing f.number_match) (λ _. refl) (λ _. refl)
        ∙ (any_step _ _ number_among _ f.number_in (λ _. refl) (λ _. refl)
            ∙ (set_step _ _ created_from _ f.date_from (λ _. refl) (λ _. refl)
                ∙ (set_step _ _ created_to _ f.date_to (λ _. refl) (λ _. refl)
                    ∙ (set_step _ _ status_is _ f.status_eq (λ _. refl) (λ _. refl)
                        ∙ (any_step _ _ status_among _ f.status_in (λ _. refl) (λ _. refl)
                            ∙ (set_step _ _ total_from _ f.grand_total_from (λ _. refl) (λ _. refl)
                                ∙ last_step _ total_to _ f.grand_total_to (λ _. refl)
                                    (λ _. refl)))))))))

-- A query on the customer's own orders that meet the filter: the text and the arguments before and
-- after the clause, and as many marks as arguments.
abbrev pub Asks : ℕ → Option OrderFilter → Text → Text → List Arg → Query → Type 0
Asks customer filter before after page q =
    (q.statement
      ≡ before ++ (conjunction (conditions filter) (of_customer customer)).clause ++ after)
    × (q.args ≡ (conjunction (conditions filter) (of_customer customer)).args ++ page)
    × (count b'?' q.statement ≡ length q.args)

-- For any customer, filter, sort and page: both statements ask for the rows of which the customer
-- is the owner and which meet each condition of the filter, joined by AND; their arguments are
-- those of the conditions in this order, then the size and the offset of the page; and there are as
-- many marks as arguments.
pub queries-conjunction :
    (customer : ℕ) (filter : Option OrderFilter) (sort : Option OrderSort) (page size : ℕ)
    → Asks customer filter select_count [] [] (count_query customer filter)
      × Asks customer filter select_orders
          (order_by sort ++ text " LIMIT ? OFFSET ?")
          (int (pos size) ∷ int (offset page size) ∷ [])
          (page_query customer filter sort page size)
unfolding count_query page_query
queries-conjunction customer filter sort page size =
    let same = where_of-conjunction customer filter in
    let (counted, paged) = queries-BindsOwn customer filter sort page size in
    let clause = ap (λ w. w.clause) same in
    let args = ap (λ w. w.args) same in
    (
      (
        ap (λ c. select_count ++ c) clause ∙ ap (λ c. select_count ++ c) (sym (append-nil _)),
        args ∙ sym (append-nil _),
        counted.0,
      ),
      (
        ap (λ c. select_orders ++ c ++ order_by sort ++ text " LIMIT ? OFFSET ?") clause
            ∙ append_assoc
                (select_orders ++ (conjunction (conditions filter) (of_customer customer)).clause)
                (order_by sort) (text " LIMIT ? OFFSET ?"),
        ap (λ as_. as_ ++ int (pos size) ∷ int (offset page size) ∷ []) args,
        paged.0,
      ),
    )
