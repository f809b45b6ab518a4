-- ===== src/Repository/Orders/Values.antt =====
-- `FindByCustomerID` of internal/repository/order.go: no text of a client is part of a statement.
use magento2_customer_graphq.Base.{
  ℕ, suc, ◌≡◌, refl, ap, Option, none, some, List, [], ◌∷◌, ◌++◌, length,
}
use magento2_customer_graphq.Base.Text.{Text, text}
use magento2_customer_graphq.Repository.Orders.{
  OrderFilter, OrderSort, Where, and_where, when_set, when_any, containing, where_of, of_customer,
  sort_field, sort_direction, count_query, page_query, select_count, select_orders,
}
use magento2_customer_graphq.Repository.Orders.Statement.{
  Column, Direction, sort_field-Column, sort_direction-Direction,
}

abbrev blank : Option Text → Option Text
blank none = none
blank (some _) = some []

abbrev blank_all : List Text → List Text
blank_all [] = []
blank_all (_ ∷ vs) = [] ∷ blank_all vs

-- The filter with every text in it emptied: which fields are set, and how many values a list has.
abbrev pub without_values : Option OrderFilter → Option OrderFilter
without_values none = none
without_values (some f) = some (record {
  number_eq = blank f.number_eq;
  number_match = blank f.number_match;
  number_in = blank_all f.number_in;
  date_from = blank f.date_from;
  date_to = blank f.date_to;
  status_eq = blank f.status_eq;
  status_in = blank_all f.status_in;
  grand_total_from = blank f.grand_total_from;
  grand_total_to = blank f.grand_total_to;
})

length-blank_all : (vs : List Text) → length (blank_all vs) ≡ length vs
length-blank_all [] = refl
length-blank_all (_ ∷ vs) = ap suc (length-blank_all vs)

abbrev SameClause : Where → Where → Type 0
SameClause w x = w.clause ≡ x.clause

when_set-SameClause :
    (v : Option Text) (s : Text) (w x : Where)
    → SameClause w x
    → SameClause (when_set v s w) (when_set (blank v) s x)
unfolding when_set and_where
when_set-SameClause none s w x h = h
when_set-SameClause (some v) s w x h = ap (λ c. c ++ s) h

containing-SameClause :
    (v : Option Text) (s : Text) (w x : Where)
    → SameClause w x
    → SameClause (when_set (containing v) s w) (when_set (containing (blank v)) s x)
unfolding when_set and_where
containing-SameClause none s w x h = h
containing-SameClause (some v) s w x h = ap (λ c. c ++ s) h

when_any-SameClause :
    (vs : List Text) (s : Text) (w x : Where)
    → SameClause w x
    → SameClause (when_any vs s w) (when_any (blank_all vs) s x)
unfolding when_any and_where
when_any-SameClause [] s w x h = h
when_any-SameClause (v ∷ vs) s w x h = rw (h, length-blank_all vs) refl

where_of-SameClause :
    (customer : ℕ) (filter : Option OrderFilter)
    → SameClause (where_of customer filter) (where_of 0 (without_values filter))
unfolding where_of
where_of-SameClause customer none = refl
where_of-SameClause customer (some f) = when_set-SameClause f.grand_total_to _ _ _ (
    when_set-SameClause f.grand_total_from _ _ _ (
      when_any-SameClause f.status_in _ _ _ (
        when_set-SameClause f.status_eq _ _ _ (
          when_set-SameClause f.date_to _ _ _ (
            when_set-SameClause f.date_from _ _ _ (
              when_any-SameClause f.number_in _ _ _ (
                containing-SameClause f.number_match _ _ _
                  (when_set-SameClause f.number_eq _ _ (of_customer 0) refl))))))))

-- The statement of a page, of a clause, a column and a direction.
abbrev pub page_text : Text → Text → Text → Text
page_text clause column direction =
    select_orders
    ++ clause
    ++ (text " ORDER BY " ++ column ++ text " " ++ direction)
    ++ text " LIMIT ? OFFSET ?"

-- For any customer, filter, sort and page: the statement of the count is fixed text around the
-- clause for the customer 0 and the filter with every text in it emptied, and so is the statement
-- of a page, with one of three columns and one of two directions in it.
pub queries-without_values :
    (customer : ℕ) (filter : Option OrderFilter) (sort : Option OrderSort) (page size : ℕ)
    → ((count_query customer filter).statement
        ≡ select_count ++ (where_of 0 (without_values filter)).clause)
      × ((column direction : Text) × Column column
          × Direction direction
          × ((page_query customer filter sort page size).statement
              ≡ page_text (where_of 0 (without_values filter)).clause column direction))
unfolding count_query page_query
queries-without_values customer filter sort page size =
    let same = where_of-SameClause customer filter in
    (
      ap (λ c. select_count ++ c) same,
      (
        sort_field sort,
        sort_direction sort,
        sort_field-Column sort,
        sort_direction-Direction sort,
        ap (λ c. page_text c (sort_field sort) (sort_direction sort)) same,
      ),
    )
