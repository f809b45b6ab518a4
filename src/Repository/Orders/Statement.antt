-- ===== src/Repository/Orders/Statement.antt =====
-- `FindByCustomerID` of internal/repository/order.go: what the statements are made of.
use magento2_customer_graphq.Base.{
  ℕ, zero, suc, ◌+◌, ◌≡◌, refl, ap, Bool, true, false, ◌⊎◌, inl, inr, Option, none, some, List, [],
  ◌∷◌, ◌++◌, length, map, length-append, arith, ◌==◌, if◌then◌else◌,
}
use magento2_customer_graphq.Base.Text.{Text, text, has_prefix}
use magento2_customer_graphq.Go.Int.{pos}
use magento2_customer_graphq.Repository.Orders.{
  OrderFilter, OrderSort, Arg, int, string, Where, Query, trim_right, repeat, in_placeholders,
  and_where, when_set, when_any, containing, where_of, sort_direction, sort_field, count_query,
  page_query, select_count, select_orders, order_by, offset,
}

-- How often a byte stands in a text.
abbrev pub count : ℕ → Text → ℕ
count b [] = 0
count b (c ∷ s) = if c == b then suc (count b s) else count b s

count-append : (b : ℕ) (s t : Text) → count b (s ++ t) ≡ count b s + count b t
count-append b [] t = omega arith
count-append b (c ∷ s) t = ground (arith, count-append b s t)

count-trim_right : (s : Text) → count b'?' (trim_right b',' s) ≡ count b'?' s
unfolding trim_right
count-trim_right [] = refl
count-trim_right (c ∷ s) = ground (arith, count-trim_right s)

count-repeat : (n : ℕ) → count b'?' (repeat (text "?,") n) ≡ n
unfolding repeat
count-repeat zero = refl
count-repeat (suc n) = ap suc (count-repeat n)

count-in_placeholders : (n : ℕ) → count b'?' (in_placeholders n) ≡ n
unfolding in_placeholders
count-in_placeholders n = ground (arith, count-trim_right (repeat (text "?,") n), count-repeat n)

length-map : {A B : Type 0} (f : A → B) (xs : List A) → length (map f xs) ≡ length xs
length-map f [] = refl
length-map f (x ∷ xs) = ap suc (length-map f xs)

has_prefix_nil : (s : Text) → has_prefix s [] ≡ true
unfolding has_prefix
has_prefix_nil [] = refl
has_prefix_nil (_ ∷ _) = refl

has_prefix-append : (s t p : Text) → has_prefix s p ≡ true → has_prefix (s ++ t) p ≡ true
unfolding has_prefix
has_prefix-append [] t [] h = has_prefix_nil t
has_prefix-append [] t (b ∷ p) h = cc
has_prefix-append (a ∷ s) t [] h = refl
has_prefix-append (a ∷ s) t (b ∷ p) h = ground (arith, has_prefix-append s t p)

has_prefix_cons : (a s p : Text) → has_prefix s p ≡ true → has_prefix (a ++ s) (a ++ p) ≡ true
unfolding has_prefix
has_prefix_cons [] s p h = h
has_prefix_cons (b ∷ a) s p h = ground (arith, has_prefix_cons a s p)

abbrev pub first : List Arg → Option Arg
first [] = none
first (v ∷ _) = some v

first-append : (vs us : List Arg) (v : Arg) → first vs ≡ some v → first (vs ++ us) ≡ some v
first-append [] us v h = cc
first-append (_ ∷ vs) us v h = h

abbrev pub own : Text
own = text "customer_id = ?"

-- As many marks as arguments, and the customer's own orders come first of all.
abbrev Sound : ℕ → Where → Type 0
Sound customer w =
    (count b'?' w.clause ≡ length w.args)
    × (has_prefix w.clause own ≡ true)
    × (first w.args ≡ some (int (pos customer)))

module _ (customer : ℕ) where
  Sound-and_where :
      (s : Text) (vs : List Arg) (w : Where)
      → count b'?' s ≡ length vs
      → Sound customer w
      → Sound customer (and_where s vs w)
  unfolding and_where
  Sound-and_where s vs w h k = (
    omega (arith, count-append b'?' w.clause s, length-append w.args vs),
    has_prefix-append w.clause s own k.1,
    first-append w.args vs (int (pos customer)) k.2,
  )

  Sound-when_set :
      (v : Option Text) (s : Text) (w : Where)
      → count b'?' s ≡ 1
      → Sound customer w
      → Sound customer (when_set v s w)
  unfolding when_set
  Sound-when_set none s w h k = k
  Sound-when_set (some v) s w h k = Sound-and_where s (string v ∷ []) w h k

  Sound-when_any :
      (vs : List Text) (s : Text) (w : Where)
      → count b'?' s ≡ 0
      → Sound customer w
      → Sound customer (when_any vs s w)
  unfolding when_any
  Sound-when_any [] s w h k = k
  Sound-when_any (v ∷ vs) s w h k =
      let n = length (v ∷ vs) in
      Sound-and_where (s ++ in_placeholders n ++ text ")") (map string (v ∷ vs)) w
        (omega (
          arith,
          count-append b'?' (s ++ in_placeholders n) (text ")"),
          count-append b'?' s (in_placeholders n),
          count-in_placeholders n,
          length-map string (v ∷ vs),
        ))
        k

  Sound-where_of : (filter : Option OrderFilter) → Sound customer (where_of customer filter)
  unfolding where_of has_prefix
  Sound-where_of none = (refl, refl, refl)
  Sound-where_of (some f) = Sound-when_set f.grand_total_to _ _ refl (
      Sound-when_set f.grand_total_from _ _ refl (
        Sound-when_any f.status_in _ _ refl (
          Sound-when_set f.status_eq _ _ refl (
            Sound-when_set f.date_to _ _ refl (
              Sound-when_set f.date_from _ _ refl (
                Sound-when_any f.number_in _ _ refl (
                  Sound-when_set (containing f.number_match) _ _ refl
                    (Sound-when_set f.number_eq _ _ refl (refl, refl, refl)))))))))

-- The whitelists.
abbrev pub Column : Text → Type 0
Column f = (f ≡ text "created_at") ⊎ ((f ≡ text "increment_id") ⊎ (f ≡ text "grand_total"))

abbrev pub Direction : Text → Type 0
Direction d = (d ≡ text "ASC") ⊎ (d ≡ text "DESC")

-- Both branches have the property.
if_both : (P : Text → Type 0) (b : Bool) (s t : Text) → P s → P t → P (if b then s else t)
if_both P true s t h k = h
if_both P false s t h k = k

pub sort_field-Column : (sort : Option OrderSort) → Column (sort_field sort)
unfolding sort_field
sort_field-Column none = inl refl
sort_field-Column (some s) =
    if_both Column _ _ _ (inr (inl refl))
      (if_both Column _ _ _ (inl refl) (if_both Column _ _ _ (inr (inr refl)) (inl refl)))

pub sort_direction-Direction : (sort : Option OrderSort) → Direction (sort_direction sort)
unfolding sort_direction
sort_direction-Direction none = inl refl
sort_direction-Direction (some s) =
    if_both Direction _ _ _ (inl refl) (if_both Direction _ _ _ (inr refl) (inl refl))

count-Column : (f : Text) → Column f → count b'?' f ≡ 0
count-Column f (inl h) = rw h refl
count-Column f (inr (inl h)) = rw h refl
count-Column f (inr (inr h)) = rw h refl

count-Direction : (d : Text) → Direction d → count b'?' d ≡ 0
count-Direction d (inl h) = rw h refl
count-Direction d (inr h) = rw h refl

count-order_by : (sort : Option OrderSort) → count b'?' (order_by sort) ≡ 0
count-order_by sort = omega (
  arith,
  count-append b'?' (text " ORDER BY " ++ sort_field sort ++ text " ") (sort_direction sort),
  count-append b'?' (text " ORDER BY " ++ sort_field sort) (text " "),
  count-append b'?' (text " ORDER BY ") (sort_field sort),
  count-Column (sort_field sort) (sort_field-Column sort),
  count-Direction (sort_direction sort) (sort_direction-Direction sort),
)

count_four :
    (a b c d : Text)
    → count b'?' (a ++ b ++ c ++ d) ≡ count b'?' a + count b'?' b + count b'?' c + count b'?' d
count_four a b c d =
    omega (
      arith,
      count-append b'?' (a ++ b ++ c) d,
      count-append b'?' (a ++ b) c,
      count-append b'?' a b,
    )

-- As many marks as arguments, and the condition that the orders are the customer's before any
-- other, with the customer for its mark.
abbrev pub BindsOwn : ℕ → Text → Query → Type 0
BindsOwn customer before q =
    (count b'?' q.statement ≡ length q.args)
    × (has_prefix q.statement (before ++ own) ≡ true)
    × (first q.args ≡ some (int (pos customer)))

module _ (customer : ℕ) (filter : Option OrderFilter) where
  count_query-BindsOwn : BindsOwn customer select_count (count_query customer filter)
  unfolding count_query
  count_query-BindsOwn =
      let s = Sound-where_of customer filter in
      let w = where_of customer filter in
      (
        omega (arith, s.0, count-append b'?' select_count w.clause),
        has_prefix_cons select_count w.clause own s.1,
        s.2,
      )

  page_query-BindsOwn :
      (sort : Option OrderSort) (page size : ℕ)
      → BindsOwn customer select_orders (page_query customer filter sort page size)
  unfolding page_query
  page_query-BindsOwn sort page size =
      let s = Sound-where_of customer filter in
      let w = where_of customer filter in
      let limit = text " LIMIT ? OFFSET ?" in
      (
        omega (
          arith,
          s.0,
          count_four select_orders w.clause (order_by sort) limit,
          count-order_by sort,
          length-append w.args (int (pos size) ∷ int (offset page size) ∷ []),
        ),
        has_prefix-append (select_orders ++ w.clause ++ order_by sort) limit (select_orders ++ own)
            (has_prefix-append (select_orders ++ w.clause) (order_by sort) (select_orders ++ own)
              (has_prefix_cons select_orders w.clause own s.1)),
        first-append w.args (int (pos size) ∷ int (offset page size) ∷ []) (int (pos customer)) s.2,
      )

  -- For any filter, sort and page: the two statements have as many marks as arguments; the
  -- condition that the orders are the customer's stands before any other, and its mark, the first,
  -- is bound to the customer.
  pub queries-BindsOwn :
      (sort : Option OrderSort) (page size : ℕ)
      → BindsOwn customer select_count (count_query customer filter)
        × BindsOwn customer select_orders (page_query customer filter sort page size)
  queries-BindsOwn sort page size = (count_query-BindsOwn, page_query-BindsOwn sort page size)
