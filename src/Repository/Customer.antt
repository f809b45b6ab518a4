-- ===== src/Repository/Customer.antt =====
-- internal/repository/customer.go: the rows of `customer_entity`.
pub mod Quiet
use magento2_customer_graphq.Base.{
  ℕ, ◌+◌, Bool, ◌&&◌, Option, none, some, List, [], ◌∷◌, ◌++◌, ltb, ◌==◌, length,
}
use magento2_customer_graphq.Base.Text.{Text}
use magento2_customer_graphq.Errors.{
  customer_by_id, customer_by_email, update_customer, delete_customer, create_customer, email_check,
}
use magento2_customer_graphq.World.{World, CustomerRow}
use magento2_customer_graphq.World.Monad.{
  Action, ◌>>=◌, ◌>>◌, pure, row, within, query, exec, gets, statement, attempt, ignore,
}
use magento2_customer_graphq.Env.{Env}
use magento2_customer_graphq.Repository.Sql.{find, select, update_where, delete_where}

pub record CustomerData : Type 0 where
  pub entity_id : ℕ
  pub website_id : ℕ
  pub email : Text
  pub group_id : ℕ
  pub store_id : ℕ
  pub created_at : Text
  pub updated_at : Text
  pub is_active : ℕ
  pub prefix : Option Text
  pub firstname : Option Text
  pub middlename : Option Text
  pub lastname : Option Text
  pub suffix : Option Text
  pub dob : Option Text
  pub password_hash : Text
  pub default_billing : Option ℕ
  pub default_shipping : Option ℕ
  pub taxvat : Option Text
  pub confirmation : Option Text
  pub gender : Option ℕ
  pub rp_token : Option Text
  pub rp_token_created_at : Option Text
  pub failures_num : ℕ
  pub lock_expires : Option Text

-- `COALESCE(column, default)`
abbrev pub coalesce : {A : Type 0} → A → Option A → A
coalesce d none = d
coalesce d (some a) = a

-- The columns of the two SELECT statements, and `row.Scan`.
unfoldable pub scan_customer : CustomerRow → CustomerData
scan_customer r = record {
  entity_id = r.entity_id;
  website_id = r.website_id;
  email = r.email;
  group_id = r.group_id;
  store_id = r.store_id;
  created_at = r.created_at;
  updated_at = r.updated_at;
  is_active = r.is_active;
  prefix = r.prefix;
  firstname = r.firstname;
  middlename = r.middlename;
  lastname = r.lastname;
  suffix = r.suffix;
  dob = r.dob;
  password_hash = coalesce [] r.password_hash;
  default_billing = r.default_billing;
  default_shipping = r.default_shipping;
  taxvat = r.taxvat;
  confirmation = r.confirmation;
  gender = r.gender;
  rp_token = r.rp_token;
  rp_token_created_at = r.rp_token_created_at;
  failures_num = coalesce 0 r.failures_num;
  lock_expires = r.lock_expires;
}

-- `WHERE entity_id = ?`
abbrev pub has_id : ℕ → CustomerRow → Bool
has_id id r = r.entity_id == id

unfoldable pub get_by_id : ℕ → Action CustomerData
get_by_id id =
    within (customer_by_id id)
      do found ← query (λ w. find (has_id id) w.customers); r ← row found; pure (scan_customer r)

-- One entry of the map `fields` that `Update` is given: a column and its new value.
pub data Assign : Type 0 where
  set_firstname set_lastname set_middlename set_prefix set_suffix set_dob set_taxvat : Text → Assign
  set_gender : ℕ → Assign
  set_password_hash set_email : Text → Assign
  set_default_billing set_default_shipping : ℕ → Assign
  set_rp_token set_rp_token_created_at set_confirmation : Option Text → Assign
  set_lock_expires : Text → Assign

unfoldable pub assign : Assign → CustomerRow → CustomerRow
assign (set_firstname v) r = record r { firstname = some v }
assign (set_lastname v) r = record r { lastname = some v }
assign (set_middlename v) r = record r { middlename = some v }
assign (set_prefix v) r = record r { prefix = some v }
assign (set_suffix v) r = record r { suffix = some v }
assign (set_dob v) r = record r { dob = some v }
assign (set_taxvat v) r = record r { taxvat = some v }
assign (set_gender v) r = record r { gender = some v }
assign (set_password_hash v) r = record r { password_hash = some v }
assign (set_email v) r = record r { email = v }
assign (set_default_billing v) r = record r { default_billing = some v }
assign (set_default_shipping v) r = record r { default_shipping = some v }
assign (set_rp_token v) r = record r { rp_token = v }
assign (set_rp_token_created_at v) r = record r { rp_token_created_at = v }
assign (set_confirmation v) r = record r { confirmation = v }
assign (set_lock_expires v) r = record r { lock_expires = some v }

unfoldable pub assign_all : List Assign → CustomerRow → CustomerRow
unfolding assign
assign_all [] r = r
assign_all (a ∷ as_) r = assign_all as_ (assign a r)

-- A statement on the table.
abbrev pub on_customers : (List CustomerRow → List CustomerRow) → World → World
on_customers f w = record w { customers = f w.customers }

module _ (env : Env) where
  -- `NOW()`
  abbrev pub now_text : Text
  now_text = env.format_time env.now

  -- `WHERE email = ? AND website_id = ?`
  abbrev pub has_email : Text → ℕ → CustomerRow → Bool
  has_email email website r = env.collate r.email email && (r.website_id == website)

  unfoldable pub get_by_email : Text → ℕ → Action CustomerData
  get_by_email email website = within (customer_by_email email) do
    found ← query (λ w. find (has_email email website) w.customers)
    r ← row found
    pure (scan_customer r)

  unfoldable pub email_exists : Text → ℕ → Action Bool
  email_exists email website = within email_check do
    count ← query (λ w. length (select (has_email email website) w.customers))
    pure (ltb 0 count)

  -- The SET clause, `updated_at = NOW()` last.
  unfoldable pub updated : List Assign → CustomerRow → CustomerRow
  unfolding assign_all
  updated fields r = record (assign_all fields r) { updated_at = now_text }

  unfoldable pub update : ℕ → List Assign → Action (Unit {0})
  update id [] = pure tt
  update id (a ∷ fields) =
      within (update_customer id)
        (exec (on_customers (update_where (has_id id) (updated (a ∷ fields)))))

  -- The row that the INSERT statement adds.
  unfoldable pub inserted : ℕ → CustomerData → CustomerRow
  inserted id c = record {
    entity_id = id;
    website_id = c.website_id;
    email = c.email;
    group_id = c.group_id;
    store_id = c.store_id;
    created_at = now_text;
    updated_at = now_text;
    is_active = 1;
    prefix = c.prefix;
    firstname = c.firstname;
    middlename = c.middlename;
    lastname = c.lastname;
    suffix = c.suffix;
    dob = c.dob;
    password_hash = some c.password_hash;
    default_billing = none;
    default_shipping = none;
    taxvat = c.taxvat;
    confirmation = none;
    gender = c.gender;
    rp_token = none;
    rp_token_created_at = none;
    failures_num = none;
    first_failure = none;
    lock_expires = none;
  }

  unfoldable pub create : CustomerData → Action ℕ
  create c = within create_customer do
    statement
    λ w.
        gets (λ _. w.next_customer)
          (record w {
            customers = w.customers ++ inserted w.next_customer c ∷ [];
            next_customer = w.next_customer + 1;
          })

  abbrev first_failure_or : Option Text → Option Text
  first_failure_or none = some now_text
  first_failure_or (some t) = some t

  -- The SET clauses of the two statements on the failure counter.
  unfoldable pub one_more_failure : CustomerRow → CustomerRow
  one_more_failure r = record r {
    failures_num = some (coalesce 0 r.failures_num + 1);
    first_failure = first_failure_or r.first_failure;
  }

  -- The error of the statement is dropped.
  unfoldable pub increment_login_failure : ℕ → Action (Unit {0})
  increment_login_failure id =
      ignore (exec (on_customers (update_where (has_id id) one_more_failure)))

unfoldable pub no_failures : CustomerRow → CustomerRow
no_failures r = record r { failures_num = some 0; first_failure = none; lock_expires = none }

unfoldable pub reset_login_failures : ℕ → Action (Unit {0})
reset_login_failures id = ignore (exec (on_customers (update_where (has_id id) no_failures)))

-- `count` stays 0 where the query fails or finds no row.
unfoldable pub get_login_failures : ℕ → Action ℕ
get_login_failures id = do
  count ← attempt do
    found ← query (λ w. find (has_id id) w.customers)
    r ← row found
    pure (coalesce 0 r.failures_num)
  pure (coalesce 0 count)

unfoldable pub delete : ℕ → Action (Unit {0})
delete id = within (delete_customer id) (exec (on_customers (delete_where (has_id id))))
