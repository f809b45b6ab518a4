-- ===== src/Graph.antt =====
-- graph/helpers.go and graph/schema.resolvers.go: UIDs, and the deprecated inputs.
pub mod Uid
pub mod Deprecated
pub mod Wishlists
pub mod Resolvers
pub mod Requests
use magento2_customer_graphq.Base.{ℕ, Bool, Option, none, some, List, [], ◌∷◌}
use magento2_customer_graphq.Base.Text.{Text}
use magento2_customer_graphq.Go.Int.{ℤ}
use magento2_customer_graphq.Go.Strconv.{atoi}
use magento2_customer_graphq.Go.Base64.{base64_decode}
use magento2_customer_graphq.World.Monad.{Action}
use magento2_customer_graphq.Env.{Env}
use magento2_customer_graphq.Model.{
  CustomerInput, CustomerCreateInput, CustomerUpdateInput, Customer,
}
use magento2_customer_graphq.Service.Accounts

abbrev pub atoi_of : Option Text → Option ℤ
atoi_of none = none
atoi_of (some decoded) = atoi decoded

-- `none` on an error of either step.
unfoldable pub decode_uid : Text → Option ℤ
decode_uid uid = atoi_of (base64_decode uid)

unfoldable pub deref_str : Option Text → Text
deref_str none = []
deref_str (some s) = s

-- The first of the values that is not nil.
unfoldable pub coalesce : List (Option Text) → Option Text
coalesce [] = none
coalesce (none ∷ rest) = coalesce rest
coalesce (some v ∷ rest) = some v

-- The inputs that the two deprecated mutations make of theirs.
unfoldable pub create_input : CustomerInput → CustomerCreateInput
unfolding deref_str coalesce
create_input input = record {
  firstname = deref_str input.firstname;
  lastname = deref_str input.lastname;
  email = deref_str input.email;
  password = deref_str input.password;
  prefix = input.prefix;
  middlename = input.middlename;
  suffix = input.suffix;
  date_of_birth = coalesce (input.date_of_birth ∷ input.dob ∷ []);
  taxvat = input.taxvat;
  gender = input.gender;
  is_subscribed = input.is_subscribed;
}

unfoldable pub update_input : CustomerInput → CustomerUpdateInput
unfolding coalesce
update_input input = record {
  firstname = input.firstname;
  lastname = input.lastname;
  middlename = input.middlename;
  prefix = input.prefix;
  suffix = input.suffix;
  date_of_birth = coalesce (input.date_of_birth ∷ input.dob ∷ []);
  taxvat = input.taxvat;
  gender = input.gender;
  is_subscribed = input.is_subscribed;
}

module _ (env : Env) where
  unfoldable pub create_customer : CustomerInput → Action Customer
  unfolding create_input
  create_customer input = Accounts.create_customer env (create_input input)

  unfoldable pub update_customer : CustomerInput → Action Customer
  unfolding update_input
  update_customer input = Accounts.update_customer env (update_input input)
