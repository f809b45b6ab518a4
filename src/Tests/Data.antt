-- ===== src/Tests/Data.antt =====
-- The shop of the tests.
use magento2_customer_graphq.Tests.Tables.{sales, eav, catalog}
use magento2_customer_graphq.Base.{ℕ, true, false, none, some, [], ◌∷◌, ◌++◌}
use magento2_customer_graphq.Base.Text.{Text, text, text_eq}
use magento2_customer_graphq.Go.Int.{ℤ, pos, negsuc}
use magento2_customer_graphq.Go.Strconv.{itoa, atoi}
use magento2_customer_graphq.World.{World, CustomerRow, AddressData, WishlistItemRow}
use magento2_customer_graphq.Env.{Env}
use magento2_customer_graphq.Model.{CustomerAddressInput, CustomerCreateInput}
use magento2_customer_graphq.Repository.Password.{hash_of}

abbrev format_time : ℤ → Text
format_time (pos n) = itoa n
format_time (negsuc n) = []

-- The configuration is the default one; the customer 7 is signed in.
abbrev pub env_of : ℕ → Env
env_of customer = record {
  customer_id = customer;
  store_id = 1;
  get_int = λ path store default. default;
  get_bool = λ path store. true;
  now = pos 1000000000;
  format_time = format_time;
  parse_time = atoi;
  salt = some (text "0123456789abcdef");
  reset_bytes = text "reset";
  sharing_bytes = text "share";
  argon2 = λ password salt time memory len. password;
  sha256 = λ s. s;
  bcrypt_matches = λ hash password. false;
  jwt_create = some (λ id. some (text "token"));
  collate = text_eq;
  same_subscriber = λ s t. false;
  unicode_lower = λ r. false;
  unicode_upper = λ r. false;
  unicode_digit = λ r. false;
  storefront_url = text "https://shop";
  query_escape = λ s. s;
  like = λ s pattern. true;
  time_le = λ s t. true;
  number_le = λ n s. true;
  number_ge = λ n s. true;
  order_by = λ column direction rows. rows;
  latest_first = λ rows. rows;
  by_created_at = λ rows. rows;
  by_attribute_code = λ rows. rows;
  by_sort_order = λ rows. rows;
  map_order = λ keys. keys;
  parse_zulu = λ s. none;
  timezone = [];
  load_location = λ name. none;
}

abbrev pub shop_env : Env
shop_env = env_of 7

abbrev pub password : Text
password = text "Passw0rd!"

abbrev pub salt : Text
salt = text "0123456789abcdef"

abbrev pub mail : ℕ → Text
mail id = itoa id ++ text "@shop.example"

-- An account of website 1 that goes by the address 70.
abbrev pub customer : ℕ → CustomerRow
customer id = record {
  entity_id = id;
  website_id = 1;
  email = mail id;
  group_id = 1;
  store_id = 1;
  created_at = [];
  updated_at = [];
  is_active = 1;
  prefix = none;
  firstname = some (text "A");
  middlename = none;
  lastname = some (text "B");
  suffix = none;
  dob = none;
  password_hash = some (hash_of shop_env salt password);
  default_billing = some 70;
  default_shipping = none;
  taxvat = none;
  confirmation = none;
  gender = none;
  rp_token = some (text "key");
  rp_token_created_at = none;
  failures_num = some 9;
  first_failure = none;
  lock_expires = none;
}

abbrev pub locked_customer : CustomerRow
locked_customer = record (customer 9) { lock_expires = some (itoa 5000000000) }

abbrev pub address : ℕ → ℕ → AddressData
address id parent = record {
  entity_id = id;
  parent_id = parent;
  created_at = [];
  updated_at = [];
  is_active = 1;
  city = none;
  company = none;
  country_id = some (text "US");
  fax = none;
  firstname = none;
  lastname = none;
  middlename = none;
  postcode = none;
  prefix = none;
  region = none;
  region_id = none;
  street = none;
  suffix = none;
  telephone = none;
  vat_id = none;
}

abbrev pub wish : ℕ → ℕ → ℕ → WishlistItemRow
wish id wishlist product = record {
  wishlist_item_id = id;
  wishlist_id = wishlist;
  product_id = product;
  store_id = 1;
  added_at = [];
  qty = 4607182418800017408;
}

abbrev pub shop : World
shop = record {
  customers = customer 7 ∷ customer 8 ∷ locked_customer ∷ [];
  addresses = address 70 7 ∷ address 71 7 ∷ address 80 8 ∷ [];
  groups = record { group_id = 1; group_code = text "General"; tax_class_id = 3 } ∷ [];
  stores = record { store_id = 1; code = text "default"; website_id = 1; name = text "Shop" } ∷ [];
  regions = [];
  subscribers = [];
  revocations = [];
  oauth_tokens = record { customer_id = 7; revoked = false } ∷ [];
  wishlists = record { wishlist_id = 3; customer_id = 7; sharing_code = []; updated_at = [] } ∷ [];
  wishlist_items = wish 30 3 501 ∷ wish 31 3 502 ∷ wish 32 4 501 ∷ [];
  products =
      record { entity_id = 501; sku = text "A1" }
      ∷ record { entity_id = 502; sku = text "B2" }
      ∷ [];
  outbox = [];
  sales = sales;
  eav = eav;
  catalog = catalog;
  status_labels = none;
  customer_attributes = none;
  address_attributes = none;
  store_cache = [];
  group_cache = [];
  next_customer = 10;
  next_address = 90;
  next_subscriber = 1;
  next_wishlist = 5;
  next_wishlist_item = 40;
  faults = [];
}

abbrev pub no_address : CustomerAddressInput
no_address = record {
  firstname = none;
  lastname = none;
  middlename = none;
  prefix = none;
  suffix = none;
  company = none;
  street = some (some (text "Main St 1") ∷ none ∷ []);
  city = none;
  region = none;
  postcode = none;
  country_code = none;
  country_id = none;
  telephone = none;
  fax = none;
  vat_id = none;
  default_shipping = some true;
  default_billing = none;
}

abbrev pub registration : CustomerCreateInput
registration = record {
  firstname = text "C";
  lastname = text "D";
  email = text "new@shop.example";
  password = password;
  prefix = none;
  middlename = none;
  suffix = none;
  date_of_birth = none;
  taxvat = none;
  gender = none;
  is_subscribed = some true;
}
