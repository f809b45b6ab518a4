-- ===== src/Env.antt =====
-- What the services take from outside: the request's context, the store configuration, the clock,
-- randomness, the hash functions, and the collation of the database.
use magento2_customer_graphq.Base.{
  ℕ, ◌*◌, ◌/◌, ◌%◌, ◌^◌, ◌-◌, Bool, Option, List, ltb, if◌then◌else◌,
}
use magento2_customer_graphq.Base.Text.{Text}
use magento2_customer_graphq.Go.Int.{ℤ, pos, negsuc}
use magento2_customer_graphq.World.{SubscriberRow}
use magento2_customer_graphq.World.Orders.{Float, OrderData, OrderCommentData}
use magento2_customer_graphq.World.Catalog.{WishlistItemData}
use magento2_customer_graphq.World.Attributes.{EavAttributeRow, EavOptionRow}

-- The paths of `core_config_data` that the code asks the ConfigProvider for.
pub data ConfigPath : Type 0 where
  minimum_password_length : ConfigPath
  required_character_classes_number : ConfigPath
  lockout_failures : ConfigPath
  lockout_threshold : ConfigPath
  reset_link_expiration_period : ConfigPath
  email_availability_check : ConfigPath
  newsletter_active : ConfigPath

-- Times are nanoseconds since the epoch.
pub record Env : Type 0 where
  -- `middleware.GetCustomerID(ctx)` and `middleware.GetStoreID(ctx)`
  pub customer_id : ℕ
  pub store_id : ℕ
  -- `cp.GetInt(path, store, default)` and `cp.GetBool(path, store)`
  pub get_int : ConfigPath → ℕ → ℕ → ℕ
  pub get_bool : ConfigPath → ℕ → Bool
  -- `time.Now()`, one instant for a request, and the layout "2006-01-02 15:04:05" in UTC
  pub now : ℤ
  pub format_time : ℤ → Text
  pub parse_time : Text → Option ℤ
  -- `rand.Read`: the salt of a new hash, if the read succeeds, and the bytes of a reset token
  pub salt : Option Text
  pub reset_bytes : Text
  -- the 16 bytes of a sharing code
  pub sharing_bytes : Text
  -- `argon2.IDKey(password, salt, time, memory, 1, keyLen)` for a time above 0, `sha256`,
  -- `bcrypt.CompareHashAndPassword`
  pub argon2 : Text → Text → ℕ → ℕ → ℕ → Text
  pub sha256 : Text → Text
  pub bcrypt_matches : Text → Text → Bool
  -- `jwtManager.Create`, if a manager is configured; `none` inside is its error
  pub jwt_create : Option (ℕ → Option Text)
  -- `=` on a text column, and the duplicate key of `newsletter_subscriber`
  pub collate : Text → Text → Bool
  pub same_subscriber : SubscriberRow → SubscriberRow → Bool
  -- `LIKE` on a text column; `<=` between times; `<=` and `>=` between a number and a text
  pub like : Text → Text → Bool
  pub time_le : Text → Text → Bool
  pub number_le : Float → Text → Bool
  pub number_ge : Float → Text → Bool
  -- `ORDER BY` with a column and a direction; nothing is said of rows that are equal there
  pub order_by : Text → Text → List OrderData → List OrderData
  pub latest_first : List WishlistItemData → List WishlistItemData
  pub by_created_at : List OrderCommentData → List OrderCommentData
  pub by_attribute_code : List EavAttributeRow → List EavAttributeRow
  pub by_sort_order : List EavOptionRow → List EavOptionRow
  -- the order in which a map of these keys is walked
  pub map_order : List Text → List Text
  -- the layout "2006-01-02T15:04:05Z"; `cp.GetDefault("general/locale/timezone")`; the layout
  -- "2006-01-02 15:04:05" in the location of a name, if `time.LoadLocation` knows it
  pub parse_zulu : Text → Option ℤ
  pub timezone : Text
  pub load_location : Text → Option (ℤ → Text)
  -- `unicode.IsLower`, `unicode.IsUpper`, `unicode.IsDigit` past ASCII
  pub unicode_lower : ℕ → Bool
  pub unicode_upper : ℕ → Bool
  pub unicode_digit : ℕ → Bool
  -- `os.Getenv("STOREFRONT_URL")` and `url.QueryEscape`
  pub storefront_url : Text
  pub query_escape : Text → Text

-- `time.Duration(n) * unit`: an int64 of nanoseconds.
abbrev pub duration : ℕ → ℤ
duration n = let m = n % 2 ^ 64 in if ltb m (2 ^ 63) then pos m else negsuc (2 ^ 64 - 1 - m)

abbrev pub minutes : ℕ → ℤ
minutes n = duration (n * 60000000000)

abbrev pub days : ℕ → ℤ
days n = duration (n * 86400000000000)

-- `t.Unix()`
abbrev pub unix : ℤ → ℤ
unix (pos n) = pos (n / 1000000000)
unix (negsuc n) = negsuc (n / 1000000000)
