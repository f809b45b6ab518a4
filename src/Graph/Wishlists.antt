-- ===== src/Graph/Wishlists.antt =====
-- The resolvers of wishlists in graph/schema.resolvers.go.
pub mod Ownership
pub mod Listing
use magento2_customer_graphq.Base.{
  ℕ, Bool, true, false, not, ◌&&◌, ◌||◌, Option, none, some, List, [], ◌∷◌, ◌==◌, leb,
  if◌then◌else◌,
}
use magento2_customer_graphq.Base.Text.{Text, text_eq}
use magento2_customer_graphq.Go.Int.{ℤ}
use magento2_customer_graphq.Go.Strconv.{itoa, atoi}
use magento2_customer_graphq.Errors.{
  Error, wishlist_not_authorized, product_not_found, invalid_item_id,
}
use magento2_customer_graphq.World.Monad.{Action, ◌>>=◌, ◌>>◌, pure, fail_if, caught}
use magento2_customer_graphq.Env.{Env}
use magento2_customer_graphq.Repository.Wishlist.{get_or_create, count_items, add_item, remove}

pub record Wishlist : Type 0 where
  pub id : Text
  pub items_count : ℕ

pub record WishlistItemInput : Type 0 where
  pub sku : Text
  -- the 64 bits of a floating-point number
  pub quantity : ℕ

pub data WishlistUserInputErrorType : Type 0 where
  product_not_found_type undefined : WishlistUserInputErrorType

-- The message is the text of the error.
pub record WishlistUserInputError : Type 0 where
  pub code : WishlistUserInputErrorType
  pub message : Error

-- The outputs of the two mutations.
pub record WishlistOutput : Type 0 where
  pub wishlist : Wishlist
  pub user_errors : List WishlistUserInputError

-- `qty <= 0` on the bits: a zero, or a negative number that is not NaN.
abbrev pub at_most_zero : ℕ → Bool
at_most_zero bits = bits == 0 || (leb 9223372036854775808 bits && leb bits 18442240474082181120)

-- The bits of 1.
abbrev pub one : ℕ
one = 4607182418800017408

unfoldable pub quantity_or_one : ℕ → ℕ
quantity_or_one qty = if at_most_zero qty then one else qty

-- `err.Error() == "product not found"`: every other error of `AddItem` starts with another text.
unfoldable pub code_of : Error → WishlistUserInputErrorType
code_of product_not_found = product_not_found_type
code_of _ = undefined

unfoldable pub with_error : Option Error → List WishlistUserInputError → List WishlistUserInputError
unfolding code_of
with_error none errors = errors
with_error (some e) errors = record { code = code_of e; message = e } ∷ errors

-- The ids that can be read, and an error for each of the others.
unfoldable pub read_ids : List Text → List ℤ × List WishlistUserInputError
read_ids [] = ([], [])
read_ids (s ∷ rest) =
    let (ids, errors) = read_ids rest in
    elim (atoi s) [
      | some id ↦ (id ∷ ids, errors)
      | none ↦ (ids, record { code = undefined; message = invalid_item_id s } ∷ errors)
    ]

module _ (env : Env) where
  -- The caller's wishlist, which the id of the mutation has to name.
  unfoldable pub own_wishlist : Text → Action ℕ
  own_wishlist wishlist_id = do
    fail_if (env.customer_id == 0) wishlist_not_authorized
    own ← get_or_create env env.customer_id
    fail_if (not (text_eq wishlist_id (itoa own))) wishlist_not_authorized
    pure own

  unfoldable pub add_each : ℕ → List WishlistItemInput → Action (List WishlistUserInputError)
  unfolding quantity_or_one with_error
  add_each own [] = pure []
  add_each own (item ∷ items) = do
    error ← caught (add_item env own env.store_id item.sku (quantity_or_one item.quantity))
    errors ← add_each own items
    pure (with_error error errors)

  abbrev wishlist_output : ℕ → List WishlistUserInputError → Action WishlistOutput
  wishlist_output own errors = do
    count ← count_items own
    pure (record { wishlist = record { id = itoa own; items_count = count }; user_errors = errors })

  unfoldable pub add_products_to_wishlist : Text → List WishlistItemInput → Action WishlistOutput
  unfolding own_wishlist add_each
  add_products_to_wishlist wishlist_id items = do
    own ← own_wishlist wishlist_id
    errors ← add_each own items
    wishlist_output own errors

  unfoldable pub remove_products_from_wishlist : Text → List Text → Action WishlistOutput
  unfolding own_wishlist read_ids
  remove_products_from_wishlist wishlist_id item_ids = do
    own ← own_wishlist wishlist_id
    remove env own (read_ids item_ids).0
    wishlist_output own (read_ids item_ids).1
