-- ===== src/Service/Mapper/Street.antt =====
-- The lines of a street: stored by `mapAddressInput`, shown by `mapAddress`.
use magento2_customer_graphq.Base.{ℕ, ◌≡◌, Option, some, List, [], ◌∷◌, map, All}
use magento2_customer_graphq.Base.Text.{Text, Free, split, join, split-append, split_of_Free}
use magento2_customer_graphq.Model.{CustomerAddressInput}
use magento2_customer_graphq.Repository.Customer.{coalesce}
use magento2_customer_graphq.Service.Mapper.{map_address_input, street_lines}

split-join :
    (sep : ℕ) (line : Text) (lines : List Text)
    → All (Free sep) (line ∷ lines)
    → split sep (join sep (line ∷ lines)) ≡ line ∷ lines
unfolding join
split-join sep line [] (h, _) = split_of_Free sep line h
split-join sep line (next ∷ lines) (h, hs) =
    rw (split-append sep line (join sep (next ∷ lines)) h, split-join sep next lines hs)

-- The lines of the street of an input, none of which holds a line break, are those that are shown
-- of the stored address; a line that is null is shown as an empty one.
pub street_lines-map_address_input :
    (input : CustomerAddressInput) (parent : ℕ) (line : Option Text) (lines : List (Option Text))
    → input.street ≡ some (line ∷ lines)
    → All (Free 10) (map (coalesce []) (line ∷ lines))
    → let a = map_address_input input parent in
      street_lines a.street ≡ map (coalesce []) (line ∷ lines)
unfolding map_address_input
street_lines-map_address_input input parent line lines e h =
    rw e (split-join 10 (coalesce [] line) (map (coalesce []) lines) h)
