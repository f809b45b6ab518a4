-- ===== src/Graph/Uid.antt =====
-- The UIDs that internal/service/mapper.go gives out, as graph/helpers.go reads them back.
use magento2_customer_graphq.Base.{ℕ, ◌≡◌, ◌≤◌, ◌∙◌, ap, Option, some, arith}
use magento2_customer_graphq.Go.Int.{pos}
use magento2_customer_graphq.Go.Strconv.{max_int, itoa, atoi-itoa, itoa-IsByte}
use magento2_customer_graphq.Go.Base64.{base64_decode-base64_encode}
use magento2_customer_graphq.World.{World, AddressData}
use magento2_customer_graphq.World.Monad.{ok}
use magento2_customer_graphq.Model.{CustomerAddress, CustomerAddressInput}
use magento2_customer_graphq.Service.Mapper.{encode_uid, map_address, address_output}
use magento2_customer_graphq.Graph.{decode_uid, atoi_of}
use magento2_customer_graphq.Graph.Resolvers.{
  at_uid, update_customer_address_v2, delete_customer_address_v2,
}
use magento2_customer_graphq.Env.{Env}
use magento2_customer_graphq.Service.Addresses.{update_address, delete_address}

-- A UID decodes to the id that it was made of, up to the largest int.
pub decode_uid-encode_uid : (n : ℕ) → n ≤ max_int → decode_uid (encode_uid n) ≡ some (pos n)
unfolding decode_uid encode_uid
decode_uid-encode_uid n h =
    ap atoi_of (base64_decode-base64_encode (itoa n) (itoa-IsByte n)) ∙ atoi-itoa n h

mapped_uid :
    (a : AddressData) (billing shipping : Option ℕ) (w : World) {o : CustomerAddress} {w' : World}
    → map_address a billing shipping w ≡ (ok o, w')
    → (o.uid ≡ encode_uid a.entity_id) × (o.id ≡ a.entity_id)
unfolding map_address address_output
mapped_uid a billing shipping w h = ground arith

-- The UID of an address that is sent to a client decodes to the address's own id, up to the largest
-- int; so does the `id` field.
pub map_address-uid :
    (a : AddressData) (billing shipping : Option ℕ) (w : World) {o : CustomerAddress} {w' : World}
    → a.entity_id ≤ max_int
    → map_address a billing shipping w ≡ (ok o, w')
    → (decode_uid o.uid ≡ some (pos a.entity_id)) × (o.id ≡ a.entity_id)
map_address-uid a billing shipping w h e =
    let (uid, id) = mapped_uid a billing shipping w e in
    (ap decode_uid uid ∙ decode_uid-encode_uid a.entity_id h, id)

-- Up to the largest int: updateCustomerAddressV2 and deleteCustomerAddressV2 do with the UID of an
-- address what updateCustomerAddress and deleteCustomerAddress do with its id.
pub encode_uid_resolves :
    (env : Env) (n : ℕ) (input : CustomerAddressInput)
    → n ≤ max_int
    → (update_customer_address_v2 env (encode_uid n) input ≡ update_address env n input)
      × (delete_customer_address_v2 env (encode_uid n) ≡ delete_address env n)
unfolding update_customer_address_v2 delete_customer_address_v2
encode_uid_resolves env n input h = (
  ap (at_uid env (λ id. update_address env id input)) (decode_uid-encode_uid n h),
  ap (at_uid env (delete_address env)) (decode_uid-encode_uid n h),
)
