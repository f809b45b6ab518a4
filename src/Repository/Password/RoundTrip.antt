-- ===== src/Repository/Password/RoundTrip.antt =====
-- `HashPassword` and `VerifyPassword` of internal/repository/customer.go against one another.
use magento2_customer_graphq.Base.{◌≡◌, refl, ◌↔◌, ap, true, [], ◌∷◌, ◌++◌, arith, All}
use magento2_customer_graphq.Base.Text.{
  Text, text, text_eq, text_eq_iff, Free, split, split-append, split_of_Free, has_prefix,
}
use magento2_customer_graphq.Go.Strconv.{IsByte, itoa, atoi}
use magento2_customer_graphq.Go.Hex.{hex_encode, hex_encode-Free, hex_encode_inj}
use magento2_customer_graphq.Go.Base64.{base64_encode, base64_encode-Free}
use magento2_customer_graphq.Env.{Env}
use magento2_customer_graphq.Repository.Password.{
  salt_bytes, verify_version, verify_password, hash_of,
}

split3 :
    (a b c : Text)
    → Free b':' a
    → Free b':' b
    → Free b':' c
    → split b':' (a ++ (text ":" ++ (b ++ (text ":" ++ c)))) ≡ a ∷ b ∷ c ∷ []
split3 a b c ha hb hc =
    rw (split-append b':' a (b ++ b':' ∷ c) ha, split-append b':' b c hb, split_of_Free b':' c hc)

module _ (env : Env) where
  -- The version that `HashPassword` writes selects its own parameters.
  version_parameters :
      (hash salt password : Text)
      → verify_version env hash salt password (text "3_32_2_67108864")
        ≡ text_eq (hex_encode (env.argon2 password (salt_bytes env salt) 2 65536 32)) hash
  unfolding verify_version has_prefix split atoi
  version_parameters hash salt password = refl

  verify-hash :
      (salt password other : Text)
      → All IsByte salt
      → verify_password env (hash_of env salt password) other
        ≡ text_eq
            (hex_encode (env.argon2 other (salt_bytes env (base64_encode salt)) 2 65536 32))
            (hex_encode (env.argon2 password (salt_bytes env (base64_encode salt)) 2 65536 32))
  unfolding verify_password hash_of itoa
  verify-hash salt password other h =
      let s = base64_encode salt in
      let key = env.argon2 password (salt_bytes env s) 2 65536 32 in
      rw
        (split3 (hex_encode key) s (text "3_32_2_67108864") (hex_encode-Free key)
          (base64_encode-Free salt h) (omega arith))
        (version_parameters (hex_encode key) s other)

  -- A password verifies against the hash that was made of another exactly if the two have the same
  -- Argon2id key under the salt's first 16 bytes and the parameters of a new hash. So the password
  -- of a hash itself always verifies.
  pub verify_password-hash_of_iff :
      (salt password other : Text)
      → All IsByte salt
      → (verify_password env (hash_of env salt password) other ≡ true) ↔ (
          env.argon2 other (salt_bytes env (base64_encode salt)) 2 65536 32
          ≡ env.argon2 password (salt_bytes env (base64_encode salt)) 2 65536 32)
  verify_password-hash_of_iff salt password other h =
      rw (verify-hash salt password other h) (
        λ e. hex_encode_inj _ _ ((text_eq_iff _ _).0 e),
        λ e. (text_eq_iff _ _).1 (ap hex_encode e),
      )
