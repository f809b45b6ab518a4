-- ===== src/Repository/Password.antt =====
-- internal/repository/customer.go: password hashes in Magento's format hash:salt:version.
pub mod RoundTrip
use magento2_customer_graphq.Base.{
  ℕ, ◌+◌, ◌-◌, ◌/◌, ◌%◌, ◌^◌, ◌&&◌, ◌==◌, ◌≡◌, refl, arith, Bool, true, false, none, some, List, [],
  ◌∷◌, ◌++◌, length, take, ltb, if◌then◌else◌,
}
use magento2_customer_graphq.Base.Text.{Text, text, text_eq, split, has_prefix}
use magento2_customer_graphq.Go.Int.{ℤ, pos, negsuc}
use magento2_customer_graphq.Go.Strconv.{atoi, itoa}
use magento2_customer_graphq.Go.Hex.{hex_encode}
use magento2_customer_graphq.Go.Base64.{base64_encode}
use magento2_customer_graphq.Errors.{generate_salt, salt_failed, wrap}
use magento2_customer_graphq.World.Monad.{Action, ok, panic, pure, fail}
use magento2_customer_graphq.Env.{Env}

-- `uint32(v)`
abbrev pub to_uint32 : ℤ → ℕ
to_uint32 (pos n) = n % 2 ^ 32
to_uint32 (negsuc n) = 2 ^ 32 - 1 - n % 2 ^ 32

-- `v / 1024`, which rounds towards zero.
abbrev pub kibi : ℤ → ℤ
kibi (pos n) = pos (n / 1024)
kibi (negsuc n) = if ltb n 1023 then pos 0 else negsuc ((n + 1) / 1024 - 1)

-- `if len(vparts) > i { if v, err := strconv.Atoi(vparts[i]); err == nil { p = uint32(f(v)) } }`
abbrev pub parameter : (ℤ → ℤ) → ℕ → List Text → ℕ
parameter f d [] = d
parameter f d (part ∷ _) = elim (atoi part) [ none ↦ d | some v ↦ to_uint32 (f v) ]

abbrev pub tail : List Text → List Text
tail [] = []
tail (_ ∷ ps) = ps

-- The number of rounds of a version.
abbrev ops_limit : Text → ℕ
ops_limit version = parameter (λ v. v) 2 (tail (tail (split b'_' version)))

-- Whether `VerifyPassword` calls `argon2.IDKey` with 0 rounds.
abbrev zero_rounds : List Text → Bool
zero_rounds [] = false
zero_rounds (hash ∷ []) = false
zero_rounds (hash ∷ salt ∷ []) = false
zero_rounds (hash ∷ salt ∷ version ∷ _) = has_prefix version (text "3") && (ops_limit version == 0)

unfoldable pub argon2_panics : Text → Bool
argon2_panics password_hash = zero_rounds (split b':' password_hash)

-- The panic of a call of `VerifyPassword`.
abbrev pub rounds_checked : Text → Action (Unit {0})
rounds_checked password_hash w = (if argon2_panics password_hash then panic else ok tt, w)

module _ (env : Env) where
  -- The first 16 bytes of the salt, as sodium takes them.
  abbrev pub salt_bytes : Text → Text
  salt_bytes s = if ltb 16 (length s) then take 16 s else s

  -- For 0 rounds, `argon2.IDKey` panics: `rounds_checked` stands before each call.
  unfoldable pub verify_argon2id : Text → Text → Text → Text → Bool
  verify_argon2id hash salt password version =
      let vparts = split b'_' version in
      let key_len = parameter (λ v. v) 32 (tail vparts) in
      let rounds = ops_limit version in
      let mem_limit = parameter kibi 65536 (tail (tail (tail vparts))) in
      let computed = env.argon2 password (salt_bytes salt) rounds mem_limit key_len in
      if rounds == 0 then false else text_eq (hex_encode computed) hash

  unfoldable pub mage_sha256_hash : Text → Text → Text
  mage_sha256_hash salt password = hex_encode (env.sha256 (salt ++ password))

  -- `switch version`
  unfoldable pub verify_version : Text → Text → Text → Text → Bool
  unfolding verify_argon2id mage_sha256_hash
  verify_version hash salt password version =
      if has_prefix version (text "3")
      then verify_argon2id hash salt password version
      else if text_eq version (text "0")
      then false
      else if text_eq version (text "1")
      then text_eq (mage_sha256_hash salt password) hash
      else if text_eq version (text "2")
      then env.bcrypt_matches hash password
      else false

  abbrev verify_parts : List Text → Text → Bool
  verify_parts [] password = false
  verify_parts (hash ∷ []) password = false
  verify_parts (hash ∷ salt ∷ []) password = verify_version hash salt password (text "1")
  verify_parts (hash ∷ salt ∷ version ∷ _) password = verify_version hash salt password version

  unfoldable pub verify_password : Text → Text → Bool
  unfolding verify_version
  verify_password password_hash password = verify_parts (split b':' password_hash) password

  verify_parts-runs :
      (parts : List Text) (password : Text)
      → verify_parts parts password ≡ true
      → zero_rounds parts ≡ false
  unfolding verify_version verify_argon2id
  verify_parts-runs [] password h = refl
  verify_parts-runs (hash ∷ []) password h = refl
  verify_parts-runs (hash ∷ salt ∷ []) password h = refl
  verify_parts-runs (hash ∷ salt ∷ version ∷ ps) password h = ground arith

  -- A hash that a password verifies against has rounds.
  pub verify_password-runs :
      (password_hash password : Text)
      → verify_password password_hash password ≡ true
      → argon2_panics password_hash ≡ false
  unfolding verify_password argon2_panics
  verify_password-runs password_hash password =
      verify_parts-runs (split b':' password_hash) password

  -- The text that `HashPassword` makes of a salt.
  unfoldable pub hash_of : Text → Text → Text
  hash_of salt password =
      let salt_str = base64_encode salt in
      let key = env.argon2 password (salt_bytes salt_str) 2 65536 32 in
      let version =
        text "3_" ++ (itoa 32 ++ (text "_" ++ (itoa 2 ++ (text "_" ++ itoa 67108864)))) in
      hex_encode key ++ (text ":" ++ (salt_str ++ (text ":" ++ version)))

  unfoldable pub hash_password : Text → Action Text
  unfolding hash_of
  hash_password password = elim env.salt [
    | none ↦ fail (wrap generate_salt salt_failed)
    | some salt ↦ pure (hash_of salt password)
  ]
