-- ===== src/Service/Security/Email.antt =====
-- What internal/service/security.go takes for an email address.
use magento2_customer_graphq.Base.{
  ℕ, suc, ◌+◌, ◌<◌, ◌≡◌, refl, ◌≢◌, ◌↔◌, true, some, [], ◌∷◌, ◌++◌, arith, length, take, drop,
  Option-cases, inl, inr, length-append, length-take, ap, ◌∙◌, take-length-append,
  drop-length-append,
}
use mathlib.Core.Bool.{false≢true}
use magento2_customer_graphq.Base.Text.{Text, Free}
use magento2_customer_graphq.Go.Strings.{
  index, last_index, index_first, index_cut, last_index_cut, last_index_last,
}
use magento2_customer_graphq.Service.Security.{is_valid_email, valid_around}

-- local@host.tld, where the first @ and the last dot after it count.
pub record IsEmail (email : Text) : Type 0 where
  pub local : Text
  pub host : Text
  pub tld : Text
  pub shape : email ≡ local ++ b'@' ∷ (host ++ b'.' ∷ tld)
  pub first_at : Free b'@' local
  pub last_dot : Free b'.' tld
  pub local_given : local ≢ []
  pub host_given : host ≢ []
  pub tld_given : tld ≢ []

length-pos : (s : Text) → s ≢ [] → 0 < length s
length-pos [] h = absurd (h refl)
length-pos (_ ∷ s) h = omega arith

valid_of_IsEmail :
    (local host tld : Text)
    → Free b'@' local
    → Free b'.' tld
    → local ≢ []
    → host ≢ []
    → tld ≢ []
    → is_valid_email (local ++ b'@' ∷ (host ++ b'.' ∷ tld)) ≡ true
unfolding is_valid_email
valid_of_IsEmail local host tld at dot l h t =
    rw
      (
        index_first b'@' local (host ++ b'.' ∷ tld) at,
        take-length-append local (b'@' ∷ (host ++ b'.' ∷ tld)),
        drop-length-append local b'@' (host ++ b'.' ∷ tld),
        last_index_last b'.' host tld dot,
        length-append host (b'.' ∷ tld),
      )
      (ground (arith, length-pos local l, length-pos host h, length-pos tld t))

ne-nil_of_length : (s : Text) → 0 < length s → s ≢ []
ne-nil_of_length [] h = elim h [ ]
ne-nil_of_length (_ ∷ s) h = cc

-- What the two searches find, as the parts of an address.
parts_of_cuts :
    (email : Text) (at dot : ℕ)
    → index b'@' email ≡ some at
    → last_index b'.' (drop (suc at) email) ≡ some dot
    → valid_around email (some at) ≡ true
    → IsEmail email
parts_of_cuts email at dot e f h =
    let domain = drop (suc at) email in
    let (shape, free, left) = index_cut b'@' email at e in
    let (shape', free', right) = last_index_cut b'.' domain dot f in
    let bounds : (0 < at) × (0 < dot) × (dot + 1 < length domain) = ground arith in
    record {
      local = take at email;
      host = take dot domain;
      tld = drop (suc dot) domain;
      shape = shape ∙ ap (λ d. take at email ++ b'@' ∷ d) shape';
      first_at = free;
      last_dot = free';
      local_given = ne-nil_of_length _ (omega arith);
      host_given = ne-nil_of_length _ (omega (arith, length-take dot domain));
      tld_given = ne-nil_of_length _ (omega arith);
    }

IsEmail-of_valid : (email : Text) → is_valid_email email ≡ true → IsEmail email
unfolding is_valid_email
IsEmail-of_valid email h = elim (Option-cases (index b'@' email)) [
  | inl e ↦ absurd (false≢true (rw e at h))
  | inr (at, e) ↦ elim (Option-cases (last_index b'.' (drop (suc at) email))) [
    | inl f ↦ absurd (ground arith)
    | inr (dot, f) ↦ parts_of_cuts email at dot e f (rw e at h)
  ]
]

-- An address is accepted exactly if it reads local@host.tld: something stands before the first @,
-- and the last dot after that @ has something on both of its sides.
pub is_valid_email_iff : (email : Text) → (is_valid_email email ≡ true) ↔ IsEmail email
is_valid_email_iff email = (
  IsEmail-of_valid email,
  λ p. rw p.shape (
      valid_of_IsEmail p.local p.host p.tld p.first_at p.last_dot p.local_given p.host_given
        p.tld_given),
)
