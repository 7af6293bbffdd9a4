-- ===== src/Names.antt =====
-- Provisioner names of enrollment.rs and x509.rs: identities in lowercase hexadecimal.
pub mod Hex
pub mod RoundTrip
pub mod Select
pub mod Apart
mod Tests
use grafhome_ca.Base.{
  ℕ, ◌+◌, ◌-◌, ◌*◌, ◌/◌, ◌%◌, not, ◌&&◌, ◌||◌, Option, none, some, [], ◌∷◌, ◌++◌, ltb, ◌==◌,
  if◌then◌else◌, Text, text, eq_text, strip_prefix, split_once, is_empty, in_range, is_utf8, length,
  ◌>>◌,
}

infixl 5 ◌>>=◌
abbrev pub ◌>>=◌ {ℓ κ} : {A : Type ℓ} {B : Type κ} → Option A → (A → Option B) → Option B
none >>= k = none
some a >>= k = k a

-- The digit of `{:02x}`.
unfoldable pub hex_char : ℕ → ℕ
hex_char d = if ltb d 10 then 48 + d else 87 + d

unfoldable pub encode_identity : Text → Text
unfolding hex_char
encode_identity [] = []
encode_identity (b ∷ s) = hex_char (b / 16) ∷ hex_char (b % 16) ∷ encode_identity s

-- `char::to_digit(16)`
hex_digit : ℕ → Option ℕ
hex_digit c =
    if in_range b'0' b'9' c
    then some (c - 48)
    else if in_range b'a' b'f' c
    then some (c - 87)
    else if in_range b'A' b'F' c
    then some (c - 55)
    else none

hex_loop : ℕ → Text → Option ℕ
hex_loop value [] = some value
hex_loop value (c ∷ s) = elim (hex_digit c) [
  | none ↦ none
  | some d ↦
      let rest = hex_loop (value * 16 + d) s in if ltb (value * 16 + d) 256 then rest else none
]

-- `u8::from_str_radix(s, 16)`: one leading `+` is accepted before at least one digit.
u8_from_hex : Text → Option ℕ
unfolding hex_loop hex_digit
u8_from_hex [] = none
u8_from_hex (c ∷ []) = if c == b'+' || c == b'-' then none else hex_loop 0 (c ∷ [])
u8_from_hex (c ∷ d ∷ s) = if c == b'+' then hex_loop 0 (d ∷ s) else hex_loop 0 (c ∷ d ∷ s)

-- One pair of `as_chunks::<2>()`.
decode_pair : ℕ → ℕ → Option ℕ
unfolding u8_from_hex
decode_pair a b = let pair = a ∷ b ∷ [] in if is_utf8 pair then u8_from_hex pair else none

-- The pairs in order; an odd byte at the end stays out, as in `as_chunks`.
decode_pairs : Text → Option Text
unfolding decode_pair
decode_pairs [] = some []
decode_pairs (a ∷ []) = some []
decode_pairs (a ∷ b ∷ s) = elim (decode_pair a b) [
  | none ↦ none
  | some byte ↦ elim (decode_pairs s) [ none ↦ none | some bytes ↦ some (byte ∷ bytes) ]
]

-- `String::from_utf8(bytes).ok()`
abbrev from_utf8 : Text → Option Text
from_utf8 s = if is_utf8 s then some s else none

pub decode_identity : Text → Option Text
unfolding decode_pairs
decode_identity value =
    if not (length value % 2 == 0) then none else decode_pairs value >>= from_utf8

pub user_provisioner_prefix : Text → Text
unfolding encode_identity
user_provisioner_prefix user = text "grafhome-user-" ++ (encode_identity user ++ text "-")

pub user_provisioner_name : Text → Text → Text
unfolding user_provisioner_prefix
user_provisioner_name user host = user_provisioner_prefix user ++ encode_identity host

pub user_provisioner_host_suffix : Text → Text
unfolding encode_identity
user_provisioner_host_suffix host = text "-" ++ encode_identity host

unfoldable pub host_provisioner_name : Text → Text
unfolding encode_identity
host_provisioner_name host = text "grafhome-host-" ++ encode_identity host

unfoldable pub parse_user_provisioner_name : Text → Option (Text × Text)
unfolding decode_identity
parse_user_provisioner_name name = do
  encoded ← strip_prefix (text "grafhome-user-") name
  (user, host) ← split_once b'-' encoded
  user ← decode_identity user
  host ← decode_identity host
  some (user, host)

unfoldable pub parse_host_provisioner_name : Text → Option Text
unfolding decode_identity
parse_host_provisioner_name name = do
  encoded ← strip_prefix (text "grafhome-host-") name
  decode_identity encoded

pub x509_provisioner_name : Text → Text → Text
unfolding encode_identity
x509_provisioner_name host name =
    text "grafhome-x509-" ++ (encode_identity host ++ (text "-" ++ encode_identity name))

unfoldable pub parse_x509_provisioner_name : Text → Option (Text × Text)
unfolding decode_identity
parse_x509_provisioner_name name = do
  encoded ← strip_prefix (text "grafhome-x509-") name
  (host, certificate) ← split_once b'-' encoded
  host ← decode_identity host
  certificate ← decode_identity certificate
  if not (is_empty host)
        && not (is_empty certificate)
        && eq_text (x509_provisioner_name host certificate) name
      then some (host, certificate)
      else none

-- The identity that an operator reads.
unfoldable pub x509_identity : Text → Text → Text
x509_identity host name = text "x509 " ++ (name ++ (text "@" ++ host))
