-- ===== src/Keys.antt =====
-- Public keys: `canonical_ssh_public_key` (policy/mod.rs), the JWK functions of
-- runtime_provisioners.rs and enrollment_registry.rs, and `CertificateKey` of x509.rs.
use grafhome_ca.Base.{
  ℕ, zero, suc, ◌+◌, ◌*◌, Bool, true, false, ◌&&◌, Option, none, some, List, [], ◌∷◌, ◌++◌, length,
  ◌==◌, Text, text, eq_text, strip_prefix, strip_suffix, starts_with, contains_part, trim,
  first_word, without_white_space, any, Result, ok, err, Error, validation, ok_or, ensure, refuse,
  ◌>>=◌, ◌>>◌, ◌⊎◌, inl, inr, if◌then◌else◌,
}
use grafhome_ca.External.{External}

-- The DER prefix of a P-256 `SubjectPublicKeyInfo`.
abbrev pub p256_spki_prefix : Text
p256_spki_prefix =
    0x30 ∷ 0x59 ∷ 0x30 ∷ 0x13 ∷ 0x06 ∷ 0x07 ∷ 0x2a ∷ 0x86 ∷ 0x48 ∷ 0xce ∷ 0x3d ∷ 0x02 ∷ 0x01 ∷ 0x06
    ∷ 0x08 ∷ 0x2a ∷ 0x86 ∷ 0x48 ∷ 0xce ∷ 0x3d ∷ 0x03 ∷ 0x01 ∷ 0x07 ∷ 0x03 ∷ 0x42 ∷ 0x00 ∷ 0x04 ∷ []

abbrev pub p256_spki_len : ℕ
p256_spki_len = length p256_spki_prefix + 2 * 32

pub record CertificateKey : Type 0 where
  pub der : Text

invalid_key : Text → Error
invalid_key message = validation (text "certificate public key") message

-- `CertificateKey::from_der`
unfoldable pub from_der : Text → Result CertificateKey
unfolding invalid_key
from_der der =
    if length der == p256_spki_len && starts_with p256_spki_prefix der
    then ok (record { der = der })
    else err (invalid_key (text "expected a P-256 public key"))

-- `encoded.as_bytes().chunks(64)`, each line followed by a newline. The first argument counts the
-- bytes that the line still takes.
pem_lines : ℕ → Text → Text
pem_lines room [] = 10 ∷ []
pem_lines zero (c ∷ s) = 10 ∷ c ∷ pem_lines 63 s
pem_lines (suc room) (c ∷ s) = c ∷ pem_lines room s

abbrev pem_body : Text → Text
pem_body [] = []
pem_body (c ∷ s) = pem_lines 64 (c ∷ s)

-- The members of a public JWK of one type, in the order in which they are copied.
unfoldable pub jwk_members : Text → Option (List Text)
jwk_members kty =
    if eq_text kty (text "EC")
    then some (text "crv" ∷ text "kty" ∷ text "x" ∷ text "y" ∷ [])
    else if eq_text kty (text "OKP")
    then some (text "crv" ∷ text "kty" ∷ text "x" ∷ [])
    else if eq_text kty (text "RSA")
    then some (text "e" ∷ text "kty" ∷ text "n" ∷ [])
    else none

abbrev pub private_jwk_fields : List Text
private_jwk_fields =
    text "d" ∷ text "k" ∷ text "p" ∷ text "q" ∷ text "dp" ∷ text "dq" ∷ text "qi" ∷ text "oth" ∷ []

module _ (x : External) where
  open x use {
    Value, is_object, get, as_str, string, empty_object, insert, to_vec, sha256, encode_url_safe,
    encode_standard, encode_standard_no_pad, decode_standard, PublicKey, from_openssh, set_comment,
    to_openssh, ssh_fingerprint,
  }

  -- `CertificateKey::parse`
  unfoldable pub parse_pem : Text → Result CertificateKey
  unfolding from_der
  parse_pem pem = do
    rest ← ok_or (strip_prefix (text "-----BEGIN PUBLIC KEY-----") (trim pem)) expected
    body ← ok_or (strip_suffix (text "-----END PUBLIC KEY-----") rest) expected
    der ←
        ok_or (decode_standard (without_white_space body))
          (invalid_key (text "PEM body is not valid base64"))
    from_der der
    where
      expected : Error
      expected = invalid_key (text "expected a PEM public key")

  -- `CertificateKey::pem`
  unfoldable pub to_pem : CertificateKey → Text
  unfolding pem_lines
  to_pem key =
      text "-----BEGIN PUBLIC KEY-----"
      ++ (10 ∷ (pem_body (encode_standard key.der) ++ (text "-----END PUBLIC KEY-----" ++ 10 ∷ [])))

  -- `CertificateKey::fingerprint`
  unfoldable pub certificate_fingerprint : CertificateKey → Text
  certificate_fingerprint key = text "SHA256:" ++ encode_standard_no_pad (sha256 key.der)

  -- The part of `canonical_ssh_public_key` behind a successful parse.
  canonical_parts : PublicKey → (Text × Text) ⊎ Text
  canonical_parts key = elim (to_openssh key) [
    | inl canonical ↦ inl (canonical, ssh_fingerprint key)
    | inr e ↦ inr (text "invalid OpenSSH public key: " ++ e)
  ]

  unfoldable pub canonical_ssh_public_key : Text → (Text × Text) ⊎ Text
  unfolding canonical_parts
  canonical_ssh_public_key value = elim (first_word value) [
    | none ↦ inr (text "expected an OpenSSH public key")
    | some algorithm ↦
        if contains_part (text "-cert-v01@openssh.com") algorithm
        then inr (text "SSH certificates cannot be revoked as keys; provide the plain public key")
        else elim (from_openssh value) [
          | inr e ↦ inr (text "invalid OpenSSH public key: " ++ e)
          | inl key ↦ canonical_parts (set_comment key [])
        ]
  ]

  unfoldable pub canonical_key : Text → Result (Text × Text)
  canonical_key value = elim (canonical_ssh_public_key value) [
    | inl pair ↦ ok pair
    | inr message ↦ err (validation (text "enrollment SSH public key") message)
  ]

  -- `object.get(member).and_then(Value::as_str)`
  unfoldable pub get_str : Value → Text → Option Text
  get_str v member = elim (get v member) [ none ↦ none | some m ↦ as_str m ]

  -- The loop over the members; `material` is the map that it fills.
  unfoldable pub copy_members : Text → Value → List Text → Value → Result Value
  copy_members field jwk [] material = ok material
  copy_members field jwk (member ∷ members) material = elim (get_str jwk member) [
    | none ↦ err (validation field (text "JWK must have a string " ++ member))
    | some value ↦ copy_members field jwk members (insert material member (string value))
  ]

  unfoldable pub jwk_public_material : Value → Text → Result Value
  unfolding copy_members
  jwk_public_material jwk field = do
    ensure (is_object jwk) (validation field (text "JWK must be a JSON object"))
    kty ← ok_or (get_str jwk (text "kty")) (validation field (text "JWK must have a string kty"))
    members ← ok_or (jwk_members kty) (validation field (text "unsupported JWK type " ++ kty))
    copy_members field jwk members empty_object

  -- `object.contains_key`
  abbrev pub contains_key : Value → Text → Bool
  contains_key v k = elim (get v k) [ none ↦ false | some m ↦ true ]

  unfoldable pub validate_public_jwk : Value → Text → Result Value
  validate_public_jwk jwk field = do
    ensure (is_object jwk) (validation field (text "public JWK must be a JSON object"))
    refuse (any (contains_key jwk) private_jwk_fields)
        (validation field (text "public JWK must not contain private key material"))
    jwk_public_material jwk field

  -- `canonical_jwk` of enrollment_registry.rs
  unfoldable pub canonical_jwk : Value → Result (Value × Text)
  canonical_jwk value = do
    canonical ← jwk_public_material value (text "renewal public JWK")
    ok (canonical, text "SHA256:" ++ encode_url_safe (sha256 (to_vec canonical)))
