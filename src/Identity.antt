-- ===== src/Identity.antt =====
-- The tests on identities, DNS names and fingerprints of policy/mod.rs.
use grafhome_ca.Base.{
  ℕ, Bool, false, not, ◌&&◌, ◌||◌, none, some, [], ◌∷◌, all, leb, ◌==◌, length, is_empty, Text,
  text, eq_text, strip_prefix, strip_suffix, starts_with, ends_with, split, is_ascii_alphanumeric,
  is_ascii_lowercase, is_ascii_digit, Result, validation, ensure,
}

-- `character.is_ascii_alphanumeric() || "._-".contains(character)`
abbrev pub is_host_byte : ℕ → Bool
is_host_byte b = is_ascii_alphanumeric b || b == b'.' || b == b'_' || b == b'-'

unfoldable pub valid_host_identity : Text → Bool
valid_host_identity value =
    not (is_empty value)
    && not (eq_text value (text ".") || eq_text value (text ".."))
    && all is_host_byte value

abbrev pub is_user_start : ℕ → Bool
is_user_start b = is_ascii_lowercase b || b == b'_'

abbrev pub is_user_byte : ℕ → Bool
is_user_byte b = is_ascii_lowercase b || is_ascii_digit b || b == b'_' || b == b'-'

-- `value.strip_suffix('$').unwrap_or(value)`
abbrev pub without_dollar : Text → Text
without_dollar value = elim (strip_suffix (b'$' ∷ []) value) [ none ↦ value | some base ↦ base ]

abbrev pub is_user_base : Text → Bool
is_user_base [] = false
is_user_base (c ∷ s) = is_user_start c && all is_user_byte s

unfoldable pub valid_user_identity : Text → Bool
valid_user_identity value = is_user_base (without_dollar value)

abbrev pub is_dns_byte : ℕ → Bool
is_dns_byte b = is_ascii_lowercase b || is_ascii_digit b || b == b'-'

unfoldable pub valid_dns_label : Text → Bool
valid_dns_label label =
    leb 1 (length label)
    && leb (length label) 63
    && not (starts_with (b'-' ∷ []) label)
    && not (ends_with (b'-' ∷ []) label)
    && all is_dns_byte label

unfoldable pub valid_dns_name : Text → Bool
unfolding valid_dns_label
valid_dns_name value = leb (length value) 253 && all valid_dns_label (split b'.' value)

-- 43 characters behind `SHA256:`, each one of the alphabet.
abbrev is_sha256_text : (ℕ → Bool) → Text → Bool
is_sha256_text in_alphabet value = elim (strip_prefix (text "SHA256:") value) [
  | none ↦ false
  | some encoded ↦ length encoded == 43 && all in_alphabet encoded
]

pub validate_fingerprint : Text → Text → Result (Unit {0})
validate_fingerprint field value =
    ensure (is_sha256_text (λ b. is_ascii_alphanumeric b || b == b'+' || b == b'/') value)
      (validation field (text "must be a SHA-256 fingerprint"))

unfoldable pub validate_renewal_fingerprint : Text → Text → Result (Unit {0})
validate_renewal_fingerprint field value =
    ensure (is_sha256_text (λ b. is_ascii_alphanumeric b || b == b'-' || b == b'_') value)
      (validation field (text "must be a SHA-256 renewal JWK thumbprint"))

unfoldable pub validate_host_name : Text → Text → Result (Unit {0})
validate_host_name field value =
    ensure (valid_host_identity value) (validation field (text "must match [A-Za-z0-9._-]+"))

unfoldable pub validate_user_name : Text → Text → Result (Unit {0})
validate_user_name field value =
    ensure (valid_user_identity value) (validation field (text "must match [a-z_][a-z0-9_-]*[$]?"))
