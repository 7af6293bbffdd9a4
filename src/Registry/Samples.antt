-- ===== src/Registry/Samples.antt =====
-- The theorems on validation at a concrete registry, with the sample of the other crates.
use grafhome_ca.Registry.Naming.{identity_tells}
use grafhome_ca.Registry.Saving.{activate-validate, mark_revoked-validate, reserve-validate}
use grafhome_ca.Registry.Consistency.{IsConsistent, validate_iff}
use grafhome_ca.Registry.Pending.{
  validate_at, validate_certified_key, validate_names, validate_renewal_key, validate_revoked_at,
  validate_timestamp, validate,
}
use grafhome_ca.Identity.{valid_host_identity, validate_host_name}
use grafhome_ca.Keys.{
  canonical_jwk, canonical_key, canonical_ssh_public_key, copy_members, get_str,
  jwk_public_material, jwk_members,
}
use grafhome_ca.External.Sample.{Json, no_members, sample, string, object, member}
use grafhome_ca.Registry.Store.{
  EnrollmentRegistry, activate, check_candidate, mark_revoked, reserve, activate_first,
}
use grafhome_ca.Registry.Record.{
  EnrollmentRecord, active, enrolled_at, renewal_fingerprint, renewal_public_jwk, status, host,
  revoked_at, same_identity, set_status,
}
use grafhome_ca.Base.{
  ◌≡◌, Text, [], eq_text, none, ok, refl, strip_prefix, text, ◌∷◌, contains_part, ends_with,
  first_word, starts_with, true, ◌↔◌,
}

abbrev jwk : Json
jwk = object (
    member (text "x") (string (b'x' ∷ [])) (
      member (text "kty") (string (text "OKP"))
        (member (text "crv") (string (b'c' ∷ [])) no_members)))

abbrev key : Text
key = b'k' ∷ []

abbrev thumbprint : Text
thumbprint = text "SHA256:"

-- An active host, and a second host that asks for enrollment.
abbrev laptop : EnrollmentRecord Json
laptop = host active (b'l' ∷ []) key key jwk thumbprint (b'0' ∷ b'Z' ∷ []) none

abbrev registry : EnrollmentRegistry Json
registry = record { format_version = 1; records = laptop ∷ [] }

abbrev start : EnrollmentRegistry Json
start = record { format_version = 1; records = [] }

laptop-IsValid : validate_at sample [] laptop ≡ ok tt
unfolding validate_at validate_names validate_certified_key validate_renewal_key validate_timestamp
    validate_revoked_at validate_host_name valid_host_identity canonical_key
    canonical_ssh_public_key canonical_jwk jwk_public_material copy_members get_str text eq_text
    strip_prefix enrolled_at status revoked_at renewal_public_jwk renewal_fingerprint first_word
    contains_part starts_with jwk_members ends_with
laptop-IsValid = refl

start_valid : validate sample [] start ≡ ok tt
unfolding validate
start_valid = refl

laptop-reserved : reserve start laptop ≡ ok (true, registry)
unfolding reserve check_candidate
laptop-reserved = refl

laptop-activated : activate start laptop ≡ ok (true, registry)
unfolding activate check_candidate set_status activate_first
laptop-activated = refl

registry_valid : validate sample [] registry ≡ ok tt
registry_valid =
    reserve-validate sample [] start registry laptop true start_valid laptop-IsValid laptop-reserved

now_valid : validate_timestamp sample (text "revoked_at") (b'1' ∷ b'Z' ∷ []) ≡ ok tt
unfolding validate_timestamp ends_with starts_with strip_prefix
now_valid = refl

validate_iff_example : (validate sample [] registry ≡ ok tt) ↔ IsConsistent sample registry
validate_iff_example = validate_iff sample [] registry

reserve-validate_example : validate sample [] registry ≡ ok tt
reserve-validate_example =
    reserve-validate sample [] start registry laptop true start_valid laptop-IsValid laptop-reserved

activate-validate_example : validate sample [] registry ≡ ok tt
activate-validate_example =
    activate-validate sample [] start registry laptop true start_valid laptop-IsValid
      laptop-activated

mark_revoked-validate_example :
    validate sample [] (mark_revoked registry (laptop ∷ []) (b'1' ∷ b'Z' ∷ [])).1 ≡ ok tt
mark_revoked-validate_example =
    mark_revoked-validate sample [] registry (laptop ∷ []) (b'1' ∷ b'Z' ∷ []) registry_valid
      now_valid

laptop_names : validate_names sample [] laptop ≡ ok tt
unfolding validate_names validate_host_name valid_host_identity eq_text text
laptop_names = refl

identity_tells_example : same_identity laptop laptop ≡ true
identity_tells_example = identity_tells sample laptop laptop laptop_names laptop_names refl
