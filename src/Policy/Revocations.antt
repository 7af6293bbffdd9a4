-- ===== src/Policy/Revocations.antt =====
-- `Policy::validate_revocations` and `validate_x509_revocations` of policy/mod.rs.
use grafhome_ca.Policy.Relations.{same_pair}
use grafhome_ca.Keys.{canonical_ssh_public_key}
use grafhome_ca.Policy.Model.{Policy}
use grafhome_ca.External.{External}
use grafhome_ca.Policy.Revoked.{
  host, user, is_user, public_key, fingerprint, renewal_fingerprint, revoked_at, reason,
  RevokedSshKey, RevokedX509Key,
}
use grafhome_ca.Base.{
  Text, ◌>>=◌, ◌>>◌, Bool, List, Option, Result, [], any, contains_text, decimal, ends_with,
  eq_text, err, false, if◌then◌else◌, inl, inr, is_empty, none, ok, some, text, trim, ◌&&◌, ◌++◌,
  ◌+◌, ◌∷◌, ensure, ok_or, validation, ℕ, refuse,
}
use grafhome_ca.Identity.{
  validate_fingerprint, valid_host_identity, valid_user_identity, validate_renewal_fingerprint,
}

abbrev revocations_path : Text
revocations_path = text "policy/revocations.toml"

unfoldable pub validate_revocation_host : Text → Text → Result (Unit {0})
validate_revocation_host field value =
    ensure (valid_host_identity value) (validation field (text "must match [A-Za-z0-9._-]+"))

unfoldable pub validate_revocation_user : Text → Text → Result (Unit {0})
validate_revocation_user field value =
    ensure (valid_user_identity value) (validation field (text "must match [a-z_][a-z0-9_-]*[$]?"))

abbrev is_blank : Option Text → Bool
is_blank none = false
is_blank (some why) = is_empty (trim why)

ssh_field : ℕ → Text
ssh_field index = revocations_path ++ (text ":ssh_keys[" ++ (decimal index ++ text "]"))

x509_field : ℕ → Text
x509_field index = revocations_path ++ (text ":x509_keys[" ++ (decimal index ++ text "]"))

-- The kind that an SSH key is a duplicate under.
abbrev pub key_kind_of : RevokedSshKey → Text
key_kind_of r = if is_user r then text "user" else text "host"

module _ (x : External) where
  open x use {parse_rfc3339, offset_is_utc}

  -- The time and the reason of a tombstone.
  unfoldable pub check_tombstone : Text → Text → Option Text → Result (Unit {0})
  check_tombstone field at why = do
    timestamp ←
        ok_or (parse_rfc3339 at)
          (validation (field ++ text ".revoked_at") (text "must be an RFC 3339 timestamp"))
    ensure (offset_is_utc timestamp && ends_with (b'Z' ∷ []) at) (
        validation (field ++ text ".revoked_at")
          (text "must be a UTC RFC 3339 timestamp ending in Z"))
    refuse (is_blank why) (validation (field ++ text ".reason") (text "must not be empty"))

  unfoldable pub check_revoked_identity : Text → RevokedSshKey → Result (Unit {0})
  check_revoked_identity field (host h key fp rfp at why) =
      validate_revocation_host (field ++ text ".host") h
  check_revoked_identity field (user u h key fp rfp at why) = do
    validate_revocation_user (field ++ text ".user") u
    validate_revocation_host (field ++ text ".client_host") h

  -- `canonical_ssh_public_key`, with its message as an error of the field.
  unfoldable pub canonical_of : Text → Text → Result (Text × Text)
  canonical_of field key = elim (canonical_ssh_public_key x key) [
    | inl pair ↦ ok pair
    | inr message ↦ err (validation (field ++ text ".public_key") message)
  ]

  -- One revoked SSH key, before it is inserted.
  unfoldable pub check_ssh_key : Text → RevokedSshKey → Result (Unit {0})
  check_ssh_key field r = do
    check_revoked_identity field r
    (canonical, fp) ← canonical_of field (public_key r)
    ensure (eq_text (public_key r) canonical) (
        validation (field ++ text ".public_key")
          (text "must use canonical '<algorithm> <base64>' form without a comment"))
    ensure (eq_text (fingerprint r) fp)
        (validation (field ++ text ".fingerprint") (text "fingerprint does not match public_key"))
    validate_renewal_fingerprint (field ++ text ".renewal_fingerprint") (renewal_fingerprint r)
    check_tombstone field (revoked_at r) (reason r)

  -- The loop over the SSH keys, with its two sets.
  unfoldable pub check_ssh_keys :
      ℕ → List (Text × Text) → List Text → List RevokedSshKey → Result (Unit {0})
  unfolding check_ssh_key ssh_field
  check_ssh_keys index seen renewals [] = ok tt
  check_ssh_keys index seen renewals (r ∷ rest) = do
    check_ssh_key (ssh_field index) r
    refuse (any (same_pair (key_kind_of r, fingerprint r)) seen) (
        validation (ssh_field index ++ text ".fingerprint")
          (text "duplicate revoked " ++ (key_kind_of r ++ text " key")))
    refuse (contains_text renewals (renewal_fingerprint r)) (
        validation (ssh_field index ++ text ".renewal_fingerprint")
          (text "duplicate revoked renewal key"))
    check_ssh_keys (index + 1) ((key_kind_of r, fingerprint r) ∷ seen)
        (renewal_fingerprint r ∷ renewals) rest

  -- One revoked X.509 key, before it is inserted.
  unfoldable pub check_x509_key : Text → RevokedX509Key → Result (Unit {0})
  check_x509_key field r = do
    validate_revocation_host (field ++ text ".host") r.host
    validate_revocation_host (field ++ text ".name") r.name
    validate_fingerprint (field ++ text ".public_key_fingerprint") r.public_key_fingerprint
    validate_renewal_fingerprint (field ++ text ".renewal_fingerprint") r.renewal_fingerprint
    check_tombstone field r.revoked_at r.reason

  unfoldable pub check_x509_keys :
      ℕ → List Text → List Text → List RevokedX509Key → Result (Unit {0})
  unfolding check_x509_key x509_field
  check_x509_keys index seen renewals [] = ok tt
  check_x509_keys index seen renewals (r ∷ rest) = do
    check_x509_key (x509_field index) r
    refuse (contains_text seen r.public_key_fingerprint) (
        validation (x509_field index ++ text ".public_key_fingerprint")
          (text "duplicate revoked x509 key"))
    refuse (contains_text renewals r.renewal_fingerprint) (
        validation (x509_field index ++ text ".renewal_fingerprint")
          (text "duplicate revoked renewal key"))
    check_x509_keys (index + 1) (r.public_key_fingerprint ∷ seen) (r.renewal_fingerprint ∷ renewals)
        rest

  unfoldable pub validate_revocations : Policy → Result (Unit {0})
  unfolding check_ssh_keys check_x509_keys
  validate_revocations policy = do
    check_ssh_keys 0 [] [] policy.revoked_ssh_keys
    check_x509_keys 0 [] [] policy.revoked_x509_keys
