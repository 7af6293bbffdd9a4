-- ===== src/Registry/Pending.antt =====
-- The records that approval makes of a request, and the validation of a record and of a whole
-- registry in enrollment_registry.rs.
use grafhome_ca.Base.{
  ℕ, ◌+◌, Bool, ◌&&◌, Option, none, some, List, [], ◌∷◌, ◌++◌, ◌==◌, decimal, Text, text, eq_text,
  contains_text, ends_with, Result, ok, err, Error, validation, ok_or, ensure, refuse, ◌>>=◌, ◌>>◌,
  if◌then◌else◌,
}
use grafhome_ca.External.{External}
use grafhome_ca.Identity.{validate_host_name, validate_user_name}
use grafhome_ca.Keys.{parse_pem, to_pem, certificate_fingerprint, canonical_key, canonical_jwk}
use grafhome_ca.Enrollment.{
  HostRequest, UserRequest, X509Request, validate_host_request, validate_user_request,
  validate_x509_request,
}
use grafhome_ca.Registry.Record.{
  RecordStatus, pending, revoked, EnrollmentRecord, host, user, x509, identity, status,
  key_fingerprint, renewal_public_jwk, renewal_fingerprint, enrolled_at, revoked_at,
}
use grafhome_ca.Registry.Store.{EnrollmentRegistry, format_version_now, live}

abbrev pub record_field : Text → ℕ → Text
record_field path index = path ++ (text ":records[" ++ (decimal index ++ text "]"))

-- `BTreeMap::insert` of a fingerprint: the index that had it before.
abbrev pub previous : Text → List (Text × ℕ) → Option ℕ
previous key [] = none
previous key ((k, i) ∷ rest) = if eq_text k key then some i else previous key rest

unfoldable pub no_previous : Text → Option ℕ → Result (Unit {0})
no_previous field none = ok tt
no_previous field (some i) =
    err (validation field (text "duplicates records[" ++ (decimal i ++ text "]")))

not_canonical : Text → Text → Error
not_canonical prefix field =
    validation (prefix ++ (text "." ++ field)) (text "public key or fingerprint is not canonical")

module _ (x : External) where
  open x use {Value, value_eq, parse_rfc3339, offset_is_utc}

  unfoldable pub pending_host : HostRequest Value → Text → Result (EnrollmentRecord Value)
  pending_host request now = do
    validate_host_request x request
    (key, fingerprint) ← canonical_key x request.ssh_public_key
    (jwk, thumbprint) ← canonical_jwk x request.renewal_public_jwk
    ok (host pending request.host key fingerprint jwk thumbprint now none)

  unfoldable pub pending_user : UserRequest Value → Text → Result (EnrollmentRecord Value)
  pending_user request now = do
    validate_user_request x request
    (key, fingerprint) ← canonical_key x request.ssh_public_key
    (jwk, thumbprint) ← canonical_jwk x request.renewal_public_jwk
    ok (user pending request.user request.host key fingerprint jwk thumbprint now none)

  unfoldable pub pending_x509 : X509Request Value → Text → Result (EnrollmentRecord Value)
  pending_x509 request now = do
    validate_x509_request x request
    key ← parse_pem x request.certificate_public_key
    (jwk, thumbprint) ← canonical_jwk x request.renewal_public_jwk
    ok (
        x509 pending request.host request.name (to_pem x key) (certificate_fingerprint x key) jwk
          thumbprint now none)

  unfoldable pub validate_timestamp : Text → Text → Result (Unit {0})
  validate_timestamp field value = do
    timestamp ←
        ok_or (parse_rfc3339 value) (validation field (text "must be an RFC 3339 timestamp"))
    ensure (offset_is_utc timestamp && ends_with (b'Z' ∷ []) value)
        (validation field (text "must be UTC and end in Z"))

  -- The names of a record, by its kind.
  unfoldable pub validate_names : Text → EnrollmentRecord Value → Result (Unit {0})
  validate_names prefix (host st h key fp jwk rfp at rev) =
      validate_host_name (prefix ++ text ".host") h
  validate_names prefix (user st u h key fp jwk rfp at rev) = do
    validate_user_name (prefix ++ text ".user") u
    validate_host_name (prefix ++ text ".client_host") h
  validate_names prefix (x509 st h n key fp jwk rfp at rev) = do
    validate_host_name (prefix ++ text ".host") h
    validate_host_name (prefix ++ text ".name") n

  -- An SSH key and the fingerprint beside it.
  ssh_is_canonical : Text → Text → Result Bool
  ssh_is_canonical key fp = do
    (key', fp') ← canonical_key x key
    ok (eq_text key' key && eq_text fp' fp)

  unfoldable pub validate_certified_key : Text → EnrollmentRecord Value → Result (Unit {0})
  unfolding ssh_is_canonical not_canonical
  validate_certified_key prefix (host st h key fp jwk rfp at rev) = do
    canonical ← ssh_is_canonical key fp
    ensure canonical (not_canonical prefix (text "ssh_public_key"))
  validate_certified_key prefix (user st u h key fp jwk rfp at rev) = do
    canonical ← ssh_is_canonical key fp
    ensure canonical (not_canonical prefix (text "ssh_public_key"))
  validate_certified_key prefix (x509 st h n key fp jwk rfp at rev) = do
    parsed ← parse_pem x key
    ensure (eq_text (to_pem x parsed) key && eq_text (certificate_fingerprint x parsed) fp)
        (not_canonical prefix (text "certificate_public_key"))

  unfoldable pub validate_renewal_key : Text → EnrollmentRecord Value → Result (Unit {0})
  validate_renewal_key prefix r = do
    (jwk, thumbprint) ← canonical_jwk x (renewal_public_jwk r)
    ensure (value_eq jwk (renewal_public_jwk r) && eq_text thumbprint (renewal_fingerprint r)) (
        validation (prefix ++ text ".renewal_public_jwk")
          (text "renewal public JWK or fingerprint is not canonical"))

  -- A revoked record, and no other, carries a revocation time.
  unfoldable pub validate_revoked_at : Text → RecordStatus → Option Text → Result (Unit {0})
  validate_revoked_at prefix revoked (some timestamp) =
      validate_timestamp (prefix ++ text ".revoked_at") timestamp
  validate_revoked_at prefix revoked none =
      err (validation (prefix ++ text ".revoked_at") (text "revoked record requires a timestamp"))
  validate_revoked_at prefix _ (some timestamp) = err (
      validation (prefix ++ text ".revoked_at")
        (text "only revoked records may have a revocation timestamp"))
  validate_revoked_at prefix _ none = ok tt

  -- `validate_record` behind the prefix that it prints.
  unfoldable pub validate_at : Text → EnrollmentRecord Value → Result (Unit {0})
  validate_at prefix r = do
    validate_names prefix r
    validate_certified_key prefix r
    validate_renewal_key prefix r
    validate_timestamp (prefix ++ text ".enrolled_at") (enrolled_at r)
    validate_revoked_at prefix (status r) (revoked_at r)

  unfoldable pub validate_record : Text → ℕ → EnrollmentRecord Value → Result (Unit {0})
  unfolding validate_at
  validate_record path index r = validate_at (record_field path index) r

  -- The loop of `validate`, over its three collections.
  unfoldable pub validate_records :
      Text
      → ℕ
      → List Text
      → List (Text × ℕ)
      → List (Text × ℕ)
      → List (EnrollmentRecord Value)
      → Result (Unit {0})
  unfolding no_previous
  validate_records path index identities certified renewal [] = ok tt
  validate_records path index identities certified renewal (r ∷ rs) = do
    validate_record path index r
    refuse (live r && contains_text identities (identity r))
        (validation (record_field path index) (text "duplicate live logical identity"))
    no_previous (record_field path index ++ text ".key_fingerprint")
        (previous (key_fingerprint r) certified)
    no_previous (record_field path index ++ text ".renewal_fingerprint")
        (previous (renewal_fingerprint r) renewal)
    validate_records path (index + 1) (if live r then identity r ∷ identities else identities)
        ((key_fingerprint r, index) ∷ certified) ((renewal_fingerprint r, index) ∷ renewal) rs

  unfoldable pub validate : Text → EnrollmentRegistry Value → Result (Unit {0})
  unfolding validate_records
  validate path self = do
    ensure (self.format_version == format_version_now) (
        validation (path ++ text ":format_version") (text "must be " ++ decimal format_version_now))
    validate_records path 0 [] [] [] self.records
