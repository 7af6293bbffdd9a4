-- ===== src/Registry/Record.antt =====
-- `EnrollmentRecord` of enrollment_registry.rs, with its accessors. `V` is `serde_json::Value`.
use grafhome_ca.Base.{Bool, true, false, ◌&&◌, Option, none, some, ◌++◌, Text, text, eq_text}
use grafhome_ca.Names.{x509_identity}
use grafhome_ca.Policy.Revoked.{RevokedSshKey, RevokedX509Key}

pub data RecordStatus : Type 0 where
  pending active revoked : RecordStatus

-- `status != RecordStatus::Revoked`
abbrev pub is_live : RecordStatus → Bool
is_live revoked = false
is_live _ = true

abbrev pub is_active : RecordStatus → Bool
is_active active = true
is_active _ = false

pub data Revocation : Type 0 where
  ssh : RevokedSshKey → Revocation
  x509_key : RevokedX509Key → Revocation

pub data EnrollmentRecord (V : Type 0) : Type 0 where
  -- status, host, ssh_public_key, ssh_fingerprint, renewal_public_jwk, renewal_fingerprint,
  -- enrolled_at, revoked_at
  host : RecordStatus → Text → Text → Text → V → Text → Text → Option Text → EnrollmentRecord V
  -- status, user, client_host, then as above
  user :
      RecordStatus → Text → Text → Text → Text → V → Text → Text → Option Text → EnrollmentRecord V
  -- status, host, name, certificate_public_key, certificate_fingerprint, then as above
  x509 :
      RecordStatus → Text → Text → Text → Text → V → Text → Text → Option Text → EnrollmentRecord V

-- `expected.is_none_or(|e| s == e)`
abbrev none_or_eq : Option Text → Text → Bool
none_or_eq none s = true
none_or_eq (some e) s = eq_text s e

module _ {V : Type 0} where
  unfoldable pub identity : EnrollmentRecord V → Text
  identity (host st h key fp jwk rfp at rev) = text "host " ++ h
  identity (user st u h key fp jwk rfp at rev) = text "user " ++ (u ++ (text "@" ++ h))
  identity (x509 st h n key fp jwk rfp at rev) = x509_identity h n

  unfoldable pub status : EnrollmentRecord V → RecordStatus
  status (host st h key fp jwk rfp at rev) = st
  status (user st u h key fp jwk rfp at rev) = st
  status (x509 st h n key fp jwk rfp at rev) = st

  unfoldable pub ssh_public_key : EnrollmentRecord V → Option Text
  ssh_public_key (host st h key fp jwk rfp at rev) = some key
  ssh_public_key (user st u h key fp jwk rfp at rev) = some key
  ssh_public_key (x509 st h n key fp jwk rfp at rev) = none

  unfoldable pub key_fingerprint : EnrollmentRecord V → Text
  key_fingerprint (host st h key fp jwk rfp at rev) = fp
  key_fingerprint (user st u h key fp jwk rfp at rev) = fp
  key_fingerprint (x509 st h n key fp jwk rfp at rev) = fp

  unfoldable pub key_kind : EnrollmentRecord V → Text
  key_kind (host st h key fp jwk rfp at rev) = text "SSH"
  key_kind (user st u h key fp jwk rfp at rev) = text "SSH"
  key_kind (x509 st h n key fp jwk rfp at rev) = text "certificate"

  unfoldable pub renewal_public_jwk : EnrollmentRecord V → V
  renewal_public_jwk (host st h key fp jwk rfp at rev) = jwk
  renewal_public_jwk (user st u h key fp jwk rfp at rev) = jwk
  renewal_public_jwk (x509 st h n key fp jwk rfp at rev) = jwk

  unfoldable pub renewal_fingerprint : EnrollmentRecord V → Text
  renewal_fingerprint (host st h key fp jwk rfp at rev) = rfp
  renewal_fingerprint (user st u h key fp jwk rfp at rev) = rfp
  renewal_fingerprint (x509 st h n key fp jwk rfp at rev) = rfp

  -- The two times that `validate_record` matches out.
  unfoldable pub enrolled_at : EnrollmentRecord V → Text
  enrolled_at (host st h key fp jwk rfp at rev) = at
  enrolled_at (user st u h key fp jwk rfp at rev) = at
  enrolled_at (x509 st h n key fp jwk rfp at rev) = at

  unfoldable pub revoked_at : EnrollmentRecord V → Option Text
  revoked_at (host st h key fp jwk rfp at rev) = rev
  revoked_at (user st u h key fp jwk rfp at rev) = rev
  revoked_at (x509 st h n key fp jwk rfp at rev) = rev

  unfoldable pub belongs_to_host : EnrollmentRecord V → Text → Bool
  belongs_to_host (host st h key fp jwk rfp at rev) expected = eq_text h expected
  belongs_to_host (user st u h key fp jwk rfp at rev) expected = eq_text h expected
  belongs_to_host (x509 st h n key fp jwk rfp at rev) expected = eq_text h expected

  unfoldable pub matches_user : EnrollmentRecord V → Text → Option Text → Bool
  matches_user (user st u h key fp jwk rfp at rev) expected_user expected_host =
      eq_text u expected_user && none_or_eq expected_host h
  matches_user _ expected_user expected_host = false

  unfoldable pub matches_x509 : EnrollmentRecord V → Text → Text → Bool
  matches_x509 (x509 st h n key fp jwk rfp at rev) expected_host expected_name =
      eq_text h expected_host && eq_text n expected_name
  matches_x509 _ expected_host expected_name = false

  unfoldable pub to_revocation : EnrollmentRecord V → Text → Option Text → Revocation
  to_revocation (host st h key fp jwk rfp at rev) now why =
      ssh (RevokedSshKey.host h key fp rfp now why)
  to_revocation (user st u h key fp jwk rfp at rev) now why =
      ssh (RevokedSshKey.user u h key fp rfp now why)
  to_revocation (x509 st h n key fp jwk rfp at rev) now why = x509_key (record {
    host = h;
    name = n;
    public_key_fingerprint = fp;
    renewal_fingerprint = rfp;
    revoked_at = now;
    reason = why;
  })

  unfoldable pub same_identity : EnrollmentRecord V → EnrollmentRecord V → Bool
  same_identity (host st h key fp jwk rfp at rev) (host st' h' key' fp' jwk' rfp' at' rev') =
      eq_text h h'
  same_identity (user st u h key fp jwk rfp at rev) (user st' u' h' key' fp' jwk' rfp' at' rev') =
      eq_text u u' && eq_text h h'
  same_identity (x509 st h n key fp jwk rfp at rev) (x509 st' h' n' key' fp' jwk' rfp' at' rev') =
      eq_text h h' && eq_text n n'
  same_identity _ _ = false

  unfoldable pub same_keys : EnrollmentRecord V → EnrollmentRecord V → Bool
  unfolding key_fingerprint renewal_fingerprint
  same_keys r s =
      eq_text (key_fingerprint r) (key_fingerprint s)
      && eq_text (renewal_fingerprint r) (renewal_fingerprint s)

  unfoldable pub set_status : EnrollmentRecord V → RecordStatus → Option Text → EnrollmentRecord V
  set_status (host st h key fp jwk rfp at rev) st' rev' = host st' h key fp jwk rfp at rev'
  set_status (user st u h key fp jwk rfp at rev) st' rev' = user st' u h key fp jwk rfp at rev'
  set_status (x509 st h n key fp jwk rfp at rev) st' rev' = x509 st' h n key fp jwk rfp at rev'
