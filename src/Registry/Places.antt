-- ===== src/Registry/Places.antt =====
-- The place that a message names does not decide whether a record is valid.
use grafhome_ca.Identity.{validate_host_name, validate_user_name}
use grafhome_ca.Registry.Pending.{
  validate_at, validate_certified_key, validate_names, validate_renewal_key, validate_revoked_at,
  validate_timestamp,
}
use grafhome_ca.External.{External}
use grafhome_ca.Registry.Record.{
  EnrollmentRecord, RecordStatus, active, enrolled_at, pending, revoked, status, host, revoked_at,
}
use grafhome_ca.Base.{◌≡◌, >>-eq-ok, Option, Text, arith, none, ok, refl, some, >>-ok}

module _ (x : External) where
  open x use {Value}

  pub timestamp_anywhere :
      (p q t : Text) → validate_timestamp x p t ≡ ok tt → validate_timestamp x q t ≡ ok tt
  unfolding validate_timestamp
  timestamp_anywhere p q t h = ground arith

  revoked_at_anywhere :
      (p q : Text) (st : RecordStatus) (at : Option Text)
      → validate_revoked_at x p st at ≡ ok tt
      → validate_revoked_at x q st at ≡ ok tt
  unfolding validate_revoked_at
  revoked_at_anywhere p q revoked (some t) h = timestamp_anywhere _ _ t h
  revoked_at_anywhere p q revoked none h = cc
  revoked_at_anywhere p q pending (some t) h = cc
  revoked_at_anywhere p q pending none h = refl
  revoked_at_anywhere p q active (some t) h = cc
  revoked_at_anywhere p q active none h = refl

  names_anywhere :
      (p q : Text) (r : EnrollmentRecord Value)
      → validate_names x p r ≡ ok tt
      → validate_names x q r ≡ ok tt
  unfolding validate_names validate_host_name validate_user_name
  names_anywhere p q (host _ _ _ _ _ _ _ _) h = ground arith
  names_anywhere p q _ h = ground arith

  certified_anywhere :
      (p q : Text) (r : EnrollmentRecord Value)
      → validate_certified_key x p r ≡ ok tt
      → validate_certified_key x q r ≡ ok tt
  unfolding validate_certified_key
  certified_anywhere p q (host _ _ key _ _ _ _ _) h = ground arith
  certified_anywhere p q _ h = ground arith

  renewal_anywhere :
      (p q : Text) (r : EnrollmentRecord Value)
      → validate_renewal_key x p r ≡ ok tt
      → validate_renewal_key x q r ≡ ok tt
  unfolding validate_renewal_key
  renewal_anywhere p q r h = ground arith

  pub validate_anywhere :
      (p q : Text) (r : EnrollmentRecord Value)
      → validate_at x p r ≡ ok tt
      → validate_at x q r ≡ ok tt
  unfolding validate_at
  validate_anywhere p q r h =
      let (h1, k1) = >>-eq-ok (validate_names x p r) _ h in
      let (h2, k2) = >>-eq-ok (validate_certified_key x p r) _ k1 in
      let (h3, k3) = >>-eq-ok (validate_renewal_key x p r) _ k2 in
      let (h4, h5) = >>-eq-ok (validate_timestamp x _ (enrolled_at r)) _ k3 in
      >>-ok (validate_names x q r) _ (names_anywhere p q r h1) (
        >>-ok (validate_certified_key x q r) _ (certified_anywhere p q r h2) (
          >>-ok (validate_renewal_key x q r) _ (renewal_anywhere p q r h3) (
            >>-ok (validate_timestamp x _ (enrolled_at r)) _
              (timestamp_anywhere _ _ (enrolled_at r) h4)
              (revoked_at_anywhere p q (status r) (revoked_at r) h5))))
