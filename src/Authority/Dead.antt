-- ===== src/Authority/Dead.antt =====
-- The tests of `ensure_enrollment_keys_not_revoked` of the command line: whether the ledger holds a
-- key of a candidate.
use grafhome_ca.Base.{◌>>◌, Bool, Result, eq_text, text, ◌++◌, ◌||◌, any, refuse, validation}
use grafhome_ca.Policy.Model.{Policy}
use grafhome_ca.Policy.Revoked.{fingerprint}
use grafhome_ca.Policy.Revoked
use grafhome_ca.Registry.Record.{EnrollmentRecord, key_fingerprint, key_kind, identity}
use grafhome_ca.Registry.Record

module _ {V : Type 0} where
  unfoldable pub key_revoked : Policy → EnrollmentRecord V → Bool
  key_revoked policy candidate =
      any (λ e. eq_text (fingerprint e) (key_fingerprint candidate)) policy.revoked_ssh_keys
      || any (λ e. eq_text e.public_key_fingerprint (key_fingerprint candidate))
          policy.revoked_x509_keys

  unfoldable pub renewal_revoked : Policy → EnrollmentRecord V → Bool
  renewal_revoked policy candidate =
      any (λ e. eq_text (Revoked.renewal_fingerprint e) (Record.renewal_fingerprint candidate))
        policy.revoked_ssh_keys
      || any (λ e. eq_text e.renewal_fingerprint (Record.renewal_fingerprint candidate))
          policy.revoked_x509_keys

  -- The two tests, on the policy that was loaded.
  unfoldable pub refuse_revoked : EnrollmentRecord V → Policy → Result (Unit {0})
  unfolding key_revoked renewal_revoked
  refuse_revoked candidate policy = do
    refuse (key_revoked policy candidate) (
        validation (text "enrollment " ++ (key_kind candidate ++ text " public key")) (
          identity candidate
          ++ (text " reuses a previously revoked "
              ++ (key_kind candidate
                  ++ (text " key; generate a new "
                      ++ (key_kind candidate ++ text " key before enrolling"))))))
    refuse (renewal_revoked policy candidate) (
        validation (text "enrollment renewal public key") (
          identity candidate
          ++ text
              " reuses a previously revoked renewal key; generate a new renewal key before enrolling"))
