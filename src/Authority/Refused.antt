-- ===== src/Authority/Refused.antt =====
-- A revocation and an approval after it.
use grafhome_ca.Policy.Revoked.{reason}
use grafhome_ca.Policy.Model.{Policy}
use grafhome_ca.Base.{
  All, Any, Error, List, Option, Result, Result-cases, Text, [], err, inl, inr, ok, refl, some, ◌∷◌,
  ◌≡◌, subst,
}
use grafhome_ca.Authority.Approve.{reserve_approval_record}
use grafhome_ca.Authority.Coverage.{LiveEnrollment}
use grafhome_ca.Authority.Dead.{key_revoked, refuse_revoked}
use grafhome_ca.Authority.FailSafe.{FailsSafe, commit_revocation-FailsSafe}
use grafhome_ca.Authority.Ledger.{ensure_enrollment_keys_not_revoked}
use grafhome_ca.Authority.Machine.{Disk, Machine}
use grafhome_ca.Authority.Revoke.{RevocationOutcome, commit_revocation}
use grafhome_ca.Authority.Site.{Site}
use grafhome_ca.Authority.Tombstones.{Dead}
use grafhome_ca.External.{External}
use grafhome_ca.Registry.Record.{EnrollmentRecord, key_fingerprint}
use grafhome_ca.Registry.Store.{EnrollmentRegistry}

module _ {V : Type 0} where
  Dead-shared :
      (policy : Policy) (r candidate : EnrollmentRecord V)
      → key_fingerprint r ≡ key_fingerprint candidate
      → Dead policy r
      → Dead policy candidate
  unfolding key_revoked
  Dead-shared policy r candidate e h = rw e at h

  Dead-Any :
      (policy : Policy) (candidate : EnrollmentRecord V) (rs : List (EnrollmentRecord V))
      → All (Dead policy) rs
      → Any (λ r. key_fingerprint r ≡ key_fingerprint candidate) rs
      → Dead policy candidate
  Dead-Any policy candidate [] h k = elim k [ ]
  Dead-Any policy candidate (r ∷ rs) (h, hs) (inl e) = Dead-shared policy r candidate e h
  Dead-Any policy candidate (r ∷ rs) (h, hs) (inr k) = Dead-Any policy candidate rs hs k

  refuse_revoked-err :
      (policy : Policy) (candidate : EnrollmentRecord V)
      → Dead policy candidate
      → (e : Error) × (refuse_revoked candidate policy ≡ err e)
  unfolding refuse_revoked
  refuse_revoked-err policy candidate h = elim (Result-cases (refuse_revoked candidate policy)) [
    | inl k ↦ cc (rw (h, refuse_revoked) at k)
    | inr found ↦ found
  ]

  refused :
      (machine : Machine) (candidate : EnrollmentRecord V) (disk : Disk V)
      → Dead disk.policy candidate
      → (e : Error) × (ensure_enrollment_keys_not_revoked machine candidate disk
          ≡ (some (err e), disk))
  unfolding ensure_enrollment_keys_not_revoked
  refused machine candidate disk h = elim (Result-cases machine.read_policy) [
    | inl k ↦
        let (e, known) = refuse_revoked-err disk.policy candidate h in
        (e, rw (k, known, ensure_enrollment_keys_not_revoked) refl)
    | inr (e, k) ↦ (e, rw (k, ensure_enrollment_keys_not_revoked) refl)
  ]

module _ (x : External) (site : Site x.Value) where
  open x use {Value}

  unreserved :
      (later : Machine) (registry : EnrollmentRegistry Value) (candidate : EnrollmentRecord Value)
      (provisioner : Text) (disk : Disk Value)
      → Dead disk.policy candidate
      → (e : Error) × (reserve_approval_record x later site registry candidate provisioner disk
          ≡ (some (err e), disk))
  unfolding reserve_approval_record
  unreserved later registry candidate provisioner disk h =
      let (e, k) = refused later candidate disk h in (e, rw k refl)

  -- After a revocation that succeeds, the approval of a candidate with the certified key of a
  -- selected record is refused, whatever the machine answers, and changes nothing.
  pub reserve_approval_record-commit_revocation :
      (machine later : Machine) (registry kept : EnrollmentRegistry Value)
      (selected : List (EnrollmentRecord Value)) (live_enrollments : List (LiveEnrollment Value))
      (reason : Option Text) (remove : Value → Result (Value × List Text))
      (before after : Disk Value) (outcome : RevocationOutcome) (candidate : EnrollmentRecord Value)
      (provisioner : Text)
      → commit_revocation x machine site registry selected live_enrollments reason remove before
        ≡ (some (ok outcome), after)
      → Any (λ r. key_fingerprint r ≡ key_fingerprint candidate) selected
      → (e : Error) × (reserve_approval_record x later site kept candidate provisioner after
          ≡ (some (err e), after))
  reserve_approval_record-commit_revocation machine later registry kept selected live_enrollments
        reason remove before after outcome candidate provisioner h k =
      let safe =
        commit_revocation-FailsSafe x machine site registry selected reason live_enrollments remove
          before in
      let dead : All (Dead after.policy) selected =
        subst (FailsSafe {A = RevocationOutcome} selected before) h safe in
      unreserved later kept candidate provisioner after
        (Dead-Any after.policy candidate selected dead k)
