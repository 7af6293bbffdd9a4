-- ===== src/Registry/Tests.antt =====
-- The theorems on the registry at concrete registries.
use grafhome_ca.Registry.Revoking.{revoked_keys_stay_out}
use grafhome_ca.Registry.Tombstones.{Reach-Grows, marked, tombstone_permanent, here, next}
use grafhome_ca.Registry.Evolution.{Grows}
use grafhome_ca.Registry.Store.{
  EnrollmentRegistry, activate, check_candidate, live, mark_revoked, reserve, selected_pair,
}
use grafhome_ca.Registry.Record.{
  EnrollmentRecord, active, key_fingerprint, pending, renewal_fingerprint, revoked, same_keys,
  status, host,
}
use grafhome_ca.Registry.Admission.{Admits, check_candidate_iff}
use grafhome_ca.Base.{
  ◌≡◌, All, List, [], eq_text, false, inl, is_ok, none, ok, refl, some, ◌↔◌, ◌∷◌,
}

abbrev laptop : EnrollmentRecord (Unit {0})
laptop = host active (b'l' ∷ []) (b'k' ∷ []) (b'f' ∷ []) tt (b'r' ∷ []) (b'0' ∷ []) none

abbrev replacement : EnrollmentRecord (Unit {0})
replacement = host pending (b'l' ∷ []) (b'k' ∷ []) (b'f' ∷ []) tt (b's' ∷ []) (b'1' ∷ []) none

abbrev before : EnrollmentRegistry (Unit {0})
before = record { format_version = 1; records = laptop ∷ [] }

abbrev selected : List (EnrollmentRecord (Unit {0}))
selected = laptop ∷ []

abbrev after : EnrollmentRegistry (Unit {0})
after = record {
  format_version = 1;
  records =
      host revoked (b'l' ∷ []) (b'k' ∷ []) (b'f' ∷ []) tt (b'r' ∷ []) (b'0' ∷ []) (some (b'2' ∷ []))
      ∷ [];
}

revoked_keys_stay_out_example :
    (is_ok (reserve (mark_revoked before selected (b'2' ∷ [])).1 replacement) ≡ false)
    × (is_ok (activate (mark_revoked before selected (b'2' ∷ [])).1 replacement) ≡ false)
unfolding selected_pair same_keys eq_text key_fingerprint renewal_fingerprint
revoked_keys_stay_out_example =
    revoked_keys_stay_out before (mark_revoked before selected (b'2' ∷ [])).1 selected (b'2' ∷ [])
      (b'f' ∷ []) (b'r' ∷ []) replacement (inl (refl, refl, refl)) here (inl refl)

tombstone_permanent_example :
    (is_ok (reserve after replacement) ≡ false) × (is_ok (activate after replacement) ≡ false)
unfolding live status key_fingerprint renewal_fingerprint
tombstone_permanent_example =
    tombstone_permanent after after (b'f' ∷ []) (b'r' ∷ []) replacement (inl (refl, refl, refl))
      here (inl refl)

Reach-Grows_example : Grows before.records (mark_revoked before selected (b'2' ∷ [])).1.records
Reach-Grows_example =
    Reach-Grows before (mark_revoked before selected (b'2' ∷ [])).1
      (next here (marked selected (b'2' ∷ []) refl))

check_candidate_iff_example :
    (check_candidate before replacement ≡ ok tt) ↔ All (Admits replacement) before.records
check_candidate_iff_example = check_candidate_iff before replacement
