-- ===== src/Registry/Revoking.antt =====
-- What `mark_revoked` does: every selected key pair becomes a tombstone, and only those do.
use grafhome_ca.Base.{
  ◌≡◌, refl, Bool, true, false, ◌&&◌, Option, some, List, [], ◌∷◌, arith, filter, length, Text,
  eq_text_refl, is_ok, Bool-cases, inl, inr, Any, All, All-map, ◌∙◌,
}
use grafhome_ca.Registry.Record.{
  RecordStatus, revoked, EnrollmentRecord, host, key_fingerprint, renewal_fingerprint, same_keys,
  set_status, belongs_to_host,
}
use grafhome_ca.Registry.Store.{
  EnrollmentRegistry, live, selected_pair, reserve, activate, revoke_step, revoke_records,
  mark_revoked, live_for_host,
}
use grafhome_ca.Registry.Evolution.{revoke_step-Evolves, status-set_status}
use grafhome_ca.Registry.Tombstones.{IsTombstone, HasKey, Reach, tombstone_permanent}

module _ {V : Type 0} where
  same_keys_refl : (r : EnrollmentRecord V) → same_keys r r ≡ true
  unfolding same_keys
  same_keys_refl r = simp eq_text_refl

  live-set_revoked :
      (r : EnrollmentRecord V) (now : Text) → live (set_status r revoked (some now)) ≡ false
  unfolding live
  live-set_revoked r now = rw (status-set_status r revoked (some now))

  belongs-set_status :
      (r : EnrollmentRecord V) (st : RecordStatus) (at : Option Text) (h : Text)
      → belongs_to_host (set_status r st at) h ≡ belongs_to_host r h
  unfolding belongs_to_host set_status
  belongs-set_status (host _ _ _ _ _ _ _ _) st at h = refl
  belongs-set_status _ st at h = refl

  module _ (selected : List (EnrollmentRecord V)) (now : Text) where
    revoke_step-dead :
        (r : EnrollmentRecord V)
        → selected_pair selected r ≡ true
        → live (revoke_step selected now r) ≡ false
    unfolding revoke_step
    revoke_step-dead r h = elim (Bool-cases (live r)) [
      | inl e ↦ rw (e, h) (live-set_revoked r now)
      | inr e ↦ rw e e
    ]

    revoke_step-kept :
        (r : EnrollmentRecord V) → selected_pair selected r ≡ false → revoke_step selected now r ≡ r
    unfolding revoke_step
    revoke_step-kept r h = ground arith

    revoke_records-IsTombstone :
        (fp rfp : Text) (rs : List (EnrollmentRecord V))
        → Any
            (λ r.
              (selected_pair selected r ≡ true)
              × (key_fingerprint r ≡ fp)
              × (renewal_fingerprint r ≡ rfp))
            rs
        → Any (IsTombstone fp rfp) (revoke_records selected now rs).1
    unfolding revoke_records
    revoke_records-IsTombstone fp rfp [] h = absurd h
    revoke_records-IsTombstone fp rfp (r ∷ rs) (inl (h, k, n)) = inl (
      revoke_step-dead r h,
      (revoke_step-Evolves selected now r).key ∙ k,
      (revoke_step-Evolves selected now r).renewal ∙ n,
    )
    revoke_records-IsTombstone fp rfp (r ∷ rs) (inr h) =
        inr (revoke_records-IsTombstone fp rfp rs h)

    -- The count is that of the live selected records.
    revoke_records-count :
        (rs : List (EnrollmentRecord V))
        → (revoke_records selected now rs).0
          ≡ length (filter (λ r. live r && selected_pair selected r) rs)
    unfolding revoke_records
    revoke_records-count [] = refl
    revoke_records-count (r ∷ rs) = ground (arith, revoke_records-count rs)

  -- A key pair that `mark_revoked` selects is never again accepted: whatever operations follow, no
  -- candidate with either of its keys is reserved or activated.
  pub revoked_keys_stay_out :
      (s t : EnrollmentRegistry V) (selected : List (EnrollmentRecord V)) (now fp rfp : Text)
      (c : EnrollmentRecord V)
      → Any
          (λ r.
            (selected_pair selected r ≡ true)
            × (key_fingerprint r ≡ fp)
            × (renewal_fingerprint r ≡ rfp))
          s.records
      → Reach (mark_revoked s selected now).1 t
      → HasKey fp rfp c
      → (is_ok (reserve t c) ≡ false) × (is_ok (activate t c) ≡ false)
  unfolding mark_revoked
  revoked_keys_stay_out s t selected now fp rfp c h r k =
      tombstone_permanent (mark_revoked s selected now).1 t fp rfp c
        (revoke_records-IsTombstone selected now fp rfp s.records h) r k

  selected-cons :
      (p : EnrollmentRecord V → Bool) (r a : EnrollmentRecord V) (rs : List (EnrollmentRecord V))
      → selected_pair (filter p rs) a ≡ true
      → selected_pair (filter p (r ∷ rs)) a ≡ true
  unfolding selected_pair
  selected-cons p r a rs h = ground arith

  -- Each record that a test picks is selected by the records that the test picks.
  picked :
      (p : EnrollmentRecord V → Bool) (rs : List (EnrollmentRecord V))
      → All (λ r. p r ≡ true → selected_pair (filter p rs) r ≡ true) rs
  unfolding selected_pair
  picked p [] = tt
  picked p (r ∷ rs) = (
    λ e. ground (arith, same_keys_refl r),
    All-map (λ a f e. selected-cons p r a rs (f e)) rs (picked p rs),
  )

  module _ (selected : List (EnrollmentRecord V)) (now h : Text) where
    not_picked :
        (r : EnrollmentRecord V)
        → ((live r && belongs_to_host r h) ≡ true → selected_pair selected r ≡ true)
        → selected_pair selected r ≡ false
        → (live r && belongs_to_host r h) ≡ false
    not_picked r f e = elim (Bool-cases (live r && belongs_to_host r h)) [
      | inl k ↦ cc (f k, e)
      | inr k ↦ k
    ]

    step_gone :
        (r : EnrollmentRecord V)
        → ((live r && belongs_to_host r h) ≡ true → selected_pair selected r ≡ true)
        → (live (revoke_step selected now r) && belongs_to_host (revoke_step selected now r) h)
          ≡ false
    step_gone r f = elim (Bool-cases (selected_pair selected r)) [
      | inl e ↦ rw (revoke_step-dead selected now r e)
      | inr e ↦ rw (revoke_step-kept selected now r e) (not_picked r f e)
    ]

    none_left :
        (rs : List (EnrollmentRecord V))
        → All (λ r. (live r && belongs_to_host r h) ≡ true → selected_pair selected r ≡ true) rs
        → filter (λ r. live r && belongs_to_host r h) (revoke_records selected now rs).1 ≡ []
    unfolding revoke_records
    none_left [] a = refl
    none_left (r ∷ rs) (f, a) = rw (step_gone r f) (none_left rs a)

  -- Revoking the live records of a host leaves no live record of the host.
  pub live_for_host-mark_revoked :
      (self : EnrollmentRegistry V) (h now : Text)
      → live_for_host (mark_revoked self (live_for_host self h) now).1 h ≡ []
  unfolding live_for_host mark_revoked
  live_for_host-mark_revoked self h now =
      none_left (live_for_host self h) now h self.records
        (picked (λ r. live r && belongs_to_host r h) self.records)

  -- The number that `mark_revoked` returns is that of the records that were live and selected.
  pub mark_revoked_count :
      (self : EnrollmentRegistry V) (selected : List (EnrollmentRecord V)) (now : Text)
      → (mark_revoked self selected now).0
        ≡ length (filter (λ r. live r && selected_pair selected r) self.records)
  unfolding mark_revoked
  mark_revoked_count self selected now = revoke_records-count selected now self.records
