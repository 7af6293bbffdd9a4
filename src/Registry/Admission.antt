-- ===== src/Registry/Admission.antt =====
-- Which candidates `check_candidate` lets in, and that the keys of a tombstone stay out for good.
use grafhome_ca.Base.{
  refl, ◌≡◌, ◌↔◌, true, false, none, List, [], ◌∷◌, arith, ok, Option-cases, inl, inr, All, ◌⊎◌,
  All-map, eq_text_iff,
}
use grafhome_ca.Registry.Record.{
  EnrollmentRecord, same_keys, RecordStatus, is_live, pending, active, revoked, status, host, user,
  x509, key_fingerprint, renewal_fingerprint, same_identity,
}
use grafhome_ca.Registry.Store.{
  EnrollmentRegistry, live, shares_key, objection, check_records, check_candidate, live_match,
}

is_live_iff : (st : RecordStatus) → (is_live st ≡ true) ↔ (¬ (st ≡ revoked))
is_live_iff pending = (λ _ e. cc, λ _. refl)
is_live_iff active = (λ _ e. cc, λ _. refl)
is_live_iff revoked = (λ e. cc, λ h. absurd (h refl))

module _ {V : Type 0} where
  -- When a candidate may stand beside a record: either the record is a live one of the same
  -- identity with the very same keys, or it is not such a one and has neither key.
  abbrev pub Compatible : EnrollmentRecord V → EnrollmentRecord V → Type 0
  Compatible c r =
      ((live_match c r ≡ true) × (same_keys r c ≡ true))
      ⊎ ((live_match c r ≡ false) × (shares_key c r ≡ false))

  objection_iff : (c r : EnrollmentRecord V) → (objection c r ≡ none) ↔ Compatible c r
  unfolding objection live_match
  objection_iff c r = ground arith

  check_records_iff :
      (c : EnrollmentRecord V) (rs : List (EnrollmentRecord V))
      → (check_records c rs ≡ ok tt) ↔ All (Compatible c) rs
  unfolding check_records
  check_records_iff c [] = ground arith
  check_records_iff c (r ∷ rs) =
      let (to, from) = objection_iff c r in
      let (to', from') = check_records_iff c rs in
      (
        λ h. elim (Option-cases (objection c r)) [
          | inl e ↦ (to e, to' (rw (e, check_records) at h))
          | inr (m, e) ↦ cc (rw (e, check_records) at h)
        ],
        λ (p, q). rw (from p, check_records) (from' q),
      )

  pub check_candidate-Compatible :
      (self : EnrollmentRegistry V) (c : EnrollmentRecord V)
      → (check_candidate self c ≡ ok tt) ↔ All (Compatible c) self.records
  unfolding check_candidate
  check_candidate-Compatible self c = check_records_iff c self.records

  -- The record has been revoked.
  abbrev pub IsRevoked : EnrollmentRecord V → Type 0
  IsRevoked r = status r ≡ revoked

  -- Both are enrollments of the same host, of the same user on the same host, or of the same
  -- certificate on the same host.
  abbrev pub SameIdentity : EnrollmentRecord V → EnrollmentRecord V → Type 0
  SameIdentity (host _ h _ _ _ _ _ _) (host _ h' _ _ _ _ _ _) = h ≡ h'
  SameIdentity (user _ u h _ _ _ _ _ _) (user _ u' h' _ _ _ _ _ _) = (u ≡ u') × (h ≡ h')
  SameIdentity (x509 _ h n _ _ _ _ _ _) (x509 _ h' n' _ _ _ _ _ _) = (h ≡ h') × (n ≡ n')
  SameIdentity _ _ = ⊥

  abbrev pub SameCertified : EnrollmentRecord V → EnrollmentRecord V → Type 0
  SameCertified r c = key_fingerprint r ≡ key_fingerprint c

  abbrev pub SameRenewal : EnrollmentRecord V → EnrollmentRecord V → Type 0
  SameRenewal r c = renewal_fingerprint r ≡ renewal_fingerprint c

  -- The record is a live one of the same identity.
  abbrev pub IsPeer : EnrollmentRecord V → EnrollmentRecord V → Type 0
  IsPeer c r = (¬ IsRevoked r) × SameIdentity r c

  abbrev pub Admits : EnrollmentRecord V → EnrollmentRecord V → Type 0
  Admits c r =
      (IsPeer c r × SameCertified r c × SameRenewal r c)
      ⊎ ((¬ IsPeer c r) × (¬ SameCertified r c) × (¬ SameRenewal r c))

  same_identity_iff : (r c : EnrollmentRecord V) → (same_identity r c ≡ true) ↔ SameIdentity r c
  unfolding same_identity
  same_identity_iff (host _ h _ _ _ _ _ _) (host _ h' _ _ _ _ _ _) = eq_text_iff h h'
  same_identity_iff (user _ u h _ _ _ _ _ _) (user _ u' h' _ _ _ _ _ _) =
      ground (arith, eq_text_iff u u', eq_text_iff h h')
  same_identity_iff (x509 _ h n _ _ _ _ _ _) (x509 _ h' n' _ _ _ _ _ _) =
      ground (arith, eq_text_iff h h', eq_text_iff n n')
  same_identity_iff _ _ = (λ h. cc, λ h. absurd h)

  live_iff : (r : EnrollmentRecord V) → (live r ≡ true) ↔ ¬ IsRevoked r
  unfolding live
  live_iff r = is_live_iff (status r)

  Compatible-Admits : (c r : EnrollmentRecord V) → Compatible c r ↔ Admits c r
  unfolding live_match same_keys shares_key
  Compatible-Admits c r =
      let a = live_iff r in
      let b = same_identity_iff r c in
      let k = eq_text_iff (key_fingerprint r) (key_fingerprint c) in
      let n = eq_text_iff (renewal_fingerprint r) (renewal_fingerprint c) in
      ground (arith, a, b, k, n)

  -- A candidate passes the check exactly if each record is one that is not revoked, of the same
  -- identity and with the same two fingerprints, or is revoked or of another identity and has
  -- neither of the two fingerprints.
  pub check_candidate_iff :
      (self : EnrollmentRegistry V) (c : EnrollmentRecord V)
      → (check_candidate self c ≡ ok tt) ↔ All (Admits c) self.records
  check_candidate_iff self c =
      let (to, from) = check_candidate-Compatible self c in
      (
        λ h. All-map (λ r. (Compatible-Admits c r).0) self.records (to h),
        λ h. from (All-map (λ r. (Compatible-Admits c r).1) self.records h),
      )
