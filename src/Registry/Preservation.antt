-- ===== src/Registry/Preservation.antt =====
-- What the operations of the registry keep: the differences between its records, and that each
-- record is valid.
use grafhome_ca.Base.{
  suc, ◌≡◌, refl, ap, ◌∙◌, Bool, true, false, ◌&&◌, Option, none, some, List, [], ◌∷◌, arith, Text,
  length, All, Pairwise, ok, >>-eq-ok, Bool-cases, Option-cases, inl, inr,
}
use grafhome_ca.External.{External}
use grafhome_ca.Registry.Record.{
  RecordStatus, active, revoked, EnrollmentRecord, host, set_status, status, key_fingerprint,
  renewal_fingerprint, renewal_public_jwk, enrolled_at, revoked_at, is_active,
}
use grafhome_ca.Registry.Store.{
  live, live_match, activate_first, revoke_records, revoke_step, selected_pair,
}
use grafhome_ca.Registry.Pending.{
  validate_at, validate_names, validate_certified_key, validate_renewal_key, validate_timestamp,
  validate_revoked_at,
}
use grafhome_ca.Registry.Consistency.{Apart, IsValid}
use grafhome_ca.Registry.Evolution.{Evolves, Grows, activate_first_cases}

module _ {V : Type 0} where
  Apart-Evolves :
      (r s r' s' : EnrollmentRecord V) → Evolves r r' → Evolves s s' → Apart r s → Apart r' s'
  Apart-Evolves r s r' s' f g a = record {
    keys = λ e. a.keys (cc (e, f.key, g.key));
    renewals = λ e. a.renewals (cc (e, f.renewal, g.renewal));
    identities = λ l m e.
        a.identities (was_live r r' f l) (was_live s s' g m) (cc (e, f.logical, g.logical));
  }
    where
      was_live : (p p' : EnrollmentRecord V) → Evolves p p' → live p' ≡ true → live p ≡ true
      was_live p p' h l = elim (Bool-cases (live p)) [ inl k ↦ k | inr k ↦ cc (rw (h.dead k) at l) ]

  All-Apart-Grows :
      (r r' : EnrollmentRecord V) (rs ss : List (EnrollmentRecord V))
      → Evolves r r'
      → Grows rs ss
      → length ss ≡ length rs
      → All (Apart r) rs
      → All (Apart r') ss
  All-Apart-Grows r r' [] [] f g n a = tt
  All-Apart-Grows r r' [] (s ∷ ss) f g n a = absurd (omega arith)
  All-Apart-Grows r r' (s ∷ rs) [] f g n a = absurd g
  All-Apart-Grows r r' (s ∷ rs) (s' ∷ ss) f (p, g) n (h, a) =
      (Apart-Evolves r s r' s' f p h, All-Apart-Grows r r' rs ss f g (omega arith) a)

  pub Pairwise-Grows :
      (rs ss : List (EnrollmentRecord V))
      → Grows rs ss
      → length ss ≡ length rs
      → Pairwise Apart rs
      → Pairwise Apart ss
  Pairwise-Grows [] [] g n a = tt
  Pairwise-Grows [] (s ∷ ss) g n a = absurd (omega arith)
  Pairwise-Grows (r ∷ rs) [] g n a = absurd g
  Pairwise-Grows (r ∷ rs) (s ∷ ss) (p, g) n (h, a) =
      (All-Apart-Grows r s rs ss p g (omega arith) h, Pairwise-Grows rs ss g (omega arith) a)

  pub length-activate_first :
      (c : EnrollmentRecord V) (rs ss : List (EnrollmentRecord V)) (b : Bool)
      → activate_first c rs ≡ some (b, ss)
      → length ss ≡ length rs
  unfolding activate_first
  length-activate_first c [] ss b h = cc
  length-activate_first c (r ∷ rs) ss b h = elim (activate_first_cases c r rs ss b h) [
    | inl (_, e) ↦ ap length e
    | inr (inl (_, e)) ↦ ap length e
    | inr (inr (rest, _, k, e)) ↦ ap length e ∙ ap suc (length-activate_first c rs rest b k)
  ]

  pub length-revoke_records :
      (selected : List (EnrollmentRecord V)) (now : Text) (rs : List (EnrollmentRecord V))
      → length (revoke_records selected now rs).1 ≡ length rs
  unfolding revoke_records
  length-revoke_records selected now [] = refl
  length-revoke_records selected now (r ∷ rs) = ap suc (length-revoke_records selected now rs)

  pub activate_first-none :
      (c : EnrollmentRecord V) (rs : List (EnrollmentRecord V))
      → activate_first c rs ≡ none
      → All (λ r. live_match c r ≡ false) rs
  unfolding activate_first
  activate_first-none c [] h = tt
  activate_first-none c (r ∷ rs) h = elim (Bool-cases (live_match c r)) [
    | inl e ↦ elim (Bool-cases (is_active (status r))) [
      | inl a ↦ cc (rw (e, a, activate_first) at h)
      | inr a ↦ cc (rw (e, a, activate_first) at h)
    ]
    | inr e ↦ elim (Option-cases (activate_first c rs)) [
      | inl k ↦ (e, activate_first-none c rs k)
      | inr ((b, ss), k) ↦ cc (rw (e, k, activate_first) at h)
    ]
  ]

module _ (x : External) where
  open x use {Value}

  -- What a new status leaves alone, and what it sets.
  parts-set_status :
      (r : EnrollmentRecord Value) (st : RecordStatus) (at : Option Text)
      → (validate_names x [] (set_status r st at) ≡ validate_names x [] r)
        × (validate_certified_key x [] (set_status r st at) ≡ validate_certified_key x [] r)
        × (validate_renewal_key x [] (set_status r st at) ≡ validate_renewal_key x [] r)
        × (enrolled_at (set_status r st at) ≡ enrolled_at r)
        × (status (set_status r st at) ≡ st)
        × (revoked_at (set_status r st at) ≡ at)
  unfolding set_status validate_names validate_certified_key validate_renewal_key enrolled_at status
      revoked_at renewal_public_jwk renewal_fingerprint key_fingerprint
  parts-set_status (host _ _ _ _ _ _ _ _) st at = (refl, refl, refl, refl, refl, refl)
  parts-set_status _ st at = (refl, refl, refl, refl, refl, refl)

  -- A new status leaves a record valid if its revocation time fits the status.
  IsValid-set_status :
      (r : EnrollmentRecord Value) (st : RecordStatus) (at : Option Text)
      → validate_revoked_at x [] st at ≡ ok tt
      → IsValid x r
      → IsValid x (set_status r st at)
  unfolding validate_at
  IsValid-set_status r st at k v =
      let (n, v1) = >>-eq-ok (validate_names x [] r) _ v in
      let (c, v2) = >>-eq-ok (validate_certified_key x [] r) _ v1 in
      let (j, v3) = >>-eq-ok (validate_renewal_key x [] r) _ v2 in
      let (t, _) = >>-eq-ok (validate_timestamp x _ (enrolled_at r)) _ v3 in
      let (n', c', j', e', s', a') = parts-set_status r st at in
      rw (n', n, c', c, j', j, e', t, s', a') k

  pub IsValid-active :
      (r : EnrollmentRecord Value) → IsValid x r → IsValid x (set_status r active none)
  unfolding validate_revoked_at
  IsValid-active r v = IsValid-set_status r active none refl v

  pub All-activate_first :
      (c : EnrollmentRecord Value) (rs ss : List (EnrollmentRecord Value)) (b : Bool)
      → activate_first c rs ≡ some (b, ss)
      → All (IsValid x) rs
      → All (IsValid x) ss
  unfolding activate_first
  All-activate_first c [] ss b h a = cc
  All-activate_first c (r ∷ rs) ss b h (v, a) = elim (activate_first_cases c r rs ss b h) [
    | inl (_, e) ↦ rw e (v, a)
    | inr (inl (_, e)) ↦ rw e (IsValid-active r v, a)
    | inr (inr (rest, _, k, e)) ↦ rw e (v, All-activate_first c rs rest b k a)
  ]

  module _ (selected : List (EnrollmentRecord Value)) (now : Text)
      (dated : validate_revoked_at x [] revoked (some now) ≡ ok tt) where
    revoke_step-IsValid :
        (r : EnrollmentRecord Value) → IsValid x r → IsValid x (revoke_step selected now r)
    unfolding revoke_step
    revoke_step-IsValid r v = elim (Bool-cases (live r && selected_pair selected r)) [
      | inl e ↦ rw e (IsValid-set_status r revoked (some now) dated v)
      | inr e ↦ rw e v
    ]

    pub All-revoke_records :
        (rs : List (EnrollmentRecord Value))
        → All (IsValid x) rs
        → All (IsValid x) (revoke_records selected now rs).1
    unfolding revoke_records
    All-revoke_records [] a = tt
    All-revoke_records (r ∷ rs) (v, a) = (revoke_step-IsValid r v, All-revoke_records rs a)
