-- ===== src/Registry/Tombstones.antt =====
-- The keys of a tombstone stay out of the registry for good, whatever operations follow.
use grafhome_ca.Base.{
  Result-cases, ◌≡◌, refl, Bool, false, List, [], ◌∷◌, arith, Text, eq_text_iff, ok, is_ok, inl,
  inr, Any, All, ◌⊎◌,
}
use grafhome_ca.Registry.Record.{EnrollmentRecord, key_fingerprint, renewal_fingerprint}
use grafhome_ca.Registry.Store.{
  EnrollmentRegistry, live, shares_key, check_candidate, live_match, reserve, activate,
  mark_revoked,
}
use grafhome_ca.Registry.Evolution.{
  Grows, Grows-refl, Grows-trans, reserve-Grows, activate-Grows, mark_revoked-Grows,
}
use grafhome_ca.Registry.Admission.{Compatible, check_candidate-Compatible}

module _ {V : Type 0} where
  -- One change of the registry, by any of its three operations.
  pub data Step (s t : EnrollmentRegistry V) : Type 0 where
    reserved : (c : EnrollmentRecord V) (b : Bool) → reserve s c ≡ ok (b, t) → Step s t
    activated : (c : EnrollmentRecord V) (b : Bool) → activate s c ≡ ok (b, t) → Step s t
    marked :
        (selected : List (EnrollmentRecord V)) (now : Text)
        → (mark_revoked s selected now).1 ≡ t
        → Step s t

  pub data Reach (s : EnrollmentRegistry V) : EnrollmentRegistry V → Type 0 where
    here : Reach s s
    next : {t u : EnrollmentRegistry V} → Reach s t → Step t u → Reach s u

  Step-Grows : {s t : EnrollmentRegistry V} → Step s t → Grows s.records t.records
  Step-Grows {s} {t} (reserved c b e) = reserve-Grows s t c b e
  Step-Grows {s} {t} (activated c b e) = activate-Grows s t c b e
  Step-Grows {s} {t} (marked selected now e) = rw (← e) (mark_revoked-Grows s selected now)

  -- No operation deletes or reorders a record, changes its kind, its names, its keys, fingerprints
  -- or enrollment time, or changes a tombstone at all.
  pub Reach-Grows : (s t : EnrollmentRegistry V) → Reach s t → Grows s.records t.records
  Reach-Grows s t here = Grows-refl s.records
  Reach-Grows s u (next {t} r st) =
      Grows-trans s.records t.records u.records (Reach-Grows s t r) (Step-Grows st)

  -- A revoked record with these two fingerprints.
  abbrev pub IsTombstone : Text → Text → EnrollmentRecord V → Type 0
  IsTombstone fp rfp r = (live r ≡ false) × (key_fingerprint r ≡ fp) × (renewal_fingerprint r ≡ rfp)

  IsTombstone-kept :
      (fp rfp : Text) (rs ss : List (EnrollmentRecord V))
      → Grows rs ss
      → Any (IsTombstone fp rfp) rs
      → Any (IsTombstone fp rfp) ss
  IsTombstone-kept fp rfp [] ss g h = absurd h
  IsTombstone-kept fp rfp (r ∷ rs) [] g h = absurd g
  IsTombstone-kept fp rfp (r ∷ rs) (s ∷ ss) (p, g) (inl (d, k, n)) = inl (rw (p.dead d) (d, k, n))
  IsTombstone-kept fp rfp (r ∷ rs) (s ∷ ss) (p, g) (inr h) = inr (IsTombstone-kept fp rfp rs ss g h)

  -- The candidate has one of the two keys.
  abbrev pub HasKey : Text → Text → EnrollmentRecord V → Type 0
  HasKey fp rfp c = (key_fingerprint c ≡ fp) ⊎ (renewal_fingerprint c ≡ rfp)

  tombstone_incompatible :
      (fp rfp : Text) (c r : EnrollmentRecord V)
      → HasKey fp rfp c
      → IsTombstone fp rfp r
      → ¬ Compatible c r
  unfolding shares_key live_match
  tombstone_incompatible fp rfp c r k d m = ground (
    arith,
    eq_text_iff (key_fingerprint r) (key_fingerprint c),
    eq_text_iff (renewal_fingerprint r) (renewal_fingerprint c),
  )

  tombstone_blocks :
      (fp rfp : Text) (c : EnrollmentRecord V) (rs : List (EnrollmentRecord V))
      → HasKey fp rfp c
      → Any (IsTombstone fp rfp) rs
      → ¬ All (Compatible c) rs
  tombstone_blocks fp rfp c [] k h a = h
  tombstone_blocks fp rfp c (r ∷ rs) k (inl d) (m, a) = tombstone_incompatible fp rfp c r k d m
  tombstone_blocks fp rfp c (r ∷ rs) k (inr h) (m, a) = tombstone_blocks fp rfp c rs k h a

  refused :
      (self : EnrollmentRegistry V) (c : EnrollmentRecord V)
      → ¬ (check_candidate self c ≡ ok tt)
      → (is_ok (reserve self c) ≡ false) × (is_ok (activate self c) ≡ false)
  unfolding reserve activate
  refused self c h = elim (Result-cases (check_candidate self c)) [
    | inl k ↦ absurd (h k)
    | inr (e, k) ↦ (rw k refl, rw k refl)
  ]

  -- Once a tombstone is in the registry, no candidate with either of its keys is reserved or
  -- activated, after any sequence of operations.
  pub tombstone_permanent :
      (s t : EnrollmentRegistry V) (fp rfp : Text) (c : EnrollmentRecord V)
      → Any (IsTombstone fp rfp) s.records
      → Reach s t
      → HasKey fp rfp c
      → (is_ok (reserve t c) ≡ false) × (is_ok (activate t c) ≡ false)
  tombstone_permanent s t fp rfp c h r k = refused t c λ e.
      tombstone_blocks fp rfp c t.records k
        (IsTombstone-kept fp rfp s.records t.records (Reach-Grows s t r) h)
        ((check_candidate-Compatible t c).0 e)
