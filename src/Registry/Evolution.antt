-- ===== src/Registry/Evolution.antt =====
-- How the operations of the registry change its list of records: each record stays at its place
-- with its keys and its identity, and a tombstone stays as it is.
use grafhome_ca.Base.{
  ◌∙◌, text, ◌≡◌, refl, Bool, true, false, ◌&&◌, Option, none, some, List, [], ◌∷◌, ◌++◌, arith,
  if◌then◌else◌, any, Text, Result, ok, Bool-cases, Option-cases, inl, inr, >>-eq-ok, ◌⊎◌,
}
use grafhome_ca.Registry.Record.{
  RecordStatus, active, revoked, is_active, EnrollmentRecord, host, user, x509, identity, status,
  key_fingerprint, renewal_fingerprint, same_identity, set_status,
}
use grafhome_ca.Registry.Store.{
  EnrollmentRegistry, live, selected_pair, check_candidate, live_match, reserve, activate_first,
  activate, revoke_step, revoke_records, mark_revoked,
}

module _ {V : Type 0} where
  -- All of a record but its status and the time of its revocation, with the kind of the record
  -- first.
  abbrev pub material : EnrollmentRecord V → List Text × V
  material (host st h key fp jwk rfp at rev) = (text "host" ∷ h ∷ key ∷ fp ∷ rfp ∷ at ∷ [], jwk)
  material (user st u h key fp jwk rfp at rev) =
      (text "user" ∷ u ∷ h ∷ key ∷ fp ∷ rfp ∷ at ∷ [], jwk)
  material (x509 st h n key fp jwk rfp at rev) =
      (text "x509" ∷ h ∷ n ∷ key ∷ fp ∷ rfp ∷ at ∷ [], jwk)

  -- `s` is `r` later on.
  pub record Evolves (r s : EnrollmentRecord V) : Type 0 where
    pub fixed : material s ≡ material r
    pub key : key_fingerprint s ≡ key_fingerprint r
    pub renewal : renewal_fingerprint s ≡ renewal_fingerprint r
    pub logical : identity s ≡ identity r
    pub dead : live r ≡ false → s ≡ r

  pub Evolves-refl : (r : EnrollmentRecord V) → Evolves r r
  Evolves-refl r = record {
    fixed = refl;
    key = refl;
    renewal = refl;
    logical = refl;
    dead = λ _. refl;
  }

  pub Evolves-trans : (r s t : EnrollmentRecord V) → Evolves r s → Evolves s t → Evolves r t
  Evolves-trans r s t f g = record {
    fixed = g.fixed ∙ f.fixed;
    key = cc (f.key, g.key);
    renewal = cc (f.renewal, g.renewal);
    logical = cc (f.logical, g.logical);
    dead = λ d. let same = f.dead d in cc (same, g.dead (rw same d));
  }

  pub key-set_status :
      (r : EnrollmentRecord V) (st : RecordStatus) (at : Option Text)
      → key_fingerprint (set_status r st at) ≡ key_fingerprint r
  unfolding key_fingerprint set_status
  key-set_status (host _ _ _ _ _ _ _ _) st at = refl
  key-set_status _ st at = refl

  pub renewal-set_status :
      (r : EnrollmentRecord V) (st : RecordStatus) (at : Option Text)
      → renewal_fingerprint (set_status r st at) ≡ renewal_fingerprint r
  unfolding renewal_fingerprint set_status
  renewal-set_status (host _ _ _ _ _ _ _ _) st at = refl
  renewal-set_status _ st at = refl

  pub identity-set_status :
      (r : EnrollmentRecord V) (st : RecordStatus) (at : Option Text)
      → identity (set_status r st at) ≡ identity r
  unfolding identity set_status
  identity-set_status (host _ _ _ _ _ _ _ _) st at = refl
  identity-set_status _ st at = refl

  pub status-set_status :
      (r : EnrollmentRecord V) (st : RecordStatus) (at : Option Text)
      → status (set_status r st at) ≡ st
  unfolding status set_status
  status-set_status (host _ _ _ _ _ _ _ _) st at = refl
  status-set_status _ st at = refl

  pub same_identity-set_status :
      (r c : EnrollmentRecord V) (st : RecordStatus) (at : Option Text)
      → same_identity (set_status r st at) c ≡ same_identity r c
  unfolding same_identity set_status
  same_identity-set_status (host _ _ _ _ _ _ _ _) (host _ _ _ _ _ _ _ _) st at = refl
  same_identity-set_status _ _ st at = refl

  material-set_status :
      (r : EnrollmentRecord V) (st : RecordStatus) (at : Option Text)
      → material (set_status r st at) ≡ material r
  unfolding set_status
  material-set_status (host _ _ _ _ _ _ _ _) st at = refl
  material-set_status (user _ _ _ _ _ _ _ _ _) st at = refl
  material-set_status (x509 _ _ _ _ _ _ _ _ _) st at = refl

  -- A live record may take any status.
  pub Evolves-set_status :
      (r : EnrollmentRecord V) (st : RecordStatus) (at : Option Text)
      → live r ≡ true
      → Evolves r (set_status r st at)
  Evolves-set_status r st at h = record {
    fixed = material-set_status r st at;
    key = key-set_status r st at;
    renewal = renewal-set_status r st at;
    logical = identity-set_status r st at;
    dead = λ d. cc (h, d);
  }

  -- `ss` holds what `rs` held, each record at its place, and perhaps more behind.
  abbrev pub Grows : List (EnrollmentRecord V) → List (EnrollmentRecord V) → Type 0
  Grows [] ss = Unit
  Grows (r ∷ rs) [] = ⊥
  Grows (r ∷ rs) (s ∷ ss) = Evolves r s × Grows rs ss

  pub Grows-refl : (rs : List (EnrollmentRecord V)) → Grows rs rs
  Grows-refl [] = tt
  Grows-refl (r ∷ rs) = (Evolves-refl r, Grows-refl rs)

  pub Grows-append : (rs ss : List (EnrollmentRecord V)) → Grows rs (rs ++ ss)
  Grows-append [] ss = tt
  Grows-append (r ∷ rs) ss = (Evolves-refl r, Grows-append rs ss)

  pub Grows-trans : (rs ss ts : List (EnrollmentRecord V)) → Grows rs ss → Grows ss ts → Grows rs ts
  Grows-trans [] ss ts g h = tt
  Grows-trans (r ∷ rs) [] ts g h = absurd g
  Grows-trans (r ∷ rs) (s ∷ ss) [] g h = absurd h
  Grows-trans (r ∷ rs) (s ∷ ss) (t ∷ ts) (p, g) (q, h) =
      (Evolves-trans r s t p q, Grows-trans rs ss ts g h)

  reserve_choice :
      (self next : EnrollmentRegistry V) (c : EnrollmentRecord V) (b found : Bool)
      → ◌≡◌ {A = Result (Bool × EnrollmentRegistry V)}
          (if found
            then ok (false, self)
            else ok (true, record self { records = self.records ++ c ∷ [] }))
          (ok (b, next))
      → (next ≡ self) ⊎ (next ≡ record self { records = self.records ++ c ∷ [] })
  reserve_choice self next c b true h = inl (ground arith)
  reserve_choice self next c b false h = inr (ground arith)

  -- A reservation leaves the registry as it is or puts the candidate at its end.
  pub reserve_next :
      (self next : EnrollmentRegistry V) (c : EnrollmentRecord V) (b : Bool)
      → reserve self c ≡ ok (b, next)
      → (next ≡ self) ⊎ (next ≡ record self { records = self.records ++ c ∷ [] })
  unfolding reserve
  reserve_next self next c b h =
      let (_, h') = >>-eq-ok (check_candidate self c) _ h in
      reserve_choice self next c b (any (live_match c) self.records) h'

  pub reserve-Grows :
      (self next : EnrollmentRegistry V) (c : EnrollmentRecord V) (b : Bool)
      → reserve self c ≡ ok (b, next)
      → Grows self.records next.records
  reserve-Grows self next c b h = elim (reserve_next self next c b h) [
    | inl e ↦ rw e (Grows-refl self.records)
    | inr e ↦ rw e (Grows-append self.records (c ∷ []))
  ]

  pub live_match-live : (c r : EnrollmentRecord V) → live_match c r ≡ true → live r ≡ true
  unfolding live_match
  live_match-live c r h = ground arith

  -- What one step of the search does.
  pub activate_first_cases :
      (c r : EnrollmentRecord V) (rs ss : List (EnrollmentRecord V)) (b : Bool)
      → activate_first c (r ∷ rs) ≡ some (b, ss)
      → ((live_match c r ≡ true) × (ss ≡ r ∷ rs))
        ⊎ (((live_match c r ≡ true) × (ss ≡ set_status r active none ∷ rs))
            ⊎ ((rest : List (EnrollmentRecord V)) × (live_match c r ≡ false)
                × (activate_first c rs ≡ some (b, rest))
                × (ss ≡ r ∷ rest)))
  unfolding activate_first
  activate_first_cases c r rs ss b h = elim (Bool-cases (live_match c r)) [
    | inl e ↦ elim (Bool-cases (is_active (status r))) [
      | inl a ↦ inl (e, ground arith)
      | inr a ↦ inr (inl (e, ground arith))
    ]
    | inr e ↦ elim (Option-cases (activate_first c rs)) [
      | inl m ↦ cc (rw (e, m, activate_first) at h)
      | inr ((b', rest), m) ↦ inr (inr (rest, e, ground arith, ground arith))
    ]
  ]

  pub activate_first-Grows :
      (c : EnrollmentRecord V) (rs ss : List (EnrollmentRecord V)) (b : Bool)
      → activate_first c rs ≡ some (b, ss)
      → Grows rs ss
  activate_first-Grows c [] ss b h = tt
  activate_first-Grows c (r ∷ rs) ss b h = elim (activate_first_cases c r rs ss b h) [
    | inl (m, e) ↦ rw e (Grows-refl (r ∷ rs))
    | inr (inl (m, e)) ↦
        rw e (Evolves-set_status r active none (live_match-live c r m), Grows-refl rs)
    | inr (inr (rest, m, h', e)) ↦ rw e (Evolves-refl r, activate_first-Grows c rs rest b h')
  ]

  -- An activation activates the first live record of the identity in place, or puts the candidate
  -- at the end.
  pub activate_next :
      (self next : EnrollmentRegistry V) (c : EnrollmentRecord V) (b : Bool)
      → activate self c ≡ ok (b, next)
      → (activate_first c self.records ≡ some (b, next.records))
        ⊎ ((activate_first c self.records ≡ none)
            × (next.records ≡ self.records ++ set_status c active none ∷ []))
  unfolding activate
  activate_next self next c b h =
      let (_, h') = >>-eq-ok (check_candidate self c) _ h in
      elim (Option-cases (activate_first c self.records)) [
        | inl e ↦ inr (e, ground arith)
        | inr ((b', rs), e) ↦ inl (ground arith)
      ]

  pub activate-Grows :
      (self next : EnrollmentRegistry V) (c : EnrollmentRecord V) (b : Bool)
      → activate self c ≡ ok (b, next)
      → Grows self.records next.records
  activate-Grows self next c b h = elim (activate_next self next c b h) [
    | inl e ↦ activate_first-Grows c self.records next.records b e
    | inr (_, e) ↦ rw e (Grows-append self.records _)
  ]

  pub revoke_step-Evolves :
      (selected : List (EnrollmentRecord V)) (now : Text) (r : EnrollmentRecord V)
      → Evolves r (revoke_step selected now r)
  unfolding revoke_step
  revoke_step-Evolves selected now r = elim (Bool-cases (live r && selected_pair selected r)) [
    | inl e ↦ rw e (Evolves-set_status r revoked (some now) (ground arith))
    | inr e ↦ rw e (Evolves-refl r)
  ]

  revoke_records-Grows :
      (selected : List (EnrollmentRecord V)) (now : Text) (rs : List (EnrollmentRecord V))
      → Grows rs (revoke_records selected now rs).1
  unfolding revoke_records
  revoke_records-Grows selected now [] = tt
  revoke_records-Grows selected now (r ∷ rs) =
      (revoke_step-Evolves selected now r, revoke_records-Grows selected now rs)

  pub mark_revoked-Grows :
      (self : EnrollmentRegistry V) (selected : List (EnrollmentRecord V)) (now : Text)
      → Grows self.records (mark_revoked self selected now).1.records
  unfolding mark_revoked
  mark_revoked-Grows self selected now = revoke_records-Grows selected now self.records
