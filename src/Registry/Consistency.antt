-- ===== src/Registry/Consistency.antt =====
-- What `validate` accepts: valid records that differ from one another in both keys and, while they
-- are live, in their identity.
use grafhome_ca.Registry.Places.{validate_anywhere}
use grafhome_ca.Base.{
  if◌then◌else◌, ℕ, ◌≡◌, ◌≢◌, refl, true, false, Option, none, List, [], arith, Text, contains_text,
  ok, >>-eq-ok, >>-ok, All, Error, ◌↔◌, ◌∷◌, Bool-cases, Pairwise, eq_text_iff, refuse, inl, ◌&&◌,
  inr, ◌+◌, ensure, All-both, All-map, ◌==◌,
}
use grafhome_ca.External.{External}
use grafhome_ca.Registry.Record.{EnrollmentRecord, identity, key_fingerprint, renewal_fingerprint}
use grafhome_ca.Registry.Store.{live, EnrollmentRegistry, format_version_now}
use grafhome_ca.Registry.Pending.{
  validate_at, previous, no_previous, validate_records, validate, validate_record, record_field,
}

module _ {V : Type 0} where
  -- Two records that one registry may hold.
  pub record Apart (r s : EnrollmentRecord V) : Type 0 where
    pub keys : key_fingerprint r ≢ key_fingerprint s
    pub renewals : renewal_fingerprint r ≢ renewal_fingerprint s
    pub identities : live r ≡ true → live s ≡ true → identity r ≢ identity s

  -- A record that the three collections of the loop do not know.
  record Fresh (ids : List Text) (certified renewal : List (Text × ℕ)) (r : EnrollmentRecord V)
      : Type 0 where
    logical : live r ≡ true → contains_text ids (identity r) ≡ false
    key : previous (key_fingerprint r) certified ≡ none
    thumbprint : previous (renewal_fingerprint r) renewal ≡ none

module _ (x : External) where
  open x use {Value}

  -- The record passes `validate_record`, whatever place the messages name.
  abbrev pub IsValid : EnrollmentRecord Value → Type 0
  IsValid r = validate_at x [] r ≡ ok tt

  previous-cons :
      (k j : Text) (i : ℕ) (c : List (Text × ℕ))
      → (previous k ((j, i) ∷ c) ≡ none) ↔ ((previous k c ≡ none) × (j ≢ k))
  previous-cons k j i c = ground (arith, eq_text_iff j k)

  contains-cons :
      (ids : List Text) (j t : Text)
      → (contains_text (j ∷ ids) t ≡ false) ↔ ((contains_text ids t ≡ false) × (j ≢ t))
  unfolding contains_text
  contains-cons ids j t = ground (arith, eq_text_iff t j)

  -- The identities that the loop knows behind a record.
  abbrev with_identity : EnrollmentRecord Value → List Text → List Text
  with_identity r ids = if live r then identity r ∷ ids else ids

  with_identity_iff :
      (r : EnrollmentRecord Value) (ids : List Text) (t : Text)
      → (contains_text (with_identity r ids) t ≡ false)
        ↔ ((contains_text ids t ≡ false) × (live r ≡ true → identity r ≢ t))
  with_identity_iff r ids t = elim (Bool-cases (live r)) [
    | inl e ↦ rw e (
      λ h. let (p, q) = (contains-cons ids (identity r) t).0 h in (p, λ _. q),
      λ (p, q). (contains-cons ids (identity r) t).1 (p, q refl),
    )
    | inr e ↦ rw e (λ h. (h, λ (d : false ≡ true). cc d), λ (p, q). p)
  ]

  module _ (ids : List Text) (certified renewal : List (Text × ℕ)) (i : ℕ)
      (r s : EnrollmentRecord Value) where
    abbrev FreshAfter : Type 0
    FreshAfter =
        Fresh (with_identity r ids) ((key_fingerprint r, i) ∷ certified)
          ((renewal_fingerprint r, i) ∷ renewal) s

    Fresh-uncons : FreshAfter → Fresh ids certified renewal s × Apart r s
    Fresh-uncons h =
        let (k, k') = (previous-cons (key_fingerprint s) (key_fingerprint r) i certified).0 h.key in
        let (n, n') =
          (previous-cons (renewal_fingerprint s) (renewal_fingerprint r) i renewal).0
            h.thumbprint in
        (
          record {
            logical = λ l. ((with_identity_iff r ids (identity s)).0 (h.logical l)).0;
            key = k;
            thumbprint = n;
          },
          record {
            keys = k';
            renewals = n';
            identities = λ a b. ((with_identity_iff r ids (identity s)).0 (h.logical b)).1 a;
          },
        )

    Fresh-cons : Fresh ids certified renewal s → Apart r s → FreshAfter
    Fresh-cons h a = record {
      logical = λ l. (with_identity_iff r ids (identity s)).1 (h.logical l, λ d. a.identities d l);
      key = (previous-cons (key_fingerprint s) (key_fingerprint r) i certified).1 (h.key, a.keys);
      thumbprint =
          (previous-cons (renewal_fingerprint s) (renewal_fingerprint r) i renewal).1
            (h.thumbprint, a.renewals);
    }

  -- What the loop asks of the records that are left.
  abbrev Accepts :
      List Text → List (Text × ℕ) → List (Text × ℕ) → List (EnrollmentRecord Value) → Type 0
  Accepts ids certified renewal rs =
      All IsValid rs × All (Fresh ids certified renewal) rs × Pairwise Apart rs

  no_previous_iff : (field : Text) (o : Option ℕ) → (no_previous field o ≡ ok tt) ↔ (o ≡ none)
  unfolding no_previous
  no_previous_iff field o = ground arith

  refuse_known_iff :
      (ids : List Text) (r : EnrollmentRecord Value) (e : Error)
      → (refuse (live r && contains_text ids (identity r)) e ≡ ok tt)
        ↔ (live r ≡ true → contains_text ids (identity r) ≡ false)
  refuse_known_iff ids r e = (
    λ h l. ground arith,
    λ h. elim (Bool-cases (live r)) [ inl l ↦ rw (h l, l) refl | inr l ↦ rw l refl ],
  )

  module _ (path : Text) (i : ℕ) (ids : List Text) (certified renewal : List (Text × ℕ))
      (r : EnrollmentRecord Value) (rs : List (EnrollmentRecord Value)) where
    abbrev AcceptsRest : Type 0
    AcceptsRest =
        Accepts (with_identity r ids) ((key_fingerprint r, i) ∷ certified)
          ((renewal_fingerprint r, i) ∷ renewal) rs

    Accepts-cons :
        validate_record x path i r ≡ ok tt
        → Fresh ids certified renewal r
        → AcceptsRest
        → Accepts ids certified renewal (r ∷ rs)
    unfolding validate_record
    Accepts-cons v f (vs, fs, ps) = (
      (validate_anywhere x (record_field path i) [] r v, vs),
      (f, All-map (λ s k. (Fresh-uncons ids certified renewal i r s k).0) rs fs),
      (All-map (λ s k. (Fresh-uncons ids certified renewal i r s k).1) rs fs, ps),
    )

    Accepts-uncons :
        Accepts ids certified renewal (r ∷ rs)
        → (validate_record x path i r ≡ ok tt) × Fresh ids certified renewal r × AcceptsRest
    unfolding validate_record
    Accepts-uncons ((v, vs), (f, fs), (a, ps)) = (
      validate_anywhere x [] (record_field path i) r v,
      f,
      (vs, All-both (λ s k l. Fresh-cons ids certified renewal i r s k l) rs fs a, ps),
    )

  validate_records_iff :
      (path : Text) (i : ℕ) (ids : List Text) (certified renewal : List (Text × ℕ))
      (rs : List (EnrollmentRecord Value))
      → (validate_records x path i ids certified renewal rs ≡ ok tt)
        ↔ Accepts ids certified renewal rs
  unfolding validate_records
  validate_records_iff path i ids certified renewal [] = (λ _. (tt, tt, tt), λ _. refl)
  validate_records_iff path i ids certified renewal (r ∷ rs) =
      let (to, from) =
        validate_records_iff path (i + 1) (with_identity r ids) ((key_fingerprint r, i) ∷ certified)
          ((renewal_fingerprint r, i) ∷ renewal) rs in
      (
        λ h.
            let (v, h1) = >>-eq-ok (validate_record x path i r) _ h in
            let (k, h2) = >>-eq-ok (refuse (live r && contains_text ids (identity r)) _) _ h1 in
            let (c, h3) = >>-eq-ok (no_previous _ (previous (key_fingerprint r) certified)) _ h2 in
            let (n, h4) =
              >>-eq-ok (no_previous _ (previous (renewal_fingerprint r) renewal)) _ h3 in
            Accepts-cons path i ids certified renewal r rs v
              (record {
                logical = (refuse_known_iff ids r _).0 k;
                key = (no_previous_iff _ _).0 c;
                thumbprint = (no_previous_iff _ _).0 n;
              })
              (to h4),
        λ a.
            let (v, f, rest) = Accepts-uncons path i ids certified renewal r rs a in
            >>-ok (validate_record x path i r) _ v (
              >>-ok (refuse (live r && contains_text ids (identity r)) _) _
                ((refuse_known_iff ids r _).1 f.logical)
                (>>-ok (no_previous _ (previous (key_fingerprint r) certified)) _
                  ((no_previous_iff _ _).1 f.key)
                  (>>-ok (no_previous _ (previous (renewal_fingerprint r) renewal)) _
                    ((no_previous_iff _ _).1 f.thumbprint) (from rest)))),
      )

  -- A registry that a load accepts and a save writes.
  pub record IsConsistent (self : EnrollmentRegistry Value) : Type 0 where
    pub current : self.format_version ≡ format_version_now
    pub valid : All IsValid self.records
    pub apart : Pairwise Apart self.records

  everything-Fresh : (rs : List (EnrollmentRecord Value)) → All (Fresh [] [] []) rs
  unfolding contains_text
  everything-Fresh [] = tt
  everything-Fresh (r ∷ rs) =
      (record { logical = λ _. refl; key = refl; thumbprint = refl }, everything-Fresh rs)

  -- `validate` accepts a registry exactly if its version is current, each record is valid, and any
  -- two records differ in the key fingerprint, in the renewal fingerprint and, while both are
  -- live, in the printed identity.
  pub validate_iff :
      (path : Text) (self : EnrollmentRegistry Value)
      → (validate x path self ≡ ok tt) ↔ IsConsistent self
  unfolding validate
  validate_iff path self =
      let (to, from) = validate_records_iff path 0 [] [] [] self.records in
      (
        λ h.
            let (v, h') = >>-eq-ok (ensure (self.format_version == format_version_now) _) _ h in
            let (vs, _, ps) = to h' in
            record { current = ground (arith, v); valid = vs; apart = ps },
        λ c.
            >>-ok (ensure (self.format_version == format_version_now) _) _
              (ground (arith, c.current)) (from (c.valid, everything-Fresh self.records, c.apart)),
      )
