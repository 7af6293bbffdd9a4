-- ===== src/Authority/Covered.antt =====
-- What a revocation demands of the registry before it begins, and what it then removes.
use grafhome_ca.Authority.Listing.{Listed, entry, collected}
use grafhome_ca.Registry.Store.{live}
use grafhome_ca.Base.{
  ap, eq_text_iff, ◌∙◌, &&-eq-true, eq_text_sound, ◌&&◌, Any, List, Text, [], some, ◌∷◌, ◌≡◌,
  Bool-cases, Option, Option-cases, eq_text, inl, inr, none, ok, refl, text, subst, All,
  ensure-eq-ok, filter, is_empty, map, not, true, All-map,
}
use grafhome_ca.Authority.Coverage.{
  IdentityFor, LiveEnrollment, collect_enrollments, is_covered, live_enrollment_inventory, named,
  require_registry_coverage,
}
use grafhome_ca.External.{External}
use grafhome_ca.Keys.{get_str, canonical_jwk}
use grafhome_ca.Registry.Record.{EnrollmentRecord, identity, renewal_public_jwk}
use grafhome_ca.Runtime.Live.{live_provisioners}
use grafhome_ca.Runtime.Removal.{is_text, matches_exact, remove_exact}
use grafhome_ca.Runtime.Removed.{fits, remove_matching-filter}

module _ (x : External) where
  open x use {Value, get, value_eq}

  -- A record that is not revoked with the identity and the key.
  abbrev Holds : Text → Value → EnrollmentRecord Value → Type 0
  Holds id key r =
      (live r ≡ true) × (identity r ≡ id) × (value_eq (renewal_public_jwk r) key ≡ true)

  is_covered-Holds :
      (records : List (EnrollmentRecord Value)) (id : Text) (key : Value)
      → is_covered x records (entry x id key) ≡ true
      → Any (Holds id key) records
  unfolding is_covered
  is_covered-Holds [] id key h = cc
  is_covered-Holds (r ∷ rs) id key h =
      elim (Bool-cases (live r && eq_text (identity r) id && value_eq (renewal_public_jwk r) key)) [
        | inl k ↦
            let (front, equal) = &&-eq-true (live r && eq_text (identity r) id) _ k in
            let (p, same) = &&-eq-true (live r) (eq_text (identity r) id) front in
            inl (p, eq_text_sound (identity r) id same, equal)
        | inr k ↦ inr (is_covered-Holds rs id key (rw k at h))
      ]

  -- A provisioner with an identity has a canonical key, and some record that is not revoked holds
  -- the identity and that key.
  abbrev pub Recorded : List (EnrollmentRecord Value) → Value → Option (Text × Text) → Type 0
  Recorded records item none = Unit
  Recorded records item (some (name, id)) =
      (value : Value) × (key : Value) × (thumbprint : Text) × (get item (text "key") ≡ some value)
      × (canonical_jwk x value ≡ ok (key, thumbprint))
      × Any (Holds id key) records

  is_covered-All :
      (records : List (EnrollmentRecord Value)) (es : List (LiveEnrollment Value))
      → is_empty (map (λ e. e.identity) (filter (λ e. not (is_covered x records e)) es)) ≡ true
      → All (λ e. is_covered x records e ≡ true) es
  is_covered-All records [] h = tt
  is_covered-All records (e ∷ es) h = elim (Bool-cases (is_covered x records e)) [
    | inl k ↦ (k, is_covered-All records es (rw k at h))
    | inr k ↦ cc (rw k at h)
  ]

  All-Any :
      (records : List (EnrollmentRecord Value)) (new : LiveEnrollment Value)
      (es : List (LiveEnrollment Value))
      → All (λ e. is_covered x records e ≡ true) es
      → Any (λ e. e ≡ new) es
      → is_covered x records new ≡ true
  All-Any records new [] h k = elim k [ ]
  All-Any records new (e ∷ es) (h, hs) (inl k) = subst (λ e. is_covered x records e ≡ true) k h
  All-Any records new (e ∷ es) (h, hs) (inr k) = All-Any records new es hs k

  Listed-Recorded :
      (records : List (EnrollmentRecord Value)) (es : List (LiveEnrollment Value)) (item : Value)
      (o : Option (Text × Text))
      → All (λ e. is_covered x records e ≡ true) es
      → Listed x es item o
      → Recorded records item o
  Listed-Recorded records es item none h k = tt
  Listed-Recorded records es item (some (name, id)) h (value, key, thumbprint, p, q, r) = (
    value,
    key,
    thumbprint,
    p,
    q,
    is_covered-Holds records id key (All-Any records (entry x id key) es h r),
  )

  require_registry_coverage-Recorded :
      (ca_json : Text) (identity_for : IdentityFor) (config : Value) (items : List Value)
      (records : List (EnrollmentRecord Value)) (live_enrollments : List (LiveEnrollment Value))
      → live_provisioners x ca_json config ≡ ok items
      → live_enrollment_inventory x ca_json config identity_for ≡ ok live_enrollments
      → require_registry_coverage x records live_enrollments ≡ ok tt
      → All
          (λ item. Recorded records item (named identity_for (get_str x item (text "name"))))
          items
  unfolding live_enrollment_inventory require_registry_coverage
  require_registry_coverage-Recorded ca_json identity_for config items records es p q r =
      let listing : collect_enrollments x ca_json identity_for items [] ≡ ok es =
        rw (p, live_enrollment_inventory) at q in
      let all = is_covered-All records es ((ensure-eq-ok _ _).0 r) in
      All-map
        (λ item.
          Listed-Recorded records es item (named identity_for (get_str x item (text "name"))) all)
        items (collected x ca_json identity_for items [] es listing).0

  taken_named :
      (provisioner id : Text) (identity_for : IdentityFor) (records : List (EnrollmentRecord Value))
      (items : List Value)
      → identity_for provisioner ≡ some id
      → All
          (λ item. Recorded records item (named identity_for (get_str x item (text "name"))))
          items
      → All
          (λ item.
            (get_str x item (text "name") ≡ some provisioner)
            × Recorded records item (some (provisioner, id)))
          (filter (fits x (matches_exact provisioner)) items)
  unfolding matches_exact
  taken_named provisioner id identity_for records [] e h = tt
  taken_named provisioner id identity_for records (v ∷ items) e (r, h) =
      elim (Option-cases (get_str x v (text "name"))) [
        | inl k ↦ rw k (taken_named provisioner id identity_for records items e h)
        | inr (name, k) ↦ elim (Bool-cases (eq_text name provisioner)) [
          | inl c ↦
              let same : name ≡ provisioner = (eq_text_iff name provisioner).0 c in
              let known : named identity_for (some provisioner) ≡ some (provisioner, id) =
                rw (e, named) refl in
              let found : named identity_for (get_str x v (text "name")) ≡ some (provisioner, id) =
                ap (named identity_for) (k ∙ ap some same) ∙ known in
              rw (k, c)
                (
                  (k ∙ ap some same, subst (Recorded records v) found r),
                  taken_named provisioner id identity_for records items e h,
                )
          | inr c ↦ rw (k, c) (taken_named provisioner id identity_for records items e h)
        ]
      ]

  -- For a removal of the provisioner under one name, which the revocation takes for an enrollment:
  -- when the live enrollments can be listed, the registry covers them and the removal succeeds,
  -- then the document lists in order the provisioners that it listed without those under the name,
  -- and each that is taken has a canonical key that a record which is not revoked holds under the
  -- identity.
  pub require_registry_coverage-remove_exact :
      (ca_json : Text) (identity_for : IdentityFor) (config config' : Value) (removed : List Text)
      (records : List (EnrollmentRecord Value)) (live_enrollments : List (LiveEnrollment Value))
      (provisioner id : Text)
      → identity_for provisioner ≡ some id
      → live_enrollment_inventory x ca_json config identity_for ≡ ok live_enrollments
      → require_registry_coverage x records live_enrollments ≡ ok tt
      → remove_exact x ca_json config provisioner ≡ ok (config', removed)
      → (items : List Value) × (live_provisioners x ca_json config ≡ ok items)
        × (live_provisioners x ca_json config'
            ≡ ok (filter (λ v. not (is_text provisioner (get_str x v (text "name")))) items))
        × All
            (λ item. Recorded records item (some (provisioner, id)))
            (filter (λ v. is_text provisioner (get_str x v (text "name"))) items)
  unfolding remove_exact matches_exact
  require_registry_coverage-remove_exact ca_json identity_for config config' removed records es
        provisioner id e q r h =
      let (items, live, kept, _) =
        remove_matching-filter x ca_json config (matches_exact provisioner) config' removed h in
      let all =
        require_registry_coverage-Recorded ca_json identity_for config items records es live q r in
      let taken = taken_named provisioner id identity_for records items e all in
      (items, live, kept, All-map (λ v k. k.1) _ taken)
