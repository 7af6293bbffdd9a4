-- ===== src/Authority/Listing.antt =====
-- The live enrollments that a revocation lists: each provisioner it names is among them.
use grafhome_ca.Base.{
  Any, List, Text, [], some, ◌∷◌, ◌≡◌, Bool-cases, Option, Option-cases, arith, eq_text, inl, inr,
  none, ok, refl, sym, text, text_leb, ◌⊎◌, subst, >>=-eq-ok, All, ok-injective, ok_or, ◌>>=◌,
  ok_or-eq-ok,
}
use grafhome_ca.Authority.Coverage.{
  IdentityFor, LiveEnrollment, add_enrollment, collect_enrollments, insert_enrollment, named,
}
use grafhome_ca.External.{External}
use grafhome_ca.Keys.{get_str, canonical_jwk}

module _ (x : External) where
  open x use {Value, get, value_eq}

  abbrev pub entry : Text → Value → LiveEnrollment Value
  entry id key = record { identity = id; renewal_public_jwk = key }

  inserted :
      (id : Text) (key : Value) (e : LiveEnrollment Value) (es after : List (LiveEnrollment Value))
      → insert_enrollment x id key (e ∷ es) ≡ some after
      → (after ≡ entry id key ∷ e ∷ es)
        ⊎ ((rest : List (LiveEnrollment Value)) × (insert_enrollment x id key es ≡ some rest)
            × (after ≡ e ∷ rest))
  unfolding insert_enrollment
  inserted id key e es after h = elim (Bool-cases (eq_text e.identity id)) [
    | inl same ↦ cc (rw (same, insert_enrollment) at h)
    | inr other ↦ elim (Bool-cases (text_leb id e.identity)) [
      | inl first ↦ inl (ground arith)
      | inr later ↦ elim (Option-cases (insert_enrollment x id key es)) [
        | inl none_left ↦ cc (rw (other, later, none_left, insert_enrollment) at h)
        | inr (rest, k) ↦ inr (rest, k, ground arith)
      ]
    ]
  ]

  -- An insertion lists the new entry, and keeps the others.
  insert_enrollment-lists :
      (id : Text) (key : Value) (es after : List (LiveEnrollment Value))
      → insert_enrollment x id key es ≡ some after
      → Any (λ e. e ≡ entry id key) after
  unfolding insert_enrollment
  insert_enrollment-lists id key [] after h =
      let same : entry id key ∷ [] ≡ after = ground arith in
      subst (Any (λ e. e ≡ entry id key)) same (inl refl)
  insert_enrollment-lists id key (e ∷ es) after h = elim (inserted id key e es after h) [
    | inl same ↦ subst (Any (λ e. e ≡ entry id key)) (sym same) (inl refl)
    | inr (rest, k, same) ↦
        subst (Any (λ e. e ≡ entry id key)) (sym same)
          (inr (insert_enrollment-lists id key es rest k))
  ]

  insert_enrollment-keeps :
      (P : LiveEnrollment Value → Type 0) (id : Text) (key : Value)
      (es after : List (LiveEnrollment Value))
      → insert_enrollment x id key es ≡ some after
      → Any P es
      → Any P after
  insert_enrollment-keeps P id key [] after h k = elim k [ ]
  insert_enrollment-keeps P id key (e ∷ es) after h k = elim (inserted id key e es after h) [
    | inl same ↦ subst (Any P) (sym same) (inr k)
    | inr (rest, found, same) ↦ subst (Any P) (sym same) (elim k [
      | inl here ↦ inl here
      | inr later ↦ inr (insert_enrollment-keeps P id key es rest found later)
    ])
  ]

  -- The canonical key of a provisioner that has an identity is one of the entries.
  abbrev pub Listed : List (LiveEnrollment Value) → Value → Option (Text × Text) → Type 0
  Listed es item none = Unit
  Listed es item (some (name, id)) =
      (value : Value) × (key : Value) × (thumbprint : Text) × (get item (text "key") ≡ some value)
      × (canonical_jwk x value ≡ ok (key, thumbprint))
      × Any (λ e. e ≡ entry id key) es

  module _ (ca_json : Text) (identity_for : IdentityFor) where
    abbrev identity_of : Value → Option (Text × Text)
    identity_of item = named identity_for (get_str x item (text "name"))

    add_enrollment-Listed :
        (name id : Text) (item : Value) (es after : List (LiveEnrollment Value))
        → add_enrollment x ca_json name id item es ≡ ok after
        → Listed after item (some (name, id))
          × ((P : LiveEnrollment Value → Type 0) → Any P es → Any P after)
    unfolding add_enrollment
    add_enrollment-Listed name id item es after h =
        let (value, found, h1) = >>=-eq-ok (ok_or (get item (text "key")) _) _ h in
        let ((key, thumbprint), canonical, h2) = >>=-eq-ok (canonical_jwk x value) _ h1 in
        let grown = ok_or-eq-ok (insert_enrollment x id key es) _ h2 in
        (
          (
            value,
            key,
            thumbprint,
            ok_or-eq-ok (get item (text "key")) _ found,
            canonical,
            insert_enrollment-lists id key es after grown,
          ),
          λ P. insert_enrollment-keeps P id key es after grown,
        )

    Listed-later :
        (es after : List (LiveEnrollment Value)) (item : Value) (o : Option (Text × Text))
        → ((P : LiveEnrollment Value → Type 0) → Any P es → Any P after)
        → Listed es item o
        → Listed after item o
    Listed-later es after item none keep h = tt
    Listed-later es after item (some (name, id)) keep (value, key, thumbprint, p, q, r) =
        (value, key, thumbprint, p, q, keep (λ e. e ≡ entry id key) r)

    pub collected :
        (items : List Value) (es after : List (LiveEnrollment Value))
        → collect_enrollments x ca_json identity_for items es ≡ ok after
        → All (λ item. Listed after item (identity_of item)) items
          × ((P : LiveEnrollment Value → Type 0) → Any P es → Any P after)
    unfolding collect_enrollments
    collected [] es after h = (tt, λ P k. subst (Any P) (ok-injective es after h) k)
    collected (item ∷ items) es after h = elim (Option-cases (identity_of item)) [
      | inl e ↦
          let (rest, keep) = collected items es after (rw (e, collect_enrollments) at h) in
          ((rw e tt, rest), keep)
      | inr ((name, id), e) ↦
          let k : (add_enrollment x ca_json name id item es >>= λ es'.
          collect_enrollments x ca_json identity_for items es')
              ≡ ok after =
            rw (e, collect_enrollments) at h in
          let (es', added, h1) = >>=-eq-ok (add_enrollment x ca_json name id item es) _ k in
          let (rest, keep) = collected items es' after h1 in
          let (there, keep') = add_enrollment-Listed name id item es es' added in
          (
            (rw e (Listed-later es' after item (some (name, id)) keep there), rest),
            λ P a. keep P (keep' P a),
          )
    ]
