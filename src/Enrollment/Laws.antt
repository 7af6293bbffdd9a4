-- ===== src/Enrollment/Laws.antt =====
-- What the validation of the enrollment documents keeps out, and what it lets through.
use grafhome_ca.Keys.{contains_key, private_jwk_fields}
use grafhome_ca.Enrollment.{
  UserGrant, UserRequest, document_version, effectively_infinite_version,
  mark_effectively_infinite_certificate, no_private_field, nonempty, preserves_initial_certificate,
  private_field, user_grant_kind, user_request_kind, validate_header, validate_public_material,
  validate_user_grant, validate_user_request,
}
use grafhome_ca.External.{External}
use grafhome_ca.Base.{
  ◌≡◌, >>-eq-ok, All, Bool-cases, List, Option-cases, Text, [], ensure, false, find, inl, inr,
  is_ok, none, ok, refl, starts_with, text, true, ◌==◌, ◌||◌, ◌∷◌,
}

module _ (x : External) where
  open x use {Value}

  find-none :
      (jwk : Value) (fields : List Text)
      → find (contains_key x jwk) fields ≡ none
      → All (λ f. contains_key x jwk f ≡ false) fields
  find-none jwk [] h = tt
  find-none jwk (f ∷ fields) h = elim (Bool-cases (contains_key x jwk f)) [
    | inl e ↦ cc (rw e at h)
    | inr e ↦ (e, find-none jwk fields (rw e at h))
  ]

  -- A key that passes has no private member.
  no_private_material :
      (key : Text) (jwk : Value)
      → validate_public_material x key jwk ≡ ok tt
      → All (λ f. contains_key x jwk f ≡ false) private_jwk_fields
  unfolding validate_public_material private_field no_private_field
  no_private_material key jwk h =
      let (_, h1) = >>-eq-ok (ensure (starts_with (text "ssh-") key) _) _ h in
      let (_, h2) = >>-eq-ok (ensure (x.is_object jwk) _) _ h1 in
      let (p, _) = >>-eq-ok (no_private_field x (private_field x jwk)) _ h2 in
      elim (Option-cases (private_field x jwk)) [
        | inl e ↦ find-none jwk private_jwk_fields e
        | inr (f, e) ↦ cc (rw (e, no_private_field) at p)
      ]

  -- A user request that validates carries none of the members d, k, p, q, dp, dq, qi and oth, which
  -- hold the private or symmetric part of a JWK, whatever its other members are.
  pub validate_user_request-public :
      (r : UserRequest Value)
      → validate_user_request x r ≡ ok tt
      → All
          (λ f. contains_key x r.renewal_public_jwk f ≡ false)
          (text "d"
            ∷ text "k"
            ∷ text "p"
            ∷ text "q"
            ∷ text "dp"
            ∷ text "dq"
            ∷ text "qi"
            ∷ text "oth"
            ∷ [])
  unfolding validate_user_request
  validate_user_request-public r h =
      let (_, h1) = >>-eq-ok (validate_header r.version r.kind user_request_kind) _ h in
      let (_, h2) = >>-eq-ok (nonempty (text "enrollment request user") r.user) _ h1 in
      let (_, h3) = >>-eq-ok (nonempty (text "enrollment request host") r.host) _ h2 in
      no_private_material r.ssh_public_key r.renewal_public_jwk h3

module _ {V : Type 0} where
  -- A grant that validates still validates once it is marked as effectively infinite, and then
  -- says that it preserves the initial certificate.
  pub mark-validate_user_grant :
      (g : UserGrant V)
      → validate_user_grant g ≡ ok tt
      → (validate_user_grant (mark_effectively_infinite_certificate g) ≡ ok tt)
        × (preserves_initial_certificate (mark_effectively_infinite_certificate g) ≡ true)
  unfolding validate_user_grant mark_effectively_infinite_certificate preserves_initial_certificate
  mark-validate_user_grant g h =
      let (_, h1) =
        >>-eq-ok
          (ensure (g.version == document_version || g.version == effectively_infinite_version) _) _
          h in
      (h1, refl)

  -- Marked as effectively infinite, a user grant is refused by a reader that knows version 1
  -- alone: the header test of the other documents fails.
  pub mark-validate_header :
      (g : UserGrant V)
      → is_ok
          (validate_header (mark_effectively_infinite_certificate g).version g.kind user_grant_kind)
        ≡ false
  unfolding validate_header mark_effectively_infinite_certificate
  mark-validate_header g = refl
