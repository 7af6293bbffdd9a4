-- ===== src/Runtime/Swept.antt =====
-- What `reconcile_claims` guarantees of the CA that it leaves.
use grafhome_ca.Runtime.Kinds.{type-claims, type-live, type-options, type_of}
use grafhome_ca.Runtime.Sweep.{
  reconcile_each, reconcile_named, reconcile_options, desired_claims, reconcile_claimed,
}
use grafhome_ca.Runtime.Reconcile.{
  has_type, is_retired, remove_retired_provisioners, is_x509_provisioner,
}
use grafhome_ca.Runtime.Certificates.{reconcile_live}
use grafhome_ca.Keys.{get_str}
use grafhome_ca.Runtime.Claims.{reconcile_provisioner_claims}
use grafhome_ca.Policy.Model.{Policy, Provisioner}
use grafhome_ca.External.{External}
use mathlib.Core.Path.{subst}
use grafhome_ca.Base.{
  Bool, List, Text, [], arith, eq_text, false, ok, refl, some, text, true, ◌∷◌, ◌≡◌, >>=-eq-ok,
  Option-cases, inr, inl, Bool-cases, ap, sym, ◌∙◌, All, ok-injective, ◌||◌,
}

jwk_not_acme : eq_text (text "JWK") (text "ACME") ≡ false
unfolding text eq_text
jwk_not_acme = refl

module _ (x : External) where
  open x use {Value, value_eq}

  -- No ACME provisioner is left.
  abbrev pub Allowed : Value → Type 0
  Allowed v = has_type x (text "ACME") v ≡ false

  Allowed-same : (v w : Value) → type_of x w ≡ type_of x v → Allowed v → Allowed w
  Allowed-same v w e h = rw e h

  Allowed-jwk : (w : Value) → type_of x w ≡ some (text "JWK") → Allowed w
  Allowed-jwk w e = rw e jwk_not_acme

  is_retired-Allowed : (policy : Policy) (v : Value) → is_retired x policy v ≡ ok false → Allowed v
  unfolding is_retired
  is_retired-Allowed policy v h = elim (Bool-cases (has_type x (text "ACME") v)) [
    | inl e ↦ let k : ok true ≡ ok false = rw (e, is_retired) at h in cc
    | inr e ↦ e
  ]

  pub ok-pair {ℓ κ} :
      {A : Type ℓ} {B : Type κ} (p : A × B) (a : A) (b : B) → ok p ≡ ok (a, b) → p.0 ≡ a
  ok-pair p a b h = ap (λ q. q.0) (ok-injective p (a, b) h)

  pub retired-Allowed :
      (policy : Policy) (items kept : List Value) (removed : List Text)
      → remove_retired_provisioners x policy items ≡ ok (kept, removed)
      → All Allowed kept
  unfolding remove_retired_provisioners
  retired-Allowed policy [] kept removed h =
      subst (All Allowed) (ok-pair ([], []) kept removed h) tt
  retired-Allowed policy (v ∷ items) kept removed h =
      let (r, e, h1) = >>=-eq-ok (is_retired x policy v) _ h in
      let ((later, names), e2, h2) = >>=-eq-ok (remove_retired_provisioners x policy items) _ h1 in
      let ih = retired-Allowed policy items later names e2 in
      let k = ok-pair _ kept removed h2 in
      elim (Bool-cases r) [
        | inl c ↦ let same : later ≡ kept = ground arith in subst (All Allowed) same ih
        | inr c ↦
            let same : v ∷ later ≡ kept = ground arith in
            subst (All Allowed) same (is_retired-Allowed policy v (e ∙ rw c refl), ih)
      ]

  options-Allowed :
      (user_p host_p : Provisioner) (name : Text) (v : Value) (path : Text) (w : Value) (b : Bool)
      → reconcile_options x user_p host_p name v path ≡ ok (w, b)
      → type_of x w ≡ type_of x v
  unfolding reconcile_options
  options-Allowed user_p host_p name v path w b h = elim (Bool-cases (eq_text name user_p.name)) [
    | inl e ↦ type-options x v user_p path w b (rw (e, reconcile_options) at h)
    | inr e ↦ elim (Bool-cases (eq_text name host_p.name)) [
      | inl f ↦ type-options x v host_p path w b (rw (e, f, reconcile_options) at h)
      | inr f ↦
          let k : ok (v, false) ≡ ok (w, b) = rw (e, f, reconcile_options) at h in
          ap (type_of x) (sym (ok-pair (v, false) w b k))
    ]
  ]

  claimed-Allowed :
      (user_p host_p : Provisioner) (path name : Text) (v w : Value) (b : Bool)
      (desired : List (Text × Value))
      → reconcile_claimed x user_p host_p path name v desired ≡ ok (w, b)
      → type_of x w ≡ type_of x v
  unfolding reconcile_claimed
  claimed-Allowed user_p host_p path name v w b desired h =
      let ((claimed, c), e, h1) =
        >>=-eq-ok (reconcile_provisioner_claims x v name desired path) _ h in
      let ((bound, d), f, h2) =
        >>=-eq-ok (reconcile_options x user_p host_p name claimed path) _ h1 in
      ap (type_of x) (sym (ok-pair (bound, c || d) w b h2))
      ∙ (options-Allowed user_p host_p name claimed path bound d f
          ∙ type-claims x v name desired path claimed c e)

  named-Allowed :
      (policy : Policy) (user_p host_p : Provisioner) (path name : Text) (v w : Value) (b : Bool)
      → reconcile_named x policy user_p host_p path name v ≡ ok (w, b)
      → Allowed v
      → Allowed w
  unfolding reconcile_named
  named-Allowed policy user_p host_p path name v w b h a =
      elim (Bool-cases (is_x509_provisioner x v)) [
        | inl e ↦
            let (desired, f, h1) =
              >>=-eq-ok (reconcile_live x policy v) _ (rw (e, reconcile_named) at h) in
            let jwk = Allowed-jwk desired (type-live x policy v desired f) in
            elim (Bool-cases (value_eq v desired)) [
              | inl c ↦ let same : v ≡ w = ground arith in subst Allowed same a
              | inr c ↦ let same : desired ≡ w = ground arith in subst Allowed same jwk
            ]
        | inr e ↦ elim (Option-cases (desired_claims x policy user_p host_p name)) [
          | inl f ↦
              let k : ok (v, false) ≡ ok (w, b) = rw (e, f, reconcile_named) at h in
              subst Allowed (ok-pair (v, false) w b k) a
          | inr (desired, f) ↦
              Allowed-same v w
                (claimed-Allowed user_p host_p path name v w b desired
                  (rw (e, f, reconcile_named) at h))
                a
        ]
      ]

  pub each-Allowed :
      (policy : Policy) (user_p host_p : Provisioner) (path : Text) (items swept : List Value)
      (updated : List Text)
      → reconcile_each x policy user_p host_p path items ≡ ok (swept, updated)
      → All Allowed items
      → All Allowed swept
  unfolding reconcile_each
  each-Allowed policy user_p host_p path [] swept updated h a =
      subst (All Allowed) (ok-pair ([], []) swept updated h) tt
  each-Allowed policy user_p host_p path (v ∷ items) swept updated h (a, rest) =
      elim (Option-cases (get_str x v (text "name"))) [
        | inl e ↦
            let ((later, more), k, h1) =
              >>=-eq-ok (reconcile_each x policy user_p host_p path items) _
                (rw (e, reconcile_each) at h) in
            subst (All Allowed) (ok-pair (v ∷ later, more) swept updated h1)
              (a, each-Allowed policy user_p host_p path items later more k rest)
        | inr (name, e) ↦
            let ((w, changed), f, h1) =
              >>=-eq-ok (reconcile_named x policy user_p host_p path name v) _
                (rw (e, reconcile_each) at h) in
            let ((later, more), k, h2) =
              >>=-eq-ok (reconcile_each x policy user_p host_p path items) _ h1 in
            subst (All Allowed) (ok-pair _ swept updated h2) (
              named-Allowed policy user_p host_p path name v w changed f a,
              each-Allowed policy user_p host_p path items later more k rest,
            )
      ]
