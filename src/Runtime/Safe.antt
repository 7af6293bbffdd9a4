-- ===== src/Runtime/Safe.antt =====
-- The guarantee of `reconcile_claims`: who may issue X.509 certificates afterwards.
use grafhome_ca.Runtime.Live.{live-with_provisioners, live_provisioners}
use grafhome_ca.External.Sample.{listed}
use grafhome_ca.Policy.Fields.{host_bootstrap, user_enrollment}
use grafhome_ca.Runtime.Reconcile.{
  is_deny_template, is_x509_provisioner, has_type, is_offender, reconcile_authority_policy,
  remove_retired_provisioners, require_x509_deny, unnamed,
}
use grafhome_ca.Keys.{get_str}
use grafhome_ca.Runtime.Removal.{is_some_and}
use grafhome_ca.Runtime.Swept.{Allowed, each-Allowed, retired-Allowed}
use grafhome_ca.Runtime.Denying.{Denies, is_deny_template-Denies}
use grafhome_ca.Runtime.Certificates.{template_of}
use grafhome_ca.Names.{parse_x509_provisioner_name}
use grafhome_ca.Runtime.Enroll.{active_provisioner}
use grafhome_ca.Policy.Model.{Policy}
use grafhome_ca.External.{External}
use grafhome_ca.Runtime.Sweep.{ClaimsReconciliation, reconcile_claims, reconcile_each}
use mathlib.Core.Path.{subst}
use grafhome_ca.Base.{
  Option-cases, eq_text_refl, some, >>-eq-ok, >>=-eq-ok, All, Bool, Bool-cases, List, Result, Text,
  [], ap, arith, false, filter, inr, is_empty, map, ok, ok-injective, refl, text, true, ◌∷◌, ◌≡◌,
  All-both, inl,
}

module _ (x : External) where
  open x use {Value, get}

  abbrev TypeIs : Value → Text → Type 0
  TypeIs v t = get_str x v (text "type") ≡ some t

  -- The name is one that enrollment gives to an X.509 certificate.
  abbrev IsPinned : Value → Type 0
  IsPinned v =
      (name host certificate : Text) × (get_str x v (text "name") ≡ some name)
      × (parse_x509_provisioner_name name ≡ some (host, certificate))

  -- The X.509 template of the provisioner does nothing but fail.
  pub record Refuses (v : Value) : Type 0 where
    pub options : Value
    pub its_options : get v (text "options") ≡ some options
    pub x509_options : Value
    pub its_x509 : get options (text "x509") ≡ some x509_options
    pub template : Text
    pub its_template : get_str x x509_options (text "template") ≡ some template
    pub denies : Denies template

  -- Not of type ACME; and of type JWK only under the name of an X.509 certificate, or with an X.509
  -- template that does nothing but fail.
  abbrev pub IsHarmless : Value → Type 0
  IsHarmless v = (¬ TypeIs v (text "ACME")) × (TypeIs v (text "JWK") → (¬ IsPinned v) → Refuses v)

  has_type-true : (v : Value) (t : Text) → TypeIs v t → has_type x t v ≡ true
  has_type-true v t h = rw h (eq_text_refl t)

  has_type-false : (v : Value) (t : Text) → has_type x t v ≡ false → ¬ TypeIs v t
  has_type-false v t h k = let yes = has_type-true v t k in cc

  not_pinned : (v : Value) → (¬ IsPinned v) → is_x509_provisioner x v ≡ false
  unfolding is_x509_provisioner
  not_pinned v h = elim (Option-cases (get_str x v (text "name"))) [
    | inl e ↦ rw e (ground arith)
    | inr (name, e) ↦ elim (Option-cases (parse_x509_provisioner_name name)) [
      | inl k ↦ rw (e, is_some_and, k) (ground arith)
      | inr ((host, certificate), k) ↦ absurd (h (name, host, certificate, e, k))
    ]
  ]

  template_of-Refuses : (v : Value) (t : Text) → template_of x v ≡ some t → Denies t → Refuses v
  unfolding template_of
  template_of-Refuses v t h d = elim (Option-cases (get v (text "options"))) [
    | inl e ↦ cc (rw e at h)
    | inr (options, e) ↦ elim (Option-cases (get options (text "x509"))) [
      | inl k ↦ cc (rw (e, k) at h)
      | inr (x509_options, k) ↦ record {
        options = options;
        its_options = e;
        x509_options = x509_options;
        its_x509 = k;
        template = t;
        its_template = rw (e, k) at h;
        denies = d;
      }
    ]
  ]

  not_offender-Refuses :
      (v : Value)
      → is_offender x v ≡ false
      → has_type x (text "JWK") v ≡ true
      → is_x509_provisioner x v ≡ false
      → Refuses v
  unfolding is_offender
  not_offender-Refuses v h j n = elim (Option-cases (template_of x v)) [
    | inl e ↦ cc (rw (j, n, e) at h)
    | inr (t, e) ↦ elim (Bool-cases (is_deny_template t)) [
      | inl d ↦ template_of-Refuses v t e (is_deny_template-Denies t d)
      | inr d ↦ cc (rw (j, n, e, d) at h)
    ]
  ]

  harmless : (v : Value) → Allowed x v → is_offender x v ≡ false → IsHarmless v
  harmless v a o = (
    has_type-false v (text "ACME") a,
    λ j n. not_offender-Refuses v o (has_type-true v (text "JWK") j) (not_pinned v n),
  )

  filter-empty {ℓ} :
      {A : Type ℓ} (p : A → Bool) (xs : List A)
      → is_empty (filter p xs) ≡ true
      → All (λ a. p a ≡ false) xs
  filter-empty p [] h = tt
  filter-empty p (a ∷ xs) h = elim (Bool-cases (p a)) [
    | inl e ↦ let k : false ≡ true = rw e at h in cc
    | inr e ↦ (e, filter-empty p xs (rw e at h))
  ]

  is_empty-map {ℓ κ} :
      {A : Type ℓ} {B : Type κ} (f : A → B) (xs : List A) → is_empty (map f xs) ≡ is_empty xs
  is_empty-map f [] = refl
  is_empty-map f (a ∷ xs) = refl

  denied :
      (items : List Value) (path : Text)
      → require_x509_deny x items path ≡ ok tt
      → All (λ v. is_offender x v ≡ false) items
  unfolding require_x509_deny
  denied items path h =
      let offenders = filter (is_offender x) items in
      let k = is_empty-map (λ v. unnamed (get_str x v (text "name"))) offenders in
      filter-empty (is_offender x) items (ground arith)

  -- When the pass over the claims succeeds, the configuration that it returns lists provisioners
  -- none of which is of type ACME, and of which every JWK provisioner without the name of an X.509
  -- certificate has an X.509 template at options.x509.template that opens with a call of `fail`,
  -- closes, and opens no second pair of braces.
  pub reconcile_claims-IsHarmless :
      (policy : Policy) (path : Text) (config : Value) (rendered : Result Value)
      (r : ClaimsReconciliation Value)
      → reconcile_claims x policy path config rendered ≡ ok r
      → (items : List Value) × (live_provisioners x path r.config ≡ ok items) × All IsHarmless items
  unfolding reconcile_claims
  reconcile_claims-IsHarmless policy path config rendered r h =
      let (user_p, _, h1) = >>=-eq-ok (active_provisioner policy user_enrollment) _ h in
      let (host_p, _, h2) = >>=-eq-ok (active_provisioner policy host_bootstrap) _ h1 in
      let ((governed, _), _, h3) =
        >>=-eq-ok (reconcile_authority_policy x config rendered path) _ h2 in
      let (items, listed, h4) = >>=-eq-ok (live_provisioners x path governed) _ h3 in
      let ((kept, names), retired, h5) =
        >>=-eq-ok (remove_retired_provisioners x policy items) _ h4 in
      let ((swept, updated), passed, h6) =
        >>=-eq-ok (reconcile_each x policy user_p host_p path kept) _ h5 in
      let (deny, h7) = >>-eq-ok (require_x509_deny x swept path) _ h6 in
      let same = ap (λ s. s.config) (ok-injective _ r h7) in
      let allowed =
        each-Allowed x policy user_p host_p path kept swept updated passed
          (retired-Allowed x policy items kept names retired) in
      (
        swept,
        subst (λ c. live_provisioners x path c ≡ ok swept) same
            (live-with_provisioners x path governed items swept listed),
        All-both harmless swept allowed (denied swept path deny),
      )
