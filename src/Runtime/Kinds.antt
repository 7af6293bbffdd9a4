-- ===== src/Runtime/Kinds.antt =====
-- No step of `reconcile_claims` changes the type of a provisioner, but for those rebuilt as JWK.
use grafhome_ca.Runtime.Live.{get-inserted}
use grafhome_ca.Names.{parse_x509_provisioner_name}
use grafhome_ca.Runtime.Certificates.{
  reconcile_live, declared, live_key, live_name, pinned_key, x509_provisioner, x509_template,
  x509_members,
}
use grafhome_ca.Keys.{get_str, parse_pem, to_pem}
use grafhome_ca.Runtime.Claims.{
  claims_of, object, reconcile_enrollment_options, reconcile_object, reconcile_provisioner_claims,
  enrollment_options, is_value,
}
use grafhome_ca.Policy.Model.{Policy, Provisioner, X509Cert}
use grafhome_ca.External.{External}
use grafhome_ca.Base.{
  >>-eq-ok, Bool, List, Option, Text, [], arith, ensure, eq_text, false, ok, refl, some, text, true,
  ◌∷◌, ◌≡◌, >>=-eq-ok, Option-cases, inr, ok_or, inl, Bool-cases, ap, sym, ◌∙◌, ok-injective,
}

claims_not_type : eq_text (text "claims") (text "type") ≡ false
unfolding text eq_text
claims_not_type = refl

options_not_type : eq_text (text "options") (text "type") ≡ false
unfolding text eq_text
options_not_type = refl

module _ (x : External) where
  open x use {
    Value, value_eq, is_object, get, string, insert, get-insert, is_object-insert, is_object-empty,
    as_str, as_str-string,
  }

  abbrev pub type_of : Value → Option Text
  type_of v = get_str x v (text "type")

  get_str-same : (v w : Value) (k : Text) → get v k ≡ get w k → get_str x v k ≡ get_str x w k
  unfolding get_str
  get_str-same v w k e = ground arith

  get_str-some :
      (v u : Value) (k t : Text) → get v k ≡ some u → as_str u ≡ some t → get_str x v k ≡ some t
  unfolding get_str
  get_str-some v u k t e f = ground arith

  type-insert :
      (o : Value) (k : Text) (v : Value)
      → is_object o ≡ true
      → eq_text k (text "type") ≡ false
      → type_of (insert o k v) ≡ type_of o
  type-insert o k v h e =
      let moved : get (insert o k v) (text "type") ≡ get o (text "type") =
        get-insert o k v (text "type") h ∙ rw e refl in
      get_str-same (insert o k v) o (text "type") moved

  object-is_object : (ms : List (Text × Value)) → is_object (object x ms) ≡ true
  object-is_object [] = is_object-empty
  object-is_object ((k, v) ∷ ms) = is_object-insert (object x ms) k v (object-is_object ms)

  pub type-claims :
      (v : Value) (name : Text) (desired : List (Text × Value)) (path : Text) (w : Value) (b : Bool)
      → reconcile_provisioner_claims x v name desired path ≡ ok (w, b)
      → type_of w ≡ type_of v
  unfolding reconcile_provisioner_claims
  type-claims v name desired path w b h =
      let (e, h1) = >>-eq-ok (ensure (is_object v) _) _ h in
      let (_, h2) = >>-eq-ok (ensure (is_object (claims_of x v)) _) _ h1 in
      let o : is_object v ≡ true = ground arith in
      let same : insert v (text "claims") (reconcile_object x (claims_of x v) desired).0 ≡ w =
        ground arith in
      rw (← same) (
        type-insert v (text "claims") (reconcile_object x (claims_of x v) desired).0 o
          claims_not_type)

  pub type-options :
      (v : Value) (p : Provisioner) (path : Text) (w : Value) (b : Bool)
      → reconcile_enrollment_options x v p path ≡ ok (w, b)
      → type_of w ≡ type_of v
  unfolding reconcile_enrollment_options
  type-options v p path w b h = elim (Option-cases (enrollment_options x p)) [
    | inl e ↦
        let k : ok (v, false) ≡ ok (w, b) = rw (e, reconcile_enrollment_options) at h in
        let same : v ≡ w = ground arith in ap type_of (sym same)
    | inr (options, e) ↦
        let (_, o, k) =
          >>=-eq-ok (ensure (is_object v) _) _ (rw (e, reconcile_enrollment_options) at h) in
        let o' : is_object v ≡ true = ground arith in
        let put = type-insert v (text "options") options o' options_not_type in
        elim (Bool-cases (is_value x options (get v (text "options")))) [
          | inl c ↦ let same : v ≡ w = ground arith in ap type_of (sym same)
          | inr c ↦
              let same : insert v (text "options") options ≡ w = ground arith in
              ap type_of (sym same) ∙ put
        ]
  ]

  object-type :
      (t : Text) (ms : List (Text × Value))
      → type_of (object x ((text "type", string t) ∷ ms)) ≡ some t
  object-type t ms =
      get_str-some (object x ((text "type", string t) ∷ ms)) (string t) (text "type") t
        (get-inserted x (object x ms) (text "type") (string t) (object-is_object ms))
        (as_str-string t)

  x509_provisioner-type :
      (key : Value) (cert : X509Cert) (pem : Text) (w : Value)
      → x509_provisioner x key cert pem ≡ ok w
      → type_of w ≡ some (text "JWK")
  unfolding x509_provisioner get_str
  x509_provisioner-type key cert pem w h =
      let (public, _, h1) = >>=-eq-ok (parse_pem x pem) _ h in
      let (template, _, h2) = >>=-eq-ok (x509_template x cert public) _ h1 in
      ap type_of (sym (ok-injective _ w h2))
      ∙ object-type (text "JWK") (x509_members x key cert template)

  pub type-live :
      (policy : Policy) (v w : Value)
      → reconcile_live x policy v ≡ ok w
      → type_of w ≡ some (text "JWK")
  unfolding reconcile_live
  type-live policy v w h =
      let ((host_name, certificate), _, h1) =
        >>=-eq-ok (ok_or (parse_x509_provisioner_name (live_name x v)) _) _ h in
      let (cert, _, h2) =
        >>=-eq-ok (declared x policy (live_name x v) host_name certificate) _ h1 in
      let (key, _, h3) = >>=-eq-ok (live_key x v) _ h2 in
      let (pinned, _, h4) = >>=-eq-ok (pinned_key x v) _ h3 in
      x509_provisioner-type key cert (to_pem x pinned) w h4
