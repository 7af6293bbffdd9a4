-- ===== src/Runtime/Reconcile.antt =====
-- `reconcile_claims` of runtime_provisioners.rs, and what it calls. The authority policy that
-- render.rs renders is given.
use grafhome_ca.Runtime.Live.{provisioners_field}
use grafhome_ca.Names.{parse_x509_provisioner_name}
use grafhome_ca.Registry.Store.{live}
use grafhome_ca.Runtime.Claims.{is_value}
use grafhome_ca.Runtime.Removal.{is_some_and, is_text}
use grafhome_ca.Runtime.Certificates.{is_revoked, template_of}
use grafhome_ca.Keys.{get_str}
use grafhome_ca.External.{External}
use grafhome_ca.Policy.Model.{Policy}
use grafhome_ca.Policy.Duration.{and_then}
use grafhome_ca.Base.{
  ◌>>=◌, ◌>>◌, Bool, List, Option, Result, Text, [], ends_with, false, filter, if◌then◌else◌,
  is_empty, map, none, not, some, suc, text, trim, true, ◌&&◌, ◌++◌, ◌==◌, ◌||◌, ◌∷◌, ensure, ok,
  ok_or, starts_with, ℕ, validation,
}

-- `matches("{{").count()`; the flag says that the byte before is an open brace not yet counted.
unfoldable pub count_opened : Bool → Text → ℕ
count_opened opened [] = 0
count_opened opened (b ∷ s) =
    let pair = opened && b == b'{' in
    let rest = count_opened (not opened && b == b'{') s in if pair then suc rest else rest

-- Of x509.rs
unfoldable pub is_deny_template : Text → Bool
unfolding count_opened
is_deny_template template =
    starts_with (text "{{ fail ") (trim template)
    && ends_with (text "}}") (trim template)
    && count_opened false (trim template) == 1

abbrev pub unnamed : Option Text → Text
unnamed none = text "<unnamed>"
unnamed (some name) = name

abbrev join : List Text → Text
join [] = []
join (t ∷ []) = t
join (t ∷ u ∷ rest) = t ++ (text ", " ++ join (u ∷ rest))

-- The paths of the fields that the site policy owns.
abbrev pub managed_paths : List (List Text)
managed_paths =
    (text "x509" ∷ text "allow" ∷ text "dns" ∷ [])
    ∷ (text "x509" ∷ text "allowWildcardNames" ∷ [])
    ∷ (text "ssh" ∷ text "user" ∷ text "allow" ∷ text "principal" ∷ [])
    ∷ (text "ssh" ∷ text "host" ∷ text "allow" ∷ text "dns" ∷ [])
    ∷ (text "ssh" ∷ text "host" ∷ text "allow" ∷ text "ip" ∷ [])
    ∷ []

abbrev dotted : List Text → Text
dotted [] = []
dotted (t ∷ []) = t
dotted (t ∷ u ∷ rest) = t ++ (text "." ++ dotted (u ∷ rest))

module _ (x : External) where
  open x use {Value, value_eq, is_object, get, string, empty_object, insert}

  abbrev pub has_type : Text → Value → Bool
  has_type t v = is_text t (get_str x v (text "type"))

  unfoldable pub is_x509_provisioner : Value → Bool
  is_x509_provisioner v =
      has_type (text "JWK") v
      && is_some_and (get_str x v (text "name"))
          (λ name. elim (parse_x509_provisioner_name name) [ none ↦ false | some parsed ↦ true ])

  unfoldable pub is_retired : Policy → Value → Result Bool
  is_retired policy v =
      if has_type (text "ACME") v
      then ok true
      else if is_x509_provisioner v
      then is_revoked x policy v
      else ok false

  -- What is kept, and the names of what is not.
  unfoldable pub remove_retired_provisioners : Policy → List Value → Result (List Value × List Text)
  unfolding is_retired
  remove_retired_provisioners policy [] = ok ([], [])
  remove_retired_provisioners policy (v ∷ items) = do
    retired ← is_retired policy v
    (kept, removed) ← remove_retired_provisioners policy items
    ok (
        if retired
        then (kept, unnamed (get_str x v (text "name")) ∷ removed)
        else (v ∷ kept, removed))

  -- A JWK provisioner that could issue X.509 certificates.
  unfoldable pub is_offender : Value → Bool
  is_offender v =
      has_type (text "JWK") v
      && not (is_x509_provisioner v)
      && not (elim (template_of x v) [ none ↦ false | some t ↦ is_deny_template t ])

  unfoldable pub require_x509_deny : List Value → Text → Result (Unit {0})
  unfolding is_offender
  require_x509_deny items path =
      let offenders = map (λ v. unnamed (get_str x v (text "name"))) (filter is_offender items) in
      ensure (is_empty offenders) (
        validation (provisioners_field path)
          (text "JWK provisioners lack the X.509 deny template: " ++ join offenders))

  unfoldable pub reconcile_managed_value : Value → Value → List Text → Text → Result (Value × Bool)
  reconcile_managed_value live desired [] path = ok (live, false)
  reconcile_managed_value live desired (field ∷ rest) path = do
    wanted ← ok_or (get desired field) (
        validation (text "rendered authority policy:" ++ dotted (field ∷ rest))
          (text "missing managed field"))
    ensure (is_object live) (
        validation (path ++ (text ":authority.policy." ++ dotted (field ∷ rest)))
          (text "expected object"))
    if is_empty rest
        then ok (
            if is_value x wanted (get live field)
            then (live, false)
            else (insert live field wanted, true))
        else (reconcile_managed_value
              (elim (get live field) [ none ↦ empty_object | some child ↦ child ]) wanted rest path
            >>= λ (child, changed). ok (insert live field child, changed))

  -- The loop over the paths.
  unfoldable pub reconcile_paths : Value → Value → List (List Text) → Text → Result (Value × Bool)
  reconcile_paths live desired [] path = ok (live, false)
  reconcile_paths live desired (managed ∷ rest) path = do
    (next, changed) ← reconcile_managed_value live desired managed path
    (last, more) ← reconcile_paths next desired rest path
    ok (last, changed || more)

  unfoldable pub reconcile_authority_policy : Value → Result Value → Text → Result (Value × Bool)
  unfolding reconcile_paths
  reconcile_authority_policy config rendered path = do
    desired ← rendered
    authority ←
        ok_or (and_then (get config (text "authority")) (λ a. if is_object a then some a else none))
          (validation (path ++ text ":authority") (text "expected object"))
    (policy, changed) ←
        reconcile_paths
          (elim (get authority (text "policy")) [ none ↦ empty_object | some live ↦ live ]) desired
          managed_paths path
    ok (insert config (text "authority") (insert authority (text "policy") policy), changed)
