-- ===== src/Runtime/Claims.antt =====
-- The claims and options that runtime_provisioners.rs keeps on live provisioners.
use grafhome_ca.Registry.Store.{live}
use grafhome_ca.Policy.Fields.{host_bootstrap, user_enrollment}
use grafhome_ca.Base.{◌>>=◌, ◌>>◌, ensure, validation, ok, eq_text, if◌then◌else◌}
use grafhome_ca.Policy.Duration.{step_max_ttl}
use grafhome_ca.Runtime.Live.{provisioners_field}
use grafhome_ca.Policy.Model.{Policy, Provisioner, renewal_default_ttl, renewal_max_ttl}
use grafhome_ca.External.{External}
use grafhome_ca.Base.{
  Bool, List, Option, Result, Text, [], false, none, some, text, true, ◌++◌, ◌∷◌,
}

module _ (x : External) where
  open x use {Value, value_eq, is_object, get, string, empty_object, insert, bool}

  -- `json!({...})` of members in order
  abbrev pub object : List (Text × Value) → Value
  object [] = empty_object
  object ((k, v) ∷ rest) = insert (object rest) k v

  -- `== Some(value)`
  abbrev pub is_value : Value → Option Value → Bool
  is_value v none = false
  is_value v (some w) = value_eq w v

  unfoldable pub user_claims_for : Text → Text → List (Text × Value)
  user_claims_for default_ttl max_ttl =
      (text "defaultUserSSHCertDuration", string default_ttl)
      ∷ (text "maxUserSSHCertDuration", string (step_max_ttl max_ttl))
      ∷ (text "enableSSHCA", bool true)
      ∷ []

  unfoldable pub user_claims : Provisioner → List (Text × Value)
  user_claims p = user_claims_for p.default_ttl p.max_ttl

  unfoldable pub user_renewal_claims : Policy → Provisioner → List (Text × Value)
  user_renewal_claims policy p = user_claims_for (renewal_default_ttl p) (renewal_max_ttl policy p)

  unfoldable pub host_claims_for : Text → Text → List (Text × Value)
  host_claims_for default_ttl max_ttl =
      (text "defaultHostSSHCertDuration", string default_ttl)
      ∷ (text "maxHostSSHCertDuration", string (step_max_ttl max_ttl))
      ∷ (text "enableSSHCA", bool true)
      ∷ []

  unfoldable pub host_claims : Provisioner → List (Text × Value)
  host_claims p = host_claims_for p.default_ttl p.max_ttl

  unfoldable pub host_renewal_claims : Policy → Provisioner → List (Text × Value)
  host_renewal_claims policy p = host_claims_for (renewal_default_ttl p) (renewal_max_ttl policy p)

  -- The loop over the desired members: the map, and whether it changed.
  unfoldable pub reconcile_object : Value → List (Text × Value) → Value × Bool
  reconcile_object live [] = (live, false)
  reconcile_object live ((key, value) ∷ rest) = elim (is_value value (get live key)) [
    | true ↦ reconcile_object live rest
    | false ↦ ((reconcile_object (insert live key value) rest).0, true)
  ]

  -- `object.entry("claims").or_insert_with(...)`
  abbrev pub claims_of : Value → Value
  claims_of provisioner = elim (get provisioner (text "claims")) [
    | none ↦ empty_object
    | some claims ↦ claims
  ]

  unfoldable pub reconcile_provisioner_claims :
      Value → Text → List (Text × Value) → Text → Result (Value × Bool)
  reconcile_provisioner_claims provisioner name desired path = do
    ensure (is_object provisioner) (
        validation (provisioners_field path)
          (text "provisioner " ++ (name ++ text " must be an object")))
    ensure (is_object (claims_of provisioner)) (
        validation (provisioners_field path)
          (text "provisioner " ++ (name ++ text " claims must be an object")))
    let (claims, changed) = reconcile_object (claims_of provisioner) desired
    ok (insert provisioner (text "claims") claims, changed)

-- The templates of an enrollment provisioner: X.509 and SSH.
abbrev pub user_enrollment_x509_deny_template : Text
user_enrollment_x509_deny_template =
    text "{{ fail \"x509 issuance disabled for Grafhome user enrollment provisioner\" }}"

abbrev pub host_bootstrap_x509_deny_template : Text
host_bootstrap_x509_deny_template =
    text "{{ fail \"x509 issuance disabled for Grafhome host bootstrap provisioner\" }}"

-- The two SSH templates differ in the type alone.
abbrev enrollment_ssh_template : Text → Text
enrollment_ssh_template kind =
    text
      "{{- if ne (b64enc (toString .Insecure.CR.Key.Marshal)) (toString .Token.user.grafhomeSSHPublicKey) }}{{ fail \"SSH public key does not match enrollment\" }}{{ end }}\n{\n  \"type\": \""
    ++ (kind
        ++ text
            "\",\n  \"keyId\": {{ toJson .KeyID }},\n  \"principals\": {{ toJson .Principals }},\n  \"criticalOptions\": {{ toJson .CriticalOptions }},\n  \"extensions\": {{ toJson .Extensions }}\n}\n")

abbrev pub user_enrollment_ssh_template : Text
user_enrollment_ssh_template = enrollment_ssh_template (text "user")

abbrev pub host_bootstrap_ssh_template : Text
host_bootstrap_ssh_template = enrollment_ssh_template (text "host")

module _ (x : External) where
  open x use {Value, is_object, get, string, empty_object, insert}

  abbrev pub template_options : Text → Text → Value
  template_options x509_text ssh_text = object x (
      (text "x509", object x ((text "template", string x509_text) ∷ []))
      ∷ (text "ssh", object x ((text "template", string ssh_text) ∷ []))
      ∷ [])

  unfoldable pub enrollment_options : Provisioner → Option Value
  enrollment_options p =
      if eq_text p.role user_enrollment
      then some (template_options user_enrollment_x509_deny_template user_enrollment_ssh_template)
      else if eq_text p.role host_bootstrap
      then some (template_options host_bootstrap_x509_deny_template host_bootstrap_ssh_template)
      else none

  unfoldable pub reconcile_enrollment_options : Value → Provisioner → Text → Result (Value × Bool)
  reconcile_enrollment_options live p path = elim (enrollment_options p) [
    | none ↦ ok (live, false)
    | some options ↦
        ensure (is_object live) (
          validation (provisioners_field path)
            (text "provisioner " ++ (p.name ++ text " must be an object")))
        >>= λ _. ok (
            if is_value x options (get live (text "options"))
            then (live, false)
            else (insert live (text "options") options, true))
  ]
