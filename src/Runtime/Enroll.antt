-- ===== src/Runtime/Enroll.antt =====
-- The enrollment flows of runtime_provisioners.rs. `ca.json`, the public key and the template are
-- given as they were read.
use grafhome_ca.Runtime.Install.{reconcile_required_provisioner, upsert_renewal_provisioner}
use grafhome_ca.Policy.Revoked.{public_key}
use grafhome_ca.Runtime.Live.{live_provisioners, with_provisioners}
use grafhome_ca.Runtime.Removal.{is_text}
use grafhome_ca.Runtime.Claims.{
  host_claims, host_renewal_claims, object, template_options, user_claims, user_renewal_claims,
}
use grafhome_ca.Keys.{get_str, validate_public_jwk}
use grafhome_ca.Policy.Fields.{ca_policy_field, host_bootstrap, user_enrollment}
use grafhome_ca.Base.{
  List, Option, Result, Text, [], eq_text, not, ok, text, ◌&&◌, ◌∷◌, filter, find, ok_or, some,
  validation,
}
use grafhome_ca.External.{External}
use grafhome_ca.Policy.Model.{is_active, Policy, Provisioner}
use grafhome_ca.Policy.Checked.{◌>>=◌, Checked, lift}

unfoldable pub optional_active_provisioner : Policy → Text → Option Provisioner
optional_active_provisioner policy role =
    find (λ p. eq_text p.role role && is_active p.status) policy.provisioners

unfoldable pub active_provisioner : Policy → Text → Result Provisioner
active_provisioner policy role = ok_or (optional_active_provisioner policy role) (
    validation (ca_policy_field (text "provisioners") role (text "role"))
      (text "missing active provisioner"))

abbrev pub user_client_x509_deny_template : Text
user_client_x509_deny_template =
    text "{{ fail \"x509 issuance disabled for Grafhome user renewal provisioner\" }}"

abbrev pub host_x509_deny_template : Text
host_x509_deny_template =
    text "{{ fail \"x509 issuance disabled for Grafhome host renewal provisioner\" }}"

module _ (x : External) where
  open x use {Value, get, string}

  -- The object that both renewal provisioners are.
  abbrev pub renewal_provisioner : Value → Text → Text → Text → List (Text × Value) → Value
  renewal_provisioner key name deny template claims = object x (
      (text "type", string (text "JWK"))
      ∷ (text "name", string name)
      ∷ (text "key", key)
      ∷ (text "claims", object x claims)
      ∷ (text "options", template_options x deny template)
      ∷ [])

  unfoldable pub user_client_provisioner : Value → Text → Text → List (Text × Value) → Value
  user_client_provisioner key name template claims =
      renewal_provisioner key name user_client_x509_deny_template template claims

  unfoldable pub host_provisioner : Value → Text → Text → List (Text × Value) → Value
  host_provisioner key name template claims =
      renewal_provisioner key name host_x509_deny_template template claims

  -- `validate_public_jwk` on the file, whose value is kept.
  abbrev pub read_public_jwk : Value → Text → Checked Value
  read_public_jwk key key_path = lift (validate_public_jwk x key key_path) >>= λ _. some (ok key)

  -- `retain` of what is not SSHPOP
  unfoldable pub without_sshpop : List Value → List Value
  without_sshpop items =
      filter (λ v. not (is_text (text "SSHPOP") (get_str x v (text "type")))) items

  unfoldable pub reconcile_user_client :
      Policy → Text → Value → Text → Value → Text → Text → Checked Value
  reconcile_user_client policy path config key_path public_key name template = do
    key ← read_public_jwk public_key key_path
    p ← lift (active_provisioner policy user_enrollment)
    items ← lift (live_provisioners x path config)
    reconciled ← reconcile_required_provisioner x path items p (user_claims x p)
    let desired = user_client_provisioner key name template (user_renewal_claims x policy p)
    installed ← upsert_renewal_provisioner x path reconciled desired
    some (ok (with_provisioners x config installed))

  unfoldable pub reconcile_host : Policy → Text → Value → Text → Value → Text → Text → Checked Value
  reconcile_host policy path config key_path public_key name template = do
    key ← read_public_jwk public_key key_path
    p ← lift (active_provisioner policy host_bootstrap)
    items ← lift (live_provisioners x path config)
    reconciled ← reconcile_required_provisioner x path (without_sshpop items) p (host_claims x p)
    let desired = host_provisioner key name template (host_renewal_claims x policy p)
    installed ← upsert_renewal_provisioner x path reconciled desired
    some (ok (with_provisioners x config installed))

  -- Of runtime_provisioners.rs
  unfoldable pub reconcile_x509 : Text → Value → Value → Checked Value
  reconcile_x509 path config desired = do
    items ← lift (live_provisioners x path config)
    installed ← upsert_renewal_provisioner x path items desired
    some (ok (with_provisioners x config installed))
