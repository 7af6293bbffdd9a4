-- ===== src/Runtime/Binding.antt =====
-- How runtime_provisioners.rs binds an SSH template to one public key.
use grafhome_ca.Policy.Checked.{◌>>=◌, ◌>>◌}
use grafhome_ca.Names.{parse_host_provisioner_name, parse_user_provisioner_name}
use grafhome_ca.Runtime.Claims.{object}
use grafhome_ca.Runtime.Live.{live_provisioners, provisioners_field, with_provisioners}
use grafhome_ca.Runtime.Removal.{is_text}
use grafhome_ca.Runtime.Install.{indices_from, is_named, item_at, put_at}
use grafhome_ca.Runtime.Enroll.{host_x509_deny_template, user_client_x509_deny_template}
use grafhome_ca.Policy.Duration.{and_then}
use grafhome_ca.Policy.Revoked.{fingerprint, public_key}
use grafhome_ca.Keys.{canonical_ssh_public_key, get_str, jwk_public_material}
use grafhome_ca.External.{External}
use grafhome_ca.Policy.Checked.{Checked, expect, lift}
use grafhome_ca.Runtime.Certificates.{first_line}
use grafhome_ca.Base.{
  Result, Text, eq_text, err, if◌then◌else◌, inl, inr, none, not, ok, second_word, some,
  starts_with, text, ◌&&◌, ◌++◌, ◌∷◌, validation, Error, List, Option, [], trim_start, ensure,
  ok_or, ℕ,
}

abbrev pub key_prefix : Text
key_prefix = text "{{/* grafhome-ca-ssh-key:"

abbrev pub key_suffix : Text
key_suffix = text " */}}"

unfoldable pub ssh_marker : Text → Text
ssh_marker key_blob = key_prefix ++ (key_blob ++ key_suffix)

-- What stands behind the marker's line feed.
unfoldable pub guard_rest : Text → Text
guard_rest key_blob =
    text "{{- if ne (b64enc (toString .Insecure.CR.Key.Marshal)) \""
    ++ (key_blob ++ text "\" }}{{ fail \"SSH public key does not match enrollment\" }}{{ end }}\n")

unfoldable pub guard : Text → Text
unfolding ssh_marker guard_rest
guard key_blob = ssh_marker key_blob ++ 10 ∷ guard_rest key_blob

-- The template bound to the key of the blob.
unfoldable pub bind_blob : Text → Text → Result Text
unfolding guard ssh_marker
bind_blob template key_blob = elim (first_line template) [
  | none ↦ ok (guard key_blob ++ template)
  | some line ↦
      if not (starts_with key_prefix line)
      then ok (guard key_blob ++ template)
      else if eq_text line (ssh_marker key_blob) && starts_with (guard key_blob) template
      then ok template
      else err (
          validation (text "renewal SSH template")
            (text "has an invalid or different SSH public-key binding"))
]

module _ (x : External) where
  open x use {Value, value_eq, is_object, get, string, insert}

  unfoldable pub ssh_public_key_blob : Text → Checked Text
  ssh_public_key_blob public_key = elim (canonical_ssh_public_key x public_key) [
    | inr message ↦ some (err (validation (text "enrollment SSH public key") message))
    | inl (canonical, fingerprint) ↦ expect (second_word canonical)
  ]

  unfoldable pub bind_ssh_template : Text → Text → Checked Text
  bind_ssh_template template public_key =
      ssh_public_key_blob public_key >>= λ key_blob. lift (bind_blob template key_blob)

  pub field_error : Text → Text → Text → Error
  field_error path name message =
      validation (provisioners_field path)
        (text "live enrollment provisioner " ++ (name ++ message))

  unfoldable pub existing_index : Text → Text → List ℕ → Result ℕ
  existing_index path name [] = err (field_error path name (text " is missing"))
  existing_index path name (index ∷ []) = ok index
  existing_index path name (index ∷ other ∷ more) =
      err (field_error path name (text " is duplicated"))

  -- The X.509 template for the kind of the name.
  unfoldable pub deny_template_for : Text → Result Text
  deny_template_for name = elim (parse_host_provisioner_name name) [
    | some host_name ↦ ok host_x509_deny_template
    | none ↦ elim (parse_user_provisioner_name name) [
      | some names ↦ ok user_client_x509_deny_template
      | none ↦ err (
          validation (text "ssh enrollment import")
            (text "provisioner " ++ (name ++ text " is not a Grafhome renewal provisioner")))
    ]
  ]

  -- `get_mut(key).and_then(Value::as_object_mut)`
  abbrev pub get_object : Value → Text → Option Value
  get_object v k = and_then (get v k) λ o. if is_object o then some o else none

  -- The options of the provisioner once the SSH template is bound.
  unfoldable pub bound_options : Text → Text → Value → Text → Text → Checked Value
  unfolding field_error deny_template_for
  bound_options path name options deny_template ssh_public_key = do
    let denied =
        insert options (text "x509") (object x ((text "template", string deny_template) ∷ []))
    inline ← lift (
        ok_or (get_object denied (text "ssh"))
          (field_error path name (text " has no inline SSH template")))
    template ← lift (
        ok_or (get_str x inline (text "template"))
          (field_error path name (text " must use an inline SSH template before import")))
    lift (
        ensure (starts_with (b'{' ∷ []) (trim_start template)) (
          field_error path name
            (text " must use a non-empty plain-text SSH template before import")))
    bound ← bind_ssh_template template ssh_public_key
    some (ok (insert denied (text "ssh") (insert inline (text "template") (string bound))))

  unfoldable pub bind_existing_renewal_provisioner :
      Text → Value → Text → Value → Text → Checked Value
  unfolding existing_index field_error bound_options
  bind_existing_renewal_provisioner path config name renewal_public_jwk ssh_public_key = do
    items ← lift (live_provisioners x path config)
    index ← lift (existing_index path name (indices_from (is_named x name) 0 items))
    found ← expect (item_at items index)
    lift (ensure (is_object found) (field_error path name (text " must be an object")))
    lift (
        ensure (is_text (text "JWK") (get_str x found (text "type")))
          (field_error path name (text " must have type JWK")))
    live_public ←
        lift (ok_or (get found (text "key")) (field_error path name (text " has no public key")))
    live_material ←
        lift (jwk_public_material x live_public (text "live provisioner " ++ (name ++ text ".key")))
    imported ← lift (jwk_public_material x renewal_public_jwk (text "imported renewal public JWK"))
    lift (
        ensure (value_eq live_material imported) (
          validation (text "ssh enrollment import")
            (text "export does not match live provisioner " ++ name)))
    options ← lift (
        ok_or (get_object found (text "options")) (
          field_error path name (
            text
              " has no inline SSH template; temporarily restore its policy entry and re-approve or repair it before import")))
    deny_template ← lift (deny_template_for name)
    bound ← bound_options path name options deny_template ssh_public_key
    some
        (ok (with_provisioners x config (put_at items index (insert found (text "options") bound))))
