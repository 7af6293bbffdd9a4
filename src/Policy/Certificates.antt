-- ===== src/Policy/Certificates.antt =====
-- `Policy::validate_x509` of policy/mod.rs: the certificates that the host manifests declare.
use grafhome_ca.Identity.{valid_dns_name, valid_host_identity}
use grafhome_ca.Policy.Relations.{same_pair}
use grafhome_ca.Policy.Duration.{duration_at_most, validate_step_duration}
use grafhome_ca.Policy.Fields.{ca_api, ca_origin, host_policy_field}
use grafhome_ca.Policy.Model.{Policy, X509Cert}
use grafhome_ca.Base.{
  Bool, Error, List, Option, Result, Text, [], any, contains_byte, contains_text, eq_text, false,
  if◌then◌else◌, is_empty, none, ok, some, starts_with, text, ◌++◌, ◌||◌, ◌∷◌, ensure, not,
  validation, refuse,
}
use grafhome_ca.Policy.Checked.{◌>>=◌, ◌>>◌, Checked, accepted, lift}

-- `san_owner`: the host behind each name, the last inserted first.
abbrev pub Owners : Type 0
Owners = List (Text × Text)

unfoldable pub owner_of : Owners → Text → Option Text
owner_of [] name = none
owner_of ((n, host) ∷ rest) name = if eq_text n name then some host else owner_of rest name

invalid : X509Cert → Text → Text → Error
invalid c key message =
    validation (host_policy_field c.host (text "x509_certs." ++ (c.name ++ (text "." ++ key))))
      message

-- `insert(name, host)` returned another host.
unfoldable pub check_owner : X509Cert → Text → Option Text → Result (Unit {0})
unfolding invalid
check_owner c name none = ok tt
check_owner c name (some owner) = ensure (eq_text owner c.host) (
    invalid c (text "names") (
      name
      ++ (text " already belongs to host "
          ++ (owner ++ text "; a name may belong to only one host"))))

-- One name of a certificate, before it is inserted.
unfoldable pub check_name : X509Cert → List Text → Owners → Text → Checked (Unit {0})
unfolding invalid check_owner
check_name c own owners name = do
  lift (
      refuse (contains_byte b'*' name)
        (invalid c (text "names") (text "wildcard name " ++ (name ++ text " is not allowed"))))
  lift (
      ensure (valid_dns_name name)
        (invalid c (text "names") (name ++ text " must be a lowercase DNS name")))
  lift (refuse (contains_text own name) (invalid c (text "names") (text "duplicate name " ++ name)))
  lift (check_owner c name (owner_of owners name))

-- The loop over the names of one certificate; `own` holds its names before.
unfoldable pub check_names : X509Cert → List Text → Owners → List Text → Checked Owners
unfolding check_name
check_names c own owners [] = lift (ok owners)
check_names c own owners (name ∷ names) =
    check_name c own owners name >>= λ _. check_names c (name ∷ own) ((name, c.host) ∷ owners) names

abbrev pub after_renew_invalid : List Text → Bool
after_renew_invalid [] = false
after_renew_invalid (program ∷ arguments) =
    not (starts_with (b'/' ∷ []) program)
    || any (λ a. is_empty a || contains_byte 0 a) (program ∷ arguments)

abbrev pub x509_max_ttl : Text
x509_max_ttl = text "720h"

-- What is checked of a certificate before its names.
unfoldable pub check_declared : X509Cert → List Text → List (Text × Text) → Checked (Unit {0})
unfolding invalid
check_declared c hosts declared = do
  lift (
      ensure (contains_text hosts c.host)
        (invalid c (text "host") (text "unknown host " ++ c.host)))
  lift (
      ensure (valid_host_identity c.name)
        (invalid c (text "name") (text "must match [A-Za-z0-9._-]+")))
  lift (
      refuse (any (same_pair (c.host, c.name)) declared)
        (invalid c (text "name") (text "duplicate certificate name")))
  lift (refuse (is_empty c.names) (invalid c (text "names") (text "must list at least one name")))

-- What is checked of a certificate behind its names.
unfoldable pub check_lifecycle : X509Cert → Checked (Unit {0})
unfolding invalid
check_lifecycle c = do
  validate_step_duration (text "policy/hosts" ++ (text "/" ++ (c.host ++ text ".toml")))
      (text "x509_certs." ++ c.name) (text "ttl") c.ttl
  lift (
      ensure (duration_at_most c.ttl x509_max_ttl)
        (invalid c (text "ttl") (text "must not exceed " ++ x509_max_ttl)))
  lift (
      ensure (eq_text c.ca_endpoint ca_api || eq_text c.ca_endpoint ca_origin)
        (invalid c (text "ca_endpoint") (text "must be ca_api or ca_origin")))
  lift (
      refuse (after_renew_invalid c.after_renew) (
        invalid c (text "after_renew")
          (text "must be an argv whose program is an absolute path with no empty arguments")))

-- The loop over the certificates.
unfoldable pub check_certs :
    List Text → Owners → List (Text × Text) → List X509Cert → Checked (Unit {0})
unfolding check_declared check_names check_lifecycle
check_certs hosts owners declared [] = accepted
check_certs hosts owners declared (c ∷ rest) = do
  check_declared c hosts declared
  owners' ← check_names c [] owners c.names
  check_lifecycle c
  check_certs hosts owners' ((c.host, c.name) ∷ declared) rest

unfoldable pub validate_x509 : Policy → List Text → Checked (Unit {0})
unfolding check_certs
validate_x509 policy hosts = check_certs hosts [] [] policy.x509_certs
