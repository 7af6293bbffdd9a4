-- ===== src/Authority/Commands.antt =====
-- `ssh revoke user`, `ssh revoke host` and `x509 revoke` of the command line, behind the CA lock.
use grafhome_ca.Policy.Revoked.{reason}
use grafhome_ca.Base.{
  Bool, List, Option, Result, Text, [], dedup, eq_text, false, filter, is_empty, none, not, ok,
  some, sort_texts, text, trim, validation, ◌++◌, ◌∷◌, ensure, refuse,
}
use grafhome_ca.Authority.Action.{Action, pass, modify, asks, ◌>>=◌, ◌>>◌}
use grafhome_ca.Authority.Site.{Site, load_registry, read_config}
use grafhome_ca.Authority.Revoke.{commit_revocation, validate_revocation_reason}
use grafhome_ca.Authority.Coverage.{
  identity_of_user, identity_of_x509, identity_on_host, live_enrollment_inventory,
}
use grafhome_ca.Authority.Machine.{Disk, Machine}
use grafhome_ca.External.{External}
use grafhome_ca.Names.{
  host_provisioner_name, user_provisioner_name, user_provisioner_prefix,
  user_provisioner_host_suffix, x509_provisioner_name, x509_identity, parse_user_provisioner_name,
}
use grafhome_ca.Registry.Store.{records_for_host, records_for_user, records_for_x509}
use grafhome_ca.Runtime.Removal.{remove_exact, remove_host, remove_user}
use grafhome_ca.Identity.{valid_host_identity}

-- The user of a name, and its host.
abbrev is_user_template : Text → Option (Text × Text) → Bool
is_user_template user none = false
is_user_template user (some (u, h)) = eq_text u user

abbrev is_host_template : Text → Option (Text × Text) → Bool
is_host_template host none = false
is_host_template host (some (u, h)) = eq_text h host

module _ {V : Type 0} (machine : Machine) where
  unfoldable pub matching_provisioner_templates : (Text → Bool) → Action (Disk V) (List Text)
  matching_provisioner_templates matches = do
    pass machine.read_templates
    asks (λ disk. some (ok (filter matches disk.templates)))

  -- The loop over the names.
  unfoldable pub remove_each : List Text → Action (Disk V) (Unit {0})
  remove_each [] = pass (ok tt)
  remove_each (name ∷ names) =
      pass (machine.remove_template name)
      >> (modify
            (λ disk. record disk { templates = filter (λ t. not (eq_text t name)) disk.templates })
          >> remove_each names)

  unfoldable pub remove_provisioner_templates : List Text → Action (Disk V) (Unit {0})
  unfolding remove_each
  remove_provisioner_templates names = remove_each (dedup (sort_texts names))

module _ (x : External) (machine : Machine) where
  open x use {Value}

  module _ (site : Site Value) where
    unfoldable pub user_templates : Text → Option Text → Action (Disk Value) (List Text)
    unfolding matching_provisioner_templates
    user_templates user_name (some host) = pass (ok (user_provisioner_name user_name host ∷ []))
    user_templates user_name none =
        matching_provisioner_templates machine
          (λ name. is_user_template user_name (parse_user_provisioner_name name))

    -- `match host` in the closure
    remove_for_user : Text → Option Text → Value → Result (Value × List Text)
    remove_for_user user_name (some host) config =
        remove_exact x site.ca_json_path config (user_provisioner_name user_name host)
    remove_for_user user_name none config =
        remove_user x site.ca_json_path config (user_provisioner_prefix user_name)

    unfoldable pub revoke_user : Text → Option Text → Option Text → Action (Disk Value) (Unit {0})
    unfolding remove_for_user
    revoke_user user_name host reason = do
      pass (
          refuse (is_empty (trim user_name))
            (validation (text "ssh revoke user.user") (text "user must not be empty")))
      pass (validate_revocation_reason reason)
      registry ← load_registry x machine site
      let selected = records_for_user registry user_name host
      config ← read_config x machine site
      live_enrollments ←
          pass
            (live_enrollment_inventory x site.ca_json_path config (identity_of_user user_name host))
      outcome ←
          commit_revocation x machine site registry selected live_enrollments reason
            (remove_for_user user_name host)
      templates ← user_templates user_name host
      remove_provisioner_templates machine (outcome.removed ++ templates)
      pass machine.print

    unfoldable pub revoke_host : Text → Option Text → Action (Disk Value) (Unit {0})
    revoke_host host_name reason = do
      pass (
          refuse (is_empty (trim host_name))
            (validation (text "ssh revoke host.host") (text "host must not be empty")))
      pass (validate_revocation_reason reason)
      registry ← load_registry x machine site
      let selected = records_for_host registry host_name
      config ← read_config x machine site
      live_enrollments ←
          pass (live_enrollment_inventory x site.ca_json_path config (identity_on_host host_name))
      outcome ← commit_revocation x machine site registry selected live_enrollments reason (λ found.
          remove_host x site.ca_json_path found host_name (host_provisioner_name host_name)
            (user_provisioner_host_suffix host_name))
      templates ←
          matching_provisioner_templates machine
            (λ name. is_host_template host_name (parse_user_provisioner_name name))
      remove_provisioner_templates machine
          (outcome.removed ++ (host_provisioner_name host_name ∷ templates))
      pass machine.print

    unfoldable pub validate_explicit_host_identity : Text → Text → Result (Unit {0})
    validate_explicit_host_identity field value =
        ensure (valid_host_identity value) (validation field (text "must match [A-Za-z0-9._-]+"))

    unfoldable pub revoke_x509 : Text → Text → Option Text → Action (Disk Value) (Unit {0})
    unfolding validate_explicit_host_identity
    revoke_x509 host name reason = do
      pass (validate_explicit_host_identity (text "x509 revoke.host") host)
      pass (validate_explicit_host_identity (text "x509 revoke.name") name)
      pass (validate_revocation_reason reason)
      registry ← load_registry x machine site
      let selected = records_for_x509 registry host name
      config ← read_config x machine site
      live_enrollments ← pass (
          live_enrollment_inventory x site.ca_json_path config
            (identity_of_x509 (x509_provisioner_name host name) (x509_identity host name)))
      outcome ←
          commit_revocation x machine site registry selected live_enrollments reason
            (λ found. remove_exact x site.ca_json_path found (x509_provisioner_name host name))
      pass machine.print
