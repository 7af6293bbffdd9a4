-- ===== src/Authority/Approve.antt =====
-- The reservation of an approval, `x509 approve`, `ssh enrollment import` and `apply ca` of the
-- command line, behind the CA lock; approved_cert of src/x509.rs.
use grafhome_ca.Policy.Fields.{ca_api}
use grafhome_ca.Base.{
  Bool, List, Option, Result, Text, [], eq_text, eq_texts, err, false, filter, if◌then◌else◌,
  is_empty, none, not, ok, some, text, ◌&&◌, ◌++◌, ◌||◌, ◌∷◌, validation,
}
use grafhome_ca.Authority.Action.{Action, pass, asks, checked, ◌>>=◌, ◌>>◌}
use grafhome_ca.Authority.Install.{install_ca_json_with_rollback}
use grafhome_ca.Authority.Ledger.{ensure_enrollment_keys_not_revoked}
use grafhome_ca.Authority.Site.{
  Site, load_registry, save_registry, read_config, required_endpoint_url,
}
use grafhome_ca.Authority.Machine.{Answer, Disk, Machine}
use grafhome_ca.External.{External}
use grafhome_ca.Keys.{get_str, canonical_jwk, parse_pem}
use grafhome_ca.Names.{x509_identity, x509_provisioner_name}
use grafhome_ca.Enrollment.{X509Request, validate_x509_request}
use grafhome_ca.Policy.Model.{Policy, X509Cert}
use grafhome_ca.Registry.Pending.{pending_x509, previous}
use grafhome_ca.Registry.Record.{
  EnrollmentRecord, RecordStatus, host, user, x509, identity, renewal_public_jwk, is_active,
  ssh_public_key, status,
}
use grafhome_ca.Registry.Store.{EnrollmentRegistry, activate, matching_status, reserve}
use grafhome_ca.Runtime.Binding.{bind_existing_renewal_provisioner}
use grafhome_ca.Runtime.Certificates.{active_cert, x509_provisioner, live_key}
use grafhome_ca.Runtime.Enroll.{reconcile_x509}
use grafhome_ca.Runtime.Live.{live_provisioners, provisioners_field}
use grafhome_ca.Runtime.Sweep.{ClaimsReconciliation, reconcile_claims}
use grafhome_ca.Runtime.Removal.{is_text}

-- `== Some(RecordStatus::Active)`
abbrev pub is_active_status : Option RecordStatus → Bool
is_active_status none = false
is_active_status (some status) = is_active status

module _ (x : External) (machine : Machine) where
  open x use {Value, value_eq, get}

  module _ (site : Site Value) where
    unfoldable pub approved_cert : Policy → X509Request Value → Result X509Cert
    approved_cert policy request = elim (active_cert policy request.host request.name) [
      | err e ↦ err e
      | ok cert ↦
          if eq_texts cert.names request.names
          then ok cert
          else err (
              validation (text "x509 enrollment request names") (
                x509_identity request.host request.name
                ++ (text " requests "
                    ++ (site.debug request.names
                        ++ (text ", but policy declares " ++ site.debug cert.names)))))
    ]

    -- `match matching.as_slice()`
    unfoldable pub sole_key : Text → List Value → Result (Option Value)
    sole_key provisioner [] = ok none
    sole_key provisioner (item ∷ []) = elim (get item (text "key")) [
      | none ↦ err (
          validation (provisioners_field site.ca_json_path)
            (text "live enrollment provisioner " ++ (provisioner ++ text " has no public key")))
      | some key ↦ elim (canonical_jwk x key) [ ok (k, _) ↦ ok (some k) | err e ↦ err e ]
    ]
    sole_key provisioner (_ ∷ _ ∷ _) = err (
        validation (provisioners_field site.ca_json_path)
          (text "live enrollment provisioner " ++ (provisioner ++ text " is duplicated")))

    unfoldable pub live_enrollment_public_key : Text → Action (Disk Value) (Option Value)
    unfolding sole_key
    live_enrollment_public_key provisioner = do
      config ← read_config x machine site
      provisioners ← pass (live_provisioners x site.ca_json_path config)
      pass (
          sole_key provisioner
            (filter (λ item. is_text provisioner (get_str x item (text "name"))) provisioners))

    recovery : EnrollmentRecord Value → Text
    recovery (x509 st h n key fp jwk rfp at rev) =
        text "restore the enrollment registry from a backup"
    recovery (host st h key fp jwk rfp at rev) =
        text "run `grafhome-ca ssh enrollment import` first"
    recovery (user st u h key fp jwk rfp at rev) =
        text "run `grafhome-ca ssh enrollment import` first"

    abbrev approve_error : Text → Answer
    approve_error message = err (validation (text "approve enrollment") message)

    -- The tests on the live key and the status in the registry.
    unfoldable pub check_live :
        EnrollmentRecord Value → Text → Option RecordStatus → Option Value → Answer
    unfolding recovery
    check_live candidate provisioner existing_status (some live_key) =
        if not (value_eq live_key (renewal_public_jwk candidate))
        then approve_error (
            text "live provisioner "
            ++ (provisioner ++ (text " has a different public key from " ++ identity candidate)))
        else elim existing_status [
          | none ↦ approve_error (
              identity candidate
              ++ (text " is already live but is absent from the enrollment registry; "
                  ++ recovery candidate))
          | some status ↦ ok tt
        ]
    check_live candidate provisioner existing_status none =
        if is_active_status existing_status
        then approve_error (
            identity candidate
            ++ text
                " is active in the enrollment registry but its live provisioner is missing; revoke or repair it before approval")
        else ok tt

    -- `*registry` comes back as the result.
    unfoldable pub reserve_approval_record :
        EnrollmentRegistry Value
        → EnrollmentRecord Value
        → Text
        → Action (Disk Value) (EnrollmentRegistry Value)
    unfolding live_enrollment_public_key check_live
    reserve_approval_record registry candidate provisioner = do
      ensure_enrollment_keys_not_revoked machine candidate
      (added, proposed) ← pass (reserve registry candidate)
      live_key ← live_enrollment_public_key provisioner
      pass (check_live candidate provisioner (matching_status registry candidate) live_key)
      if added
          then (save_registry x machine site proposed >> pass (ok proposed))
          else pass (ok registry)

    -- The closure that activates the candidate and saves the registry.
    unfoldable pub activate_and_save :
        EnrollmentRegistry Value → EnrollmentRecord Value → Action (Disk Value) (Unit {0})
    activate_and_save registry candidate = do
      (changed, saved) ← pass (activate registry candidate)
      save_registry x machine site saved

    -- What `approve_x509` does under the lock; `desired` is the provisioner of the request.
    unfoldable pub approve_x509_locked :
        EnrollmentRecord Value → Text → Value → Action (Disk Value) (Unit {0})
    unfolding reserve_approval_record activate_and_save
    approve_x509_locked candidate provisioner desired = do
      loaded ← load_registry x machine site
      registry ← reserve_approval_record loaded candidate provisioner
      config ← read_config x machine site
      proposed ← checked (reconcile_x509 x site.ca_json_path config desired)
      if value_eq config proposed && is_active_status (matching_status registry candidate)
          then pass machine.print
          else (pass (required_endpoint_url site.policy ca_api) >>= λ address.
              install_ca_json_with_rollback site.show machine (site.to_string proposed)
                (activate_and_save registry candidate)
              >> pass machine.print)

    -- The confirmation at the terminal is answered by `confirmed`.
    unfoldable pub approve_x509 : X509Request Value → Answer → Action (Disk Value) (Unit {0})
    unfolding approve_x509_locked approved_cert
    approve_x509 request confirmed = do
      pass (validate_x509_request x request)
      cert ← pass (approved_cert site.policy request)
      key ← pass (parse_pem x request.certificate_public_key)
      pass confirmed
      desired ←
          pass (x509_provisioner x request.renewal_public_jwk cert request.certificate_public_key)
      now ← pass machine.now
      candidate ← pass (pending_x509 x request now)
      approve_x509_locked candidate (x509_provisioner_name request.host request.name) desired

    abbrev pub is_current : ClaimsReconciliation Value → Bool
    is_current result =
        not result.authority_policy_updated && is_empty result.updated && is_empty result.removed

    -- `rendered` is the authority policy that src/render.rs makes.
    unfoldable pub apply_ca_policy : Result Value → Bool → Action (Disk Value) (Unit {0})
    apply_ca_policy rendered dry_run = do
      config ← read_config x machine site
      result ← pass (reconcile_claims x site.policy site.ca_json_path config rendered)
      if dry_run || is_current result
          then pass machine.print
          else (pass (required_endpoint_url site.policy ca_api) >>= λ address.
              install_ca_json_with_rollback site.show machine (site.to_string result.config)
                (pass (ok tt))
              >> pass machine.print)

    -- What `import_enrollment` does under the lock.
    unfoldable pub import_enrollment_locked :
        EnrollmentRecord Value → Text → Text → Action (Disk Value) (Unit {0})
    import_enrollment_locked candidate provisioner ssh_public_key = do
      ensure_enrollment_keys_not_revoked machine candidate
      pass machine.read_ca_json
      previous ← asks (λ disk. some (ok disk.ca_json))
      config ← read_config x machine site
      bound ← checked (
          bind_existing_renewal_provisioner x site.ca_json_path config provisioner
            (renewal_public_jwk candidate) ssh_public_key)
      registry ← load_registry x machine site
      (registry_changed, proposed) ← pass (activate registry candidate)
      if not (eq_text previous (site.to_string bound)) || registry_changed
          then (pass (required_endpoint_url site.policy ca_api) >>= λ address.
              install_ca_json_with_rollback site.show machine (site.to_string bound)
                (if registry_changed then save_registry x machine site proposed else pass (ok tt))
              >> pass machine.print)
          else pass machine.print
