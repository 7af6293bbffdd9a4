-- ===== src/Authority/Tests.antt =====
-- The theorems on the CA side at a small host.
use grafhome_ca.Runtime.Live.{live_provisioners, with_provisioners}
use grafhome_ca.Names.{host_provisioner_name}
use grafhome_ca.Authority.Covered.{Recorded, require_registry_coverage-remove_exact}
use grafhome_ca.Runtime.Removal.{is_text, matches_exact, remove_exact, remove_matching, retain}
use grafhome_ca.Base.{filter, not}
use grafhome_ca.Authority.Refused.{reserve_approval_record-commit_revocation}
use grafhome_ca.Authority.Approve.{reserve_approval_record}
use grafhome_ca.Authority.Action.{pass}
use grafhome_ca.Authority.Retries.{Healthy, run_status_with_retries_iff}
use grafhome_ca.Authority.Install.{write_ca_json, install_ca_json_with_rollback, or_restore}
use grafhome_ca.Authority.Site.{read_config, required_endpoint_url, save_registry}
use grafhome_ca.Registry.Pending.{
  no_previous, validate, validate_at, validate_certified_key, validate_names, validate_record,
  validate_records, validate_renewal_key, validate_revoked_at, validate_timestamp,
}
use grafhome_ca.Registry.Store.{live, mark_revoked, revoke_records, revoke_step, selected_pair}
use grafhome_ca.Identity.{
  valid_dns_label, valid_dns_name, valid_host_identity, validate_host_name,
  validate_renewal_fingerprint,
}
use grafhome_ca.Authority.Coverage.{
  is_covered, require_registry_coverage, LiveEnrollment, identity_on_host,
  live_enrollment_inventory,
}
use grafhome_ca.Policy.Fields.{
  ensure_contains, expected_provisioner_type, reject_root_identity, unique_from, unique_values,
}
use grafhome_ca.Policy.Validation.{
  check_endpoints, check_target, host_names, require_role, set_size, validate_policy,
}
use grafhome_ca.Policy.Certificates.{
  check_certs, check_declared, check_lifecycle, check_name, check_names, check_owner, owner_of,
  validate_x509,
}
use grafhome_ca.Policy.Relations.{
  check_access, check_accesses, check_admin_host, check_admins, check_client, check_clients,
  check_duration, check_lifetime, check_max_ttl, check_principals, check_provisioner, check_type,
  check_user, find_provisioner, hosts_with_admin_access, insert_principals, ssh_admins,
  validate_relations,
}
use grafhome_ca.Policy.Revocations.{
  canonical_of, check_revoked_identity, check_ssh_key, check_ssh_keys, check_tombstone,
  check_x509_key, check_x509_keys, validate_revocation_host, validate_revocation_user,
  validate_revocations,
}
use grafhome_ca.Keys.{
  canonical_jwk, canonical_key, canonical_ssh_public_key, copy_members, get_str, jwk_members,
  jwk_public_material,
}
use grafhome_ca.Authority.Ledger.{
  add_revocation, add_revocations, additions_empty, prepare_revocation_policy_update, seen_ssh,
  seen_x509, update_of, write_update,
}
use grafhome_ca.Policy.Duration.{
  add_component, add_fraction, component, components, duration_at_most, duration_nanoseconds,
  fraction, is_valid_duration, leading_zero, number_from, span_digits, split_last, step_duration,
  step_max_ttl, unit, unit_in, units, valid_step_duration_expression, validate_step_duration,
}
use grafhome_ca.Policy.Model.{
  active_ssh_access, active_user_clients, duration_or_zero, endpoint, find_host, find_user,
  inferred_renewal_max_ttl, longest, longest_with, renewal_default_ttl, renewal_max_ttl, url,
  x509_allowed_dns, x509_certs_for_host,
}
use grafhome_ca.Authority.Health.{
  activate_service, install_ca_json_permissions, restart_service, retry_from,
  run_status_with_retries,
}
use grafhome_ca.Registry.Record.{
  revoked_at, enrolled_at, identity, key_fingerprint, renewal_fingerprint, renewal_public_jwk,
  same_keys, set_status, status, to_revocation, EnrollmentRecord,
}
use grafhome_ca.Base.{
  [], none, ok, ◌∷◌, refl, some, ◌≡◌, contains_byte, contains_part, contains_text, ends_with,
  eq_text, first_word, is_utf8, split, starts_with, strip_prefix, strip_suffix, text, Error, arith,
  ensure, err, inl, leb, validation, ◌↔◌, ℕ, List, All,
}
use grafhome_ca.Authority.Machine.{Disk, Answer, Machine}
use grafhome_ca.Policy.Checked.{Checked}
use grafhome_ca.Registry.Record.{RecordStatus}
use grafhome_ca.Authority.FailSafe.{FailsSafe, commit_revocation-FailsSafe}
use grafhome_ca.Authority.Rollback.{Replaces, install_ca_json_with_rollback-Replaces}
use grafhome_ca.Authority.Samples.{crates, machine, site, registry, enrolled, disk, jwk, service}
use grafhome_ca.Authority.Revoke.{
  commit_revocation, RevocationOutcome, activate_revocation_ca_update, finish_revocation,
  save_marked,
}
use grafhome_ca.External.Sample.{Json, an_item, no_items, no_members, member}

abbrev revocation : Checked RevocationOutcome × Disk Json
revocation =
    commit_revocation crates machine site registry (enrolled ∷ []) [] none
      (λ config. ok (config, [])) disk

abbrev replacement : EnrollmentRecord Json
replacement =
    EnrollmentRecord.host RecordStatus.active (text "b") (text "k") (text "k") jwk (text "SHA256:")
      (text "0Z") none

same_key : key_fingerprint enrolled ≡ key_fingerprint replacement
unfolding key_fingerprint
same_key = refl

abbrev no_disk : Error
no_disk = validation (text "disk") (text "full")

abbrev full_disk : Machine
full_disk = record machine { write_registry = record { renamed = err no_disk; synced = ok tt } }

abbrev broken : Machine
broken = record machine { activation = record service { restart = err no_disk } }

abbrev outcome : RevocationOutcome
outcome = record { newly_revoked = 1; ledger_added = record { ssh = 1; x509 = 0 }; removed = [] }

revocation_runs : revocation ≡ (some (ok outcome), revocation.1)
unfolding check_endpoints require_role check_target set_size host_names validate_policy
    find_provisioner check_user check_type check_duration check_max_ttl check_provisioner
    check_lifetime insert_principals check_principals check_access check_accesses ssh_admins
    hosts_with_admin_access check_admin_host check_admins check_client check_clients
    validate_relations owner_of check_owner check_name check_names check_declared check_lifecycle
    check_certs validate_x509 validate_revocation_host validate_revocation_user check_tombstone
    check_revoked_identity canonical_of check_ssh_key check_ssh_keys check_x509_key check_x509_keys
    validate_revocations expected_provisioner_type unique_from unique_values reject_root_identity
    ensure_contains renewal_default_ttl x509_certs_for_host x509_allowed_dns duration_or_zero
    longest longest_with inferred_renewal_max_ttl renewal_max_ttl find_host find_user
    active_ssh_access active_user_clients span_digits number_from fraction units unit_in unit
    add_fraction component add_component components duration_nanoseconds duration_at_most
    step_duration valid_step_duration_expression step_max_ttl split_last leading_zero
    is_valid_duration validate_step_duration valid_host_identity valid_dns_label valid_dns_name text
    eq_text contains_text strip_prefix starts_with split contains_byte ends_with strip_suffix
    is_utf8 validate_renewal_fingerprint validate_at validate_names validate_certified_key
    validate_renewal_key validate_timestamp validate_revoked_at validate_host_name canonical_key
    canonical_ssh_public_key canonical_jwk jwk_public_material copy_members get_str first_word
    contains_part jwk_members status identity key_fingerprint renewal_fingerprint renewal_public_jwk
    same_keys selected_pair revoke_step revoke_records mark_revoked live enrolled_at set_status
    validate validate_record validate_records no_previous commit_revocation finish_revocation
    save_marked activate_revocation_ca_update save_registry read_config required_endpoint_url
    endpoint url install_ca_json_with_rollback or_restore write_ca_json activate_service
    restart_service install_ca_json_permissions run_status_with_retries retry_from
    prepare_revocation_policy_update add_revocations add_revocation seen_ssh seen_x509 update_of
    additions_empty write_update to_revocation require_registry_coverage is_covered revoked_at
revocation_runs = refl

reserve_approval_record-commit_revocation_example :
    (e : Error) × (reserve_approval_record crates machine site registry replacement
        (text "p")
        revocation.1
      ≡ (some (err e), revocation.1))
reserve_approval_record-commit_revocation_example =
    reserve_approval_record-commit_revocation crates site machine machine registry registry
      (enrolled ∷ []) [] none (λ config. ok (config, [])) disk revocation.1 outcome replacement
      (text "p") revocation_runs (inl same_key)

-- The registry cannot be saved at the end.
commit_revocation-FailsSafe_example : FailsSafe (enrolled ∷ []) disk (
    commit_revocation crates full_disk site registry
      (enrolled ∷ [])
      []
      none
      (λ config. ok (config, []))
      disk)
commit_revocation-FailsSafe_example =
    commit_revocation-FailsSafe crates full_disk site registry (enrolled ∷ []) none []
      (λ config. ok (config, [])) disk

-- The service does not start with the new ca.json.
install_ca_json_with_rollback-Replaces_example :
    Replaces broken
      (text "old")
      (text "new")
      (install_ca_json_with_rollback site.show broken (text "new") (pass (ok tt)) disk)
install_ca_json_with_rollback-Replaces_example =
    install_ca_json_with_rollback-Replaces (Unit {0}) site.show broken (text "new") (pass (ok tt))
      refl (λ _. (refl, refl)) disk

-- The first two attempts fail.
abbrev slow_start : ℕ → Answer
slow_start attempt = ensure (leb 3 attempt) no_disk

run_status_with_retries_iff_example :
    (run_status_with_retries site.show (text "step ca health") 2 slow_start 30 ≡ ok tt)
    ↔ Healthy slow_start 2 1 31
run_status_with_retries_iff_example =
    run_status_with_retries_iff site.show (text "step ca health") 2 slow_start 30 (omega arith)
      (omega arith)

abbrev host_item : Json
host_item = Json.object (
    member (text "name") (Json.string (host_provisioner_name (text "a")))
      (member (text "key") jwk no_members))

abbrev live_config : Json
live_config = Json.object (
    member (text "authority")
      (Json.object
        (member (text "provisioners") (Json.array (an_item host_item no_items)) no_members))
      no_members)

abbrev live_enrollments : List (LiveEnrollment Json)
live_enrollments = record { identity = text "host a"; renewal_public_jwk = jwk } ∷ []

provisioners_listed : live_provisioners crates (text "ca.json") live_config ≡ ok (host_item ∷ [])
unfolding live_provisioners text eq_text
provisioners_listed = refl

inventory_listed :
    live_enrollment_inventory crates (text "ca.json") live_config (identity_on_host (text "a"))
    ≡ ok live_enrollments
unfolding live_enrollment_inventory identity_on_host live_provisioners text eq_text get_str
    canonical_jwk jwk_public_material jwk_members copy_members host_provisioner_name
inventory_listed = refl

covered : require_registry_coverage crates (enrolled ∷ []) live_enrollments ≡ ok tt
unfolding require_registry_coverage live status identity renewal_public_jwk text eq_text
covered = refl

known_host : identity_on_host (text "a") (host_provisioner_name (text "a")) ≡ some (text "host a")
unfolding identity_on_host eq_text host_provisioner_name text
known_host = refl

host_taken :
    remove_exact crates (text "ca.json") live_config (host_provisioner_name (text "a"))
    ≡ ok (with_provisioners crates live_config [], host_provisioner_name (text "a") ∷ [])
unfolding remove_exact remove_matching live_provisioners eq_text text retain matches_exact get_str
    host_provisioner_name
host_taken = refl

require_registry_coverage-remove_exact_example :
    (items : List Json) × (live_provisioners crates (text "ca.json") live_config ≡ ok items)
    × (live_provisioners crates (text "ca.json") (with_provisioners crates live_config [])
        ≡ ok (
            filter
              (λ v.
                not (is_text (host_provisioner_name (text "a")) (get_str crates v (text "name"))))
              items))
    × All
        (λ item.
          Recorded crates
            (enrolled ∷ [])
            item
            (some (host_provisioner_name (text "a"), text "host a")))
        (filter
          (λ v. is_text (host_provisioner_name (text "a")) (get_str crates v (text "name")))
          items)
require_registry_coverage-remove_exact_example =
    require_registry_coverage-remove_exact crates (text "ca.json") (identity_on_host (text "a"))
      live_config (with_provisioners crates live_config []) (host_provisioner_name (text "a") ∷ [])
      (enrolled ∷ []) live_enrollments (host_provisioner_name (text "a")) (text "host a") known_host
      inventory_listed covered host_taken
