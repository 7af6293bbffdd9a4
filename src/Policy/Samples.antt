-- ===== src/Policy/Samples.antt =====
-- A small policy that `validate` accepts, and the theorems on whole policies at it.
use grafhome_ca.Policy.Duration.Panic.{validate_step_duration_panics}
use grafhome_ca.Policy.Panics.Whole.{validate_policy-some}
use grafhome_ca.Policy.Principals.{validate_policy-principals}
use grafhome_ca.Policy.Lifetimes.{inferred_renewal_max_ttl-AtMost, AtMost}
use grafhome_ca.Policy.Sans.{SharesHost, validate_policy-SharesHost}
use grafhome_ca.Policy.Admins.{IsAdminLogin, validate_policy-IsAdminLogin}
use grafhome_ca.Policy.Panics.{EndsWell, Splittable}
use grafhome_ca.Identity.{valid_dns_label, valid_dns_name, valid_host_identity}
use grafhome_ca.Policy.Fields.{
  ensure_contains, expected_provisioner_type, reject_root_identity, unique_from, unique_values,
}
use grafhome_ca.Policy.Validation.{
  check_endpoints, check_target, host_names, require_role, set_size, validate_policy,
}
use grafhome_ca.Policy.Certificates.{
  check_certs, check_declared, check_lifecycle, check_name, check_names, check_owner, owner_of,
  validate_x509,
}
use grafhome_ca.Policy.Relations.{
  check_access, check_accesses, check_admin_host, check_admins, check_client, check_clients,
  check_duration, check_lifetime, check_max_ttl, check_principals, check_provisioner, check_type,
  check_user, find_provisioner, hosts_with_admin_access, insert_principals, ssh_admins,
  validate_relations,
}
use grafhome_ca.Policy.Revocations.{
  canonical_of, check_revoked_identity, check_ssh_key, check_ssh_keys, check_tombstone,
  check_x509_key, check_x509_keys, validate_revocation_host, validate_revocation_user,
  validate_revocations,
}
use grafhome_ca.Policy.Duration.{
  add_component, add_fraction, component, components, duration_at_most, duration_nanoseconds,
  fraction, is_valid_duration, leading_zero, number_from, span_digits, split_last, step_duration,
  step_max_ttl, unit, unit_in, units, valid_step_duration_expression, validate_step_duration,
}
use grafhome_ca.Policy.Checked.{accepted}
use grafhome_ca.Base.{
  Text, [], contains_byte, contains_text, eq_text, is_utf8, none, refl, split, starts_with,
  strip_prefix, text, true, ◌∷◌, ◌≡◌, Any, ends_with, strip_suffix, ◌≢◌, All, Pairwise,
}
use grafhome_ca.Policy.Model.{
  active, is_active, ssh_server, server, Endpoint, Host, Policy, Provisioner, User, UserRemote,
  X509Cert, active_ssh_access, active_user_clients, duration_or_zero, find_host, find_user,
  inferred_renewal_max_ttl, longest, longest_with, renewal_default_ttl, renewal_max_ttl,
  x509_allowed_dns, x509_certs_for_host, has_ssh_role,
}
use grafhome_ca.External.Sample.{sample}

abbrev one_hour : Text
one_hour = text "1h"

abbrev alpha : Text
alpha = text "a"

abbrev ca_endpoint : Text → Endpoint
ca_endpoint role = record {
  role = role;
  dns_name = text "ca.x";
  target = alpha;
  address = text "1";
  port = 443;
  scheme = text "https";
}

abbrev alpha_host : Host
alpha_host = record {
  host = alpha;
  is_ssh_server = true;
  is_ssh_client = true;
  principals = text "a" ∷ text "a.x" ∷ [];
}

abbrev web_cert : Text → X509Cert
web_cert name = record {
  host = alpha;
  name = name;
  role = server;
  names = text "w.x" ∷ [];
  ttl = one_hour;
  ca_endpoint = text "ca_api";
  after_renew = [];
  status = active;
}

abbrev admin : User
admin = record {
  user = text "u";
  principal = text "p";
  provisioner = text "e";
  cert_ttl = text "2h";
  ssh_admin = true;
  status = active;
}

abbrev pub user_issuer : Provisioner
user_issuer = record {
  role = text "user_enrollment";
  name = text "e";
  provisioner_type = text "JWK";
  default_ttl = one_hour;
  max_ttl = text "unlimited";
  renewal_default = none;
  renewal_max = none;
  status = active;
}

abbrev host_issuer : Provisioner
host_issuer = record {
  role = text "host_bootstrap";
  name = text "h";
  provisioner_type = text "JWK";
  default_ttl = one_hour;
  max_ttl = text "2h";
  renewal_default = none;
  renewal_max = none;
  status = active;
}

abbrev admin_login : UserRemote
admin_login = record {
  user = text "u";
  host = alpha;
  unix_account = text "x";
  allow_ssh = true;
  status = active;
}

abbrev pub sample_policy : Policy
sample_policy = record {
  endpoints = ca_endpoint (text "ca_api") ∷ ca_endpoint (text "ca_origin") ∷ [];
  hosts = alpha_host ∷ [];
  users = admin ∷ [];
  require_ssh_admin_access = true;
  provisioners = user_issuer ∷ host_issuer ∷ [];
  user_clients = [];
  user_remotes = admin_login ∷ [];
  revoked_ssh_keys = [];
  x509_certs = web_cert (text "c") ∷ web_cert (text "d") ∷ [];
  revoked_x509_keys = [];
}

sample-accepted : validate_policy sample sample_policy ≡ accepted
unfolding check_endpoints require_role check_target set_size host_names validate_policy
    find_provisioner check_user check_type check_duration check_max_ttl check_provisioner
    check_lifetime insert_principals check_principals check_access check_accesses ssh_admins
    hosts_with_admin_access check_admin_host check_admins check_client check_clients
    validate_relations owner_of check_owner check_name check_names check_declared check_lifecycle
    check_certs validate_x509 validate_revocation_host validate_revocation_user check_tombstone
    check_revoked_identity canonical_of check_ssh_key check_ssh_keys check_x509_key check_x509_keys
    validate_revocations expected_provisioner_type unique_from unique_values reject_root_identity
    ensure_contains renewal_default_ttl x509_certs_for_host x509_allowed_dns duration_or_zero
    longest longest_with inferred_renewal_max_ttl renewal_max_ttl find_host find_user
    active_ssh_access active_user_clients span_digits number_from fraction units unit_in unit
    add_fraction component add_component components duration_nanoseconds duration_at_most
    step_duration valid_step_duration_expression step_max_ttl split_last leading_zero
    is_valid_duration validate_step_duration valid_host_identity valid_dns_label valid_dns_name text
    eq_text contains_text strip_prefix starts_with split contains_byte ends_with strip_suffix
    is_utf8
sample-accepted = refl

validate_policy-principals_example : Pairwise (λ p q. p ≢ q) (text "p" ∷ text "a" ∷ text "a.x" ∷ [])
validate_policy-principals_example = validate_policy-principals sample sample_policy sample-accepted

validate_policy-SharesHost_example :
    Pairwise SharesHost (web_cert (text "c") ∷ web_cert (text "d") ∷ [])
validate_policy-SharesHost_example = validate_policy-SharesHost sample sample_policy sample-accepted

validate_policy-IsAdminLogin_example :
    All
      (λ s.
        has_ssh_role s ssh_server ≡ true
        → Any (IsAdminLogin sample_policy s.host) (admin_login ∷ []))
      (alpha_host ∷ [])
validate_policy-IsAdminLogin_example =
    validate_policy-IsAdminLogin sample sample_policy refl sample-accepted

EndsWell-split : (d : Text) → validate_step_duration [] [] [] d ≢ none → EndsWell d
EndsWell-split d h k = h ((validate_step_duration_panics [] [] [] d).1 k)

hour-EndsWell : EndsWell one_hour
unfolding validate_step_duration split_last text
hour-EndsWell = EndsWell-split one_hour (λ e. cc)

two_hours-EndsWell : EndsWell (text "2h")
unfolding validate_step_duration split_last text
two_hours-EndsWell = EndsWell-split (text "2h") (λ e. cc)

unlimited-EndsWell : EndsWell (text "unlimited")
unfolding validate_step_duration split_last text
unlimited-EndsWell = EndsWell-split (text "unlimited") (λ e. cc)

sample-Splittable : Splittable sample_policy
sample-Splittable = record {
  users = (two_hours-EndsWell, tt);
  provisioners = (
    (hour-EndsWell, unlimited-EndsWell, tt, tt),
    ((hour-EndsWell, two_hours-EndsWell, tt, tt), tt),
  );
  certificates = (hour-EndsWell, (hour-EndsWell, tt));
}

validate_policy-some_example : validate_policy sample sample_policy ≢ none
validate_policy-some_example = validate_policy-some sample sample_policy sample-Splittable

inferred_renewal_max_ttl-AtMost_example :
    AtMost (renewal_default_ttl user_issuer) (inferred_renewal_max_ttl sample_policy user_issuer)
    × All
        (λ u.
          is_active u.status ≡ true
          → u.provisioner ≡ text "e"
          → AtMost u.cert_ttl (inferred_renewal_max_ttl sample_policy user_issuer))
        (admin ∷ [])
inferred_renewal_max_ttl-AtMost_example =
    inferred_renewal_max_ttl-AtMost sample_policy user_issuer refl
