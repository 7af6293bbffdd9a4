-- ===== src/Renewal/Tests.antt =====
-- The theorems on renewals at a concrete run, in which the sample's codings are the identity.
use grafhome_ca.Policy.Model.{active, X509Cert, client}
use grafhome_ca.Policy.Model.{active}
use grafhome_ca.Policy.Duration.{
  add_component, add_fraction, component, components, duration_nanoseconds, fraction, number_from,
  span_digits, step_duration, unit, unit_in, units,
}
use grafhome_ca.External.Sample.{sample}
use grafhome_ca.Renewal.Safety.{renew-Valid, tolerated-untouched}
use grafhome_ca.Keys.{p256_spki_prefix, from_der, parse_pem}
use grafhome_ca.Names.{encode_identity, x509_identity, hex_char}
use grafhome_ca.Renewal.Due.{alert-renewal_needed}
use grafhome_ca.Renewal.Times.{alert_due, pos, renewal_due}
use grafhome_ca.Renewal.Run.{
  Session, published, renew, tolerated, finish, probe, renew_from, renew_locked, run_after_renew,
  take_lock, ttl_of,
}
use grafhome_ca.Renewal.Issue.{
  RenewalFailure, World, done, failed, unavailable_kind, candidate_for, create_csr, enrolled_key,
  issue, move_cert, move_key, prepare, publish, sign, validate_candidate, validate_chain, vetted,
}
use grafhome_ca.Renewal.Assessment.{
  Files, InspectedCertificate, Tools, alert, assess, chain, usable, valid, renewal_needed,
  assess_chain, chain_of, condition_of, is_complete, leaf_of, matches_key, public_key_of,
  read_chain, spki_hex,
}
use grafhome_ca.Base.{
  ◌≡◌, Text, [], arith, false, none, ok, refl, some, suc, text, true, validation, zero, ◌++◌, ◌∷◌,
  ℕ, eq_text, starts_with, strip_prefix, strip_suffix, trim, without_white_space, eq_texts,
  sort_texts,
}

-- The DER of a key: its fixed prefix and 64 bytes.
abbrev zeros : ℕ → Text
zeros zero = []
zeros (suc n) = 0 ∷ zeros n

abbrev der : Text
der = p256_spki_prefix ++ zeros 64

abbrev pem : Text
pem = text "-----BEGIN PUBLIC KEY-----" ++ (der ++ text "-----END PUBLIC KEY-----")

abbrev leaf : InspectedCertificate
leaf = record {
  names = text "lap" ∷ [];
  end = b'9' ∷ [];
  fingerprint_sha256 = encode_identity der;
  extended_key_usage = text "client_auth" ∷ [];
}

-- Every file inspects to the same chain of two certificates, which ends at 900.
abbrev tools : Tools
tools = record {
  inspect = λ file. ok (true, file);
  bundle_from_slice = λ stdout. some (chain (leaf ∷ leaf ∷ []));
  parse_time = λ end. some 900;
  public_key = λ key. ok pem;
}

abbrev cert : X509Cert
cert = record {
  host = text "lap";
  name = text "web";
  role = client;
  names = text "lap" ∷ [];
  ttl = b'1' ∷ b's' ∷ [];
  ca_endpoint = text "ca_api";
  after_renew = [];
  status = active;
}

abbrev world : World
world = record {
  private_files = ok tt;
  root = [];
  cert_path = [];
  root_is_file = true;
  has_directory = true;
  staging_directory = ok tt;
  create = λ name. ok tt;
  token = λ name. ok (text "t");
  signature = λ token. ok (text "new");
  issued_at = 100;
  verify = λ candidate name. ok tt;
  set_permissions = ok tt;
  sync_candidate = ok tt;
  rename_key = ok tt;
  rename_cert = ok tt;
  sync_directory = ok tt;
}

-- A host with a staged key and no certificate.
abbrev files : Files
files = record { cert = none; key = none; pending_key = some (text "k") }

abbrev renewed : Files
renewed = record { cert = some (text "new"); key = some (text "k"); pending_key = none }

-- The same with a certificate that works.
abbrev working : Files
working = record { cert = some (text "old"); key = some (text "k"); pending_key = none }

abbrev session : Session
session = record {
  world = world;
  first_files = files;
  first_now = 100;
  first_due_now = 100;
  try_lock = ok true;
  lock = ok tt;
  files = files;
  now = 100;
  due_now = 100;
  reachable = none;
  ca_url = [];
  hook = λ argv. ok tt;
}

abbrev outage : Session
outage = record session { first_files = working; files = working; reachable = some (ok false) }

run_publishes : renew sample tools cert session ≡ (done (published 900), renewed)
unfolding renew ttl_of step_duration duration_nanoseconds components add_component component
    span_digits number_from fraction unit unit_in units add_fraction text strip_prefix assess
    renew_from renewal_needed usable take_lock renew_locked probe issue vetted candidate_for prepare
    public_key_of parse_pem trim strip_suffix without_white_space from_der starts_with create_csr
    sign validate_candidate read_chain chain_of leaf_of validate_chain is_complete eq_texts
    sort_texts eq_text spki_hex encode_identity hex_char publish move_key move_cert finish
    run_after_renew renewal_due enrolled_key assess_chain matches_key condition_of x509_identity
run_publishes = refl

renew-Valid_example :
    assess sample tools renewed 500
    ≡ ok (record { condition = valid; not_after = some 900; pending_key = false })
renew-Valid_example =
    renew-Valid sample tools cert session 900 500 renewed run_publishes (omega arith)

abbrev unreachable : RenewalFailure
unreachable = record {
  error =
      validation (x509_identity (text "lap") (text "web"))
        (text "CA endpoint " ++ ([] ++ text " is unreachable"));
  kind = unavailable_kind;
  usable = true;
}

outage_fails : renew sample tools cert outage ≡ (failed unreachable, working)
unfolding renew ttl_of step_duration duration_nanoseconds components add_component component
    span_digits number_from fraction unit unit_in units add_fraction text strip_prefix assess
    renew_from renewal_needed usable take_lock renew_locked probe issue vetted candidate_for prepare
    public_key_of parse_pem trim strip_suffix without_white_space from_der starts_with create_csr
    sign validate_candidate read_chain chain_of leaf_of validate_chain is_complete eq_texts
    sort_texts eq_text spki_hex encode_identity hex_char publish move_key move_cert finish
    run_after_renew renewal_due enrolled_key assess_chain matches_key condition_of x509_identity
outage_fails = refl

unreachable-tolerated : tolerated unreachable ≡ true
unfolding tolerated
unreachable-tolerated = refl

tolerated-untouched_example : working ≡ outage.files
tolerated-untouched_example =
    tolerated-untouched sample tools cert outage unreachable working outage_fails
      unreachable-tolerated

alert-renewal_needed_example :
    renewal_needed
      (record { condition = valid; not_after = some 900; pending_key = false })
      (pos 1000)
      800
    ≡ true
unfolding alert usable alert_due
alert-renewal_needed_example =
    alert-renewal_needed (record { condition = valid; not_after = some 900; pending_key = false })
      1000 800 refl
