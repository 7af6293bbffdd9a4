-- ===== src/Runtime/Tests.antt =====
-- The theorems on the running CA's provisioners at a small configuration.
use grafhome_ca.Policy.Duration.{step_max_ttl}
use grafhome_ca.Policy.Samples.{sample_policy, user_issuer}
use grafhome_ca.Runtime.Removed.{DecidesBy, names_of, remove_host-takes}
use grafhome_ca.Names.{user_provisioner_host_suffix}
use grafhome_ca.Runtime.Removal.{remove_host}
use grafhome_ca.Base.{filter, not}
use grafhome_ca.Runtime.Removal.{
  matches_exact, matches_host, matches_user_prefix, remove_exact, remove_host, remove_matching,
  remove_user, retain,
}
use grafhome_ca.Runtime.Live.{live_provisioners, provisioner_names, with_provisioners}
use grafhome_ca.Runtime.Install.{
  indices_from, item_at, put_at, reconcile_required_provisioner, required_index, upsert_at,
  upsert_renewal_provisioner,
}
use grafhome_ca.Names.{
  host_provisioner_name, parse_host_provisioner_name, parse_user_provisioner_name,
  parse_x509_provisioner_name,
}
use grafhome_ca.Keys.{get_str}
use grafhome_ca.Runtime.Claims.{
  enrollment_options, host_claims, host_claims_for, host_renewal_claims, object,
  reconcile_enrollment_options, reconcile_object, reconcile_provisioner_claims, template_options,
  user_claims, user_claims_for, user_renewal_claims,
}
use grafhome_ca.Policy.Model.{
  duration_or_zero, inferred_renewal_max_ttl, longest, longest_with, renewal_default_ttl,
  renewal_max_ttl,
}
use grafhome_ca.Runtime.Reconcile.{
  count_opened, is_deny_template, is_offender, is_retired, is_x509_provisioner,
  reconcile_authority_policy, reconcile_managed_value, reconcile_paths, remove_retired_provisioners,
  require_x509_deny,
}
use grafhome_ca.Runtime.Enroll.{
  active_provisioner, host_provisioner, optional_active_provisioner, reconcile_host,
  reconcile_user_client, reconcile_x509, user_client_provisioner, without_sshpop,
}
use grafhome_ca.Runtime.Certificates.{
  active_cert, coordinate, declared, first_line, from_template, is_revoked, live_key, live_name,
  marker, pinned_key, reconcile_live, template_of, trim_zeros, x509_claims, x509_provisioner,
  x509_template,
}
use grafhome_ca.Runtime.Safe.{IsHarmless, reconcile_claims-IsHarmless}
use grafhome_ca.Runtime.Installed.{Installed, upsert_renewal_provisioner-Installed}
use grafhome_ca.Runtime.Merged.{Holds, Keyed, reconcile_object-Holds}
use grafhome_ca.Runtime.Sweep.{
  ClaimsReconciliation, desired_claims, reconcile_claimed, reconcile_claims, reconcile_each,
  reconcile_named, reconcile_options,
}
use grafhome_ca.External.Sample.{sample, Json}
use grafhome_ca.Base.{
  List, Result, Text, [], ends_with, eq_text, err, false, is_utf8, ok, refl, some, split_once,
  starts_with, strip_prefix, strip_suffix, text, trim, trim_end, trim_start, true, ◌∷◌, ◌≡◌, All,
  Bool,
}

abbrev path : Text
path = text "ca.json"

abbrev members : List (Text × Json) → Json
members ms = object sample ms

-- Key material as a JSON object.
abbrev key : Text → Json
key x = members ((text "x", Json.string x) ∷ [])

abbrev issuer : Text → Text → Json
issuer name deny = members (
    (text "type", Json.string (text "JWK"))
    ∷ (text "name", Json.string name)
    ∷ (text "key", key name)
    ∷ (text "options", template_options sample deny (text "{}"))
    ∷ [])

abbrev acme : Json
acme =
    members
      ((text "type", Json.string (text "ACME")) ∷ (text "name", Json.string (text "acme")) ∷ [])

abbrev live_items : List Json
live_items = acme ∷ issuer (text "e") (text "{}") ∷ issuer (text "h") (text "{}") ∷ []

abbrev allow : Json
allow = members (
    (
      text "allow",
      members (
          (text "principal", Json.boolean true)
          ∷ (text "dns", Json.boolean true)
          ∷ (text "ip", Json.boolean true)
          ∷ []),
    )
    ∷ [])

abbrev authority_policy : Json
authority_policy = members (
    (
      text "x509",
      members (
          (text "allow", members ((text "dns", Json.boolean true) ∷ []))
          ∷ (text "allowWildcardNames", Json.boolean false)
          ∷ []),
    )
    ∷ (text "ssh", members ((text "user", allow) ∷ (text "host", allow) ∷ []))
    ∷ [])

abbrev ca_json : Json
ca_json =
    members ((text "authority", members ((text "provisioners", sample.array live_items) ∷ [])) ∷ [])

b_utf8 : is_utf8 (text "b") ≡ true
unfolding is_utf8 text
b_utf8 = refl

a_utf8 : is_utf8 (text "a") ≡ true
unfolding is_utf8 text
a_utf8 = refl

abbrev named : Text → Json
named name =
    members ((text "name", Json.string name) ∷ (text "type", Json.string (text "JWK")) ∷ [])

abbrev issuers_of : List Json → Json
issuers_of items =
    members ((text "authority", members ((text "provisioners", sample.array items) ∷ [])) ∷ [])

abbrev of_b : List Json
of_b = named (host_provisioner_name (text "b")) ∷ []

abbrev of_both : Json
of_both = issuers_of (named (host_provisioner_name (text "a")) ∷ of_b)

host_removed :
    remove_host sample path of_both
      (text "a")
      (host_provisioner_name (text "a"))
      (user_provisioner_host_suffix (text "a"))
    ≡ ok (with_provisioners sample of_both of_b, host_provisioner_name (text "a") ∷ [])
unfolding remove_host remove_matching live_provisioners eq_text text retain matches_host get_str
    host_provisioner_name starts_with parse_x509_provisioner_name
host_removed = refl

remove_host-takes_example :
    (gone : Json → Bool) × (items : List Json) × (live_provisioners sample path of_both ≡ ok items)
    × (live_provisioners sample path (with_provisioners sample of_both of_b)
        ≡ ok (filter (λ v. not (gone v)) items))
    × (host_provisioner_name (text "a") ∷ [] ≡ names_of sample (filter gone items))
    × ((v : Json) → DecidesBy sample (text "a") gone v)
remove_host-takes_example =
    remove_host-takes sample (text "a") a_utf8 path of_both (with_provisioners sample of_both of_b)
      (host_provisioner_name (text "a") ∷ []) host_removed

claims-Keyed : Keyed sample (user_claims sample user_issuer)
unfolding user_claims user_claims_for text eq_text
claims-Keyed = ((refl, (refl, tt)), ((refl, tt), (tt, tt)))

extra-apart : All (λ m. eq_text m.0 (text "extra") ≡ false) (user_claims sample user_issuer)
unfolding user_claims user_claims_for text eq_text
extra-apart = (refl, (refl, (refl, tt)))

abbrev with_extra : Json
with_extra = members ((text "extra", Json.boolean true) ∷ [])

reconcile_object-Holds_example :
    All
      (Holds sample (reconcile_object sample with_extra (user_claims sample user_issuer)).0)
      (user_claims sample user_issuer)
    × (sample.get
          (reconcile_object sample with_extra (user_claims sample user_issuer)).0
          (text "extra")
        ≡ sample.get with_extra (text "extra"))
reconcile_object-Holds_example =
    reconcile_object-Holds sample with_extra (user_claims sample user_issuer) (text "extra") refl
      claims-Keyed extra-apart

abbrev renewed : Json
renewed = issuer (text "e") (text "new")

installed :
    upsert_renewal_provisioner sample path live_items renewed
    ≡ some (ok (acme ∷ renewed ∷ issuer (text "h") (text "{}") ∷ []))
unfolding upsert_renewal_provisioner upsert_at indices_from item_at put_at get_str text eq_text
installed = refl

upsert_renewal_provisioner-Installed_example :
    (name : Text) × (get_str sample renewed (text "name") ≡ some name)
    × Installed sample name renewed live_items (acme ∷ renewed ∷ issuer (text "h") (text "{}") ∷ [])
upsert_renewal_provisioner-Installed_example =
    upsert_renewal_provisioner-Installed sample path live_items renewed
      (acme ∷ renewed ∷ issuer (text "h") (text "{}") ∷ []) installed

abbrev swept : Result (ClaimsReconciliation Json)
swept = reconcile_claims sample sample_policy path ca_json (ok authority_policy)

abbrev after : ClaimsReconciliation Json
after = elim swept [
  | ok r ↦ r
  | err e ↦ record {
    config = ca_json;
    authority_policy_updated = false;
    updated = [];
    removed = [];
  }
]

swept_ok : swept ≡ ok after
unfolding live_provisioners with_provisioners provisioner_names user_claims_for user_claims
    user_renewal_claims host_claims_for host_claims host_renewal_claims reconcile_object
    reconcile_provisioner_claims enrollment_options reconcile_enrollment_options indices_from
    item_at put_at upsert_at upsert_renewal_provisioner required_index
    reconcile_required_provisioner optional_active_provisioner active_provisioner
    user_client_provisioner host_provisioner without_sshpop reconcile_user_client reconcile_host
    reconcile_x509 trim_zeros coordinate first_line active_cert marker from_template x509_template
    x509_claims x509_provisioner live_name template_of pinned_key live_key declared reconcile_live
    is_revoked count_opened is_deny_template is_x509_provisioner is_retired
    remove_retired_provisioners is_offender require_x509_deny reconcile_managed_value
    reconcile_paths reconcile_authority_policy desired_claims reconcile_options reconcile_claimed
    reconcile_named reconcile_each reconcile_claims matches_exact matches_user_prefix matches_host
    retain remove_matching remove_exact remove_user remove_host get_str step_max_ttl
    renewal_default_ttl renewal_max_ttl inferred_renewal_max_ttl longest_with longest
    duration_or_zero text eq_text strip_prefix starts_with ends_with strip_suffix split_once trim
    trim_start trim_end is_utf8 parse_x509_provisioner_name parse_user_provisioner_name
    parse_host_provisioner_name
swept_ok = refl

reconcile_claims-IsHarmless_example :
    (items : List Json) × (live_provisioners sample path after.config ≡ ok items)
    × All (IsHarmless sample) items
reconcile_claims-IsHarmless_example =
    reconcile_claims-IsHarmless sample sample_policy path ca_json (ok authority_policy) after
      swept_ok

abbrev left : List Json
left = issuer (text "e") (text "{}") ∷ issuer (text "h") (text "{}") ∷ []

acme_removed :
    remove_matching sample path ca_json (matches_exact (text "acme"))
    ≡ ok (with_provisioners sample ca_json left, text "acme" ∷ [])
unfolding remove_matching matches_exact retain live_provisioners get_str text eq_text
acme_removed = refl
