-- ===== src/Policy/Panics/Whole.antt =====
-- `validate` never panics on durations that can be taken apart.
use grafhome_ca.Policy.Panics.Loops.{validate_relations-some}
use grafhome_ca.Policy.Validation.{
  check_endpoints, check_target, host_names, require_role, validate_policy,
}
use grafhome_ca.Policy.Certificates.{
  Owners, check_certs, check_declared, check_lifecycle, check_name, check_names, validate_x509,
}
use grafhome_ca.External.{External}
use grafhome_ca.Policy.Model.{Endpoint, Policy, X509Cert}
use grafhome_ca.Base.{All, List, Text, [], none, ◌∷◌, ◌≢◌}
use grafhome_ca.Policy.Panics.{
  >>-some, >>=-some, EndsWell, Splittable, each-always, lift-some, validate_step_duration-some,
}

check_name-some :
    (c : X509Cert) (own : List Text) (owners : Owners) (n : Text) → check_name c own owners n ≢ none
unfolding check_name
check_name-some c own owners n = search (>>-some, lift-some) depth 12

check_names-some :
    (c : X509Cert) (own : List Text) (owners : Owners) (names : List Text)
    → check_names c own owners names ≢ none
unfolding check_names
check_names-some c own owners [] = lift-some _
check_names-some c own owners (n ∷ names) =
    >>=-some _ _ (check_name-some c own owners n)
      λ _ _. check_names-some c (n ∷ own) ((n, c.host) ∷ owners) names

check_declared-some :
    (c : X509Cert) (hosts : List Text) (declared : List (Text × Text))
    → check_declared c hosts declared ≢ none
unfolding check_declared
check_declared-some c hosts declared = search (>>-some, lift-some) depth 12

check_lifecycle-some : (c : X509Cert) → EndsWell c.ttl → check_lifecycle c ≢ none
unfolding check_lifecycle
check_lifecycle-some c h = search (>>-some, lift-some, validate_step_duration-some) depth 12

check_certs-some :
    (hosts : List Text) (owners : Owners) (declared : List (Text × Text)) (certs : List X509Cert)
    → All (λ c. EndsWell c.ttl) certs
    → check_certs hosts owners declared certs ≢ none
unfolding check_certs
check_certs-some hosts owners declared [] h = λ e. cc
check_certs-some hosts owners declared (c ∷ certs) (e, h) =
    search
      (
        >>-some,
        >>=-some,
        check_declared-some,
        check_names-some,
        check_lifecycle-some,
        λ (o : Owners). check_certs-some hosts o ((c.host, c.name) ∷ declared) certs h,
      )
      depth 12

check_endpoints-some : (roles : List Text) (es : List Endpoint) → check_endpoints roles es ≢ none
unfolding check_endpoints
check_endpoints-some roles [] = lift-some _
check_endpoints-some roles (e ∷ es) =
    search (>>=-some, lift-some, check_endpoints-some (e.role ∷ roles) es) depth 12

-- `validate` does not panic on a policy none of whose durations ends inside a character: none of
-- its `expect`s fires, and no `split_at` is refused.
pub validate_policy-some :
    (x : External) (policy : Policy) → Splittable policy → validate_policy x policy ≢ none
unfolding validate_policy validate_x509 require_role check_target
validate_policy-some x policy ends =
    search
      (
        >>-some,
        >>=-some,
        lift-some,
        each-always,
        check_endpoints-some,
        validate_relations-some policy ends,
        check_certs-some (host_names policy) [] [] policy.x509_certs ends.certificates,
      )
      depth 30 fits 4000
