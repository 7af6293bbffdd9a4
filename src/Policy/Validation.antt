-- ===== src/Policy/Validation.antt =====
-- `Policy::validate` of policy/mod.rs.
use grafhome_ca.Policy.Certificates.{validate_x509}
use grafhome_ca.Policy.Revocations.{validate_revocations}
use grafhome_ca.Policy.Relations.{validate_relations}
use grafhome_ca.Policy.Fields.{ca_api, ca_origin, ca_policy_field}
use grafhome_ca.Base.{
  List, Text, [], contains_text, eq_text, if◌then◌else◌, length, map, ok, text, validation, ◌++◌,
  ◌+◌, ◌==◌, ◌||◌, ◌∷◌, ℕ, ensure, refuse,
}
use grafhome_ca.External.{External}
use grafhome_ca.Policy.Model.{Endpoint, Policy}
use grafhome_ca.Policy.Checked.{◌>>=◌, ◌>>◌, Checked, lift, each}

-- The loop over the endpoints; the set holds the roles before.
unfoldable pub check_endpoints : List Text → List Endpoint → Checked (List Text)
check_endpoints roles [] = lift (ok roles)
check_endpoints roles (e ∷ rest) =
    lift (
      ensure (eq_text e.role ca_api || eq_text e.role ca_origin) (
        validation (ca_policy_field (text "endpoints") e.role (text "role"))
          (text "endpoint role must be ca_api or ca_origin")))
    >>= λ _.
        lift (
          refuse (contains_text roles e.role) (
            validation (ca_policy_field (text "endpoints") e.role (text "role"))
              (text "duplicate endpoint role")))
        >>= λ _.
            lift (
              ensure (eq_text e.scheme (text "https")) (
                validation (ca_policy_field (text "endpoints") e.role (text "scheme"))
                  (text "only https endpoints are supported")))
            >>= λ _. check_endpoints (e.role ∷ roles) rest

unfoldable pub require_role : List Text → Text → Checked (Unit {0})
require_role roles required = lift (
    ensure (contains_text roles required) (
      validation (text "policy/ca.toml:endpoints." ++ required)
        (text "missing required endpoint role")))

unfoldable pub check_target : List Text → Endpoint → Checked (Unit {0})
check_target hosts e = lift (
    ensure (contains_text hosts e.target) (
      validation (ca_policy_field (text "endpoints") e.role (text "target"))
        (text "unknown host " ++ e.target)))

-- The number of members that the set of a list has.
unfoldable pub set_size : List Text → ℕ
set_size [] = 0
set_size (s ∷ ss) = let rest = set_size ss in if contains_text ss s then rest else rest + 1

unfoldable pub host_names : Policy → List Text
host_names policy = map (λ h. h.host) policy.hosts

module _ (x : External) where
  unfoldable pub validate_policy : Policy → Checked (Unit {0})
  unfolding check_endpoints require_role check_target
  validate_policy policy = do
    roles ← check_endpoints [] policy.endpoints
    require_role roles ca_api
    require_role roles ca_origin
    lift (
        ensure (set_size (host_names policy) == length policy.hosts)
          (validation (text "policy host inventory") (text "duplicate host")))
    each (check_target (host_names policy)) policy.endpoints
    validate_relations policy (host_names policy)
    validate_x509 policy (host_names policy)
    lift (validate_revocations x policy)
