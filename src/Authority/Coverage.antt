-- ===== src/Authority/Coverage.antt =====
-- The live enrollments that a revocation covers, and the demand that the registry knows each of
-- them, in the command line.
use mathlib.Core.Option
use grafhome_ca.Base.{
  join, ◌>>=◌, Bool, Option, Result, Text, [], eq_text, filter, if◌then◌else◌, is_empty, map, none,
  not, ok, some, text, text_leb, true, ◌&&◌, ◌++◌, ◌∷◌, List, any, ensure, ok_or, validation,
}
use grafhome_ca.External.{External}
use grafhome_ca.Keys.{get_str, canonical_jwk}
use grafhome_ca.Names.{
  host_provisioner_name, parse_user_provisioner_name, parse_x509_provisioner_name, x509_identity,
}
use grafhome_ca.Registry.Record.{EnrollmentRecord, identity, renewal_public_jwk}
use grafhome_ca.Registry.Store.{live}
use grafhome_ca.Runtime.Live.{live_provisioners, provisioners_field}

pub record LiveEnrollment (V : Type 0) : Type 0 where
  pub identity : Text
  pub renewal_public_jwk : V

-- The closures that name the enrollments of a revocation.
abbrev pub IdentityFor : Type 0
IdentityFor = Text → Option Text

abbrev user_identity : Text → Text → Text
user_identity u h = text "user " ++ (u ++ (text "@" ++ h))

x509_identity_on : Text → Option (Text × Text) → Option Text
x509_identity_on host none = none
x509_identity_on host (some (x509_host, name)) =
    if eq_text x509_host host then some (x509_identity x509_host name) else none

-- Behind the test for the host's own provisioner.
client_identity_on : Text → Text → Option (Text × Text) → Option Text
unfolding x509_identity_on
client_identity_on host name none = x509_identity_on host (parse_x509_provisioner_name name)
client_identity_on host name (some (u, client_host)) =
    if eq_text client_host host
    then some (user_identity u client_host)
    else x509_identity_on host (parse_x509_provisioner_name name)

-- `live_host_enrollments`
unfoldable pub identity_on_host : Text → IdentityFor
unfolding client_identity_on
identity_on_host host name =
    if eq_text name (host_provisioner_name host)
    then some (text "host " ++ host)
    else client_identity_on host name (parse_user_provisioner_name name)

-- `host.is_none_or(|host| client_host == host)`
abbrev pub on_host : Option Text → Text → Bool
on_host none client_host = true
on_host (some host) client_host = eq_text client_host host

-- `live_user_enrollments`
unfoldable pub identity_of_user : Text → Option Text → IdentityFor
identity_of_user user host name = elim (parse_user_provisioner_name name) [
  | none ↦ none
  | some (item_user, client_host) ↦
      if eq_text item_user user && on_host host client_host
      then some (user_identity item_user client_host)
      else none
]

-- The closure of `revoke_x509`.
unfoldable pub identity_of_x509 : Text → Text → IdentityFor
identity_of_x509 provisioner id name = if eq_text name provisioner then some id else none

-- The name of a provisioner and its identity.
abbrev pub named : IdentityFor → Option Text → Option (Text × Text)
named identity_for none = none
named identity_for (some name) = elim (identity_for name) [
  | none ↦ none
  | some id ↦ some (name, id)
]

module _ (x : External) where
  open x use {Value, value_eq, get}

  -- `BTreeMap::insert`, in the order of the identities; `none` where the key is there.
  unfoldable pub insert_enrollment :
      Text → Value → List (LiveEnrollment Value) → Option (List (LiveEnrollment Value))
  insert_enrollment id key [] = some (record { identity = id; renewal_public_jwk = key } ∷ [])
  insert_enrollment id key (e ∷ es) =
      let new : LiveEnrollment Value = record { identity = id; renewal_public_jwk = key } in
      let rest = Option.map (λ es'. e ∷ es') (insert_enrollment id key es) in
      if eq_text e.identity id
      then none
      else if text_leb id e.identity
      then some (new ∷ e ∷ es)
      else rest

  -- One provisioner that has an identity.
  unfoldable pub add_enrollment :
      Text
      → Text
      → Text
      → Value
      → List (LiveEnrollment Value)
      → Result (List (LiveEnrollment Value))
  unfolding insert_enrollment
  add_enrollment ca_json name id item enrollments = do
    value ← ok_or (get item (text "key")) (
        validation (provisioners_field ca_json)
          (text "live enrollment provisioner " ++ (name ++ text " has no public key")))
    (key, _) ← canonical_jwk x value
    ok_or (insert_enrollment id key enrollments) (
        validation (provisioners_field ca_json)
          (text "live enrollment identity " ++ (id ++ text " is duplicated")))

  -- The loop over the provisioners.
  unfoldable pub collect_enrollments :
      Text
      → IdentityFor
      → List Value
      → List (LiveEnrollment Value)
      → Result (List (LiveEnrollment Value))
  unfolding add_enrollment
  collect_enrollments ca_json identity_for [] enrollments = ok enrollments
  collect_enrollments ca_json identity_for (item ∷ items) enrollments =
      elim (named identity_for (get_str x item (text "name"))) [
        | none ↦ collect_enrollments ca_json identity_for items enrollments
        | some (name, id) ↦ add_enrollment ca_json name id item enrollments >>= λ enrollments'.
            collect_enrollments ca_json identity_for items enrollments'
      ]

  unfoldable pub live_enrollment_inventory :
      Text → Value → IdentityFor → Result (List (LiveEnrollment Value))
  unfolding collect_enrollments
  live_enrollment_inventory ca_json live_config identity_for = do
    provisioners ← live_provisioners x ca_json live_config
    collect_enrollments ca_json identity_for provisioners []

  -- Some record that is not revoked has the identity and the key.
  unfoldable pub is_covered : List (EnrollmentRecord Value) → LiveEnrollment Value → Bool
  is_covered records e =
      any
        (λ r.
          live r
          && eq_text (identity r) e.identity
          && value_eq (renewal_public_jwk r) e.renewal_public_jwk)
        records

  unfoldable pub require_registry_coverage :
      List (EnrollmentRecord Value) → List (LiveEnrollment Value) → Result (Unit {0})
  unfolding is_covered
  require_registry_coverage records live_enrollments =
      let missing =
        map (λ e. e.identity) (filter (λ e. not (is_covered records e)) live_enrollments) in
      ensure (is_empty missing) (
        validation (text "revoke enrollment") (
          text "live enrollment keys are absent from the CA registry: "
          ++ (join (text ", ") missing
              ++ text
                  "; before revoking, export SSH enrollments on each target and run `grafhome-ca ssh enrollment import`, or restore X.509 enrollments from a registry backup")))
