-- ===== src/Runtime/Sweep.antt =====
-- `reconcile_claims` of runtime_provisioners.rs: the routine pass over every live provisioner.
use grafhome_ca.Runtime.Certificates.{reconcile_live}
use grafhome_ca.Names.{parse_host_provisioner_name, parse_user_provisioner_name}
use grafhome_ca.Runtime.Live.{live_provisioners, with_provisioners}
use grafhome_ca.Runtime.Reconcile.{
  is_x509_provisioner, reconcile_authority_policy, remove_retired_provisioners, require_x509_deny,
}
use grafhome_ca.Runtime.Claims.{
  host_claims, host_renewal_claims, reconcile_enrollment_options, reconcile_provisioner_claims,
  user_claims, user_renewal_claims,
}
use grafhome_ca.Policy.Fields.{host_bootstrap, user_enrollment}
use grafhome_ca.Keys.{get_str}
use grafhome_ca.Runtime.Enroll.{active_provisioner}
use grafhome_ca.External.{External}
use grafhome_ca.Policy.Model.{Policy, Provisioner}
use grafhome_ca.Base.{
  ◌>>=◌, ◌>>◌, Bool, List, Option, Result, Text, [], eq_text, false, if◌then◌else◌, none, some,
  text, true, ◌||◌, ◌∷◌, ok,
}

-- `ClaimsReconciliation`, with the configuration as it is serialised.
pub record ClaimsReconciliation (Value : Type 0) : Type 0 where
  pub config : Value
  pub authority_policy_updated : Bool
  pub updated : List Text
  pub removed : List Text

module _ (x : External) where
  open x use {Value, value_eq, get, string}

  -- The claims for a live name; `none` is the `continue` of the loop.
  unfoldable pub desired_claims :
      Policy → Provisioner → Provisioner → Text → Option (List (Text × Value))
  desired_claims policy user_p host_p name =
      if eq_text name user_p.name
      then some (user_claims x user_p)
      else if is_parsed (parse_user_provisioner_name name)
      then some (user_renewal_claims x policy user_p)
      else if eq_text name host_p.name
      then some (host_claims x host_p)
      else if is_named_host (parse_host_provisioner_name name)
      then some (host_renewal_claims x policy host_p)
      else none
    where
      is_parsed : Option (Text × Text) → Bool
      is_parsed none = false
      is_parsed (some pair) = true

      is_named_host : Option Text → Bool
      is_named_host none = false
      is_named_host (some name) = true

  -- The options that the loop keeps on the two enrollment provisioners.
  unfoldable pub reconcile_options :
      Provisioner → Provisioner → Text → Value → Text → Result (Value × Bool)
  reconcile_options user_p host_p name v path =
      if eq_text name user_p.name
      then reconcile_enrollment_options x v user_p path
      else if eq_text name host_p.name
      then reconcile_enrollment_options x v host_p path
      else ok (v, false)

  -- The claims and the options of one provisioner.
  unfoldable pub reconcile_claimed :
      Provisioner → Provisioner → Text → Text → Value → List (Text × Value) → Result (Value × Bool)
  unfolding reconcile_options
  reconcile_claimed user_p host_p path name v desired = do
    (claimed, claims_changed) ← reconcile_provisioner_claims x v name desired path
    (bound, options_changed) ← reconcile_options user_p host_p name claimed path
    ok (bound, claims_changed || options_changed)

  -- One turn of the loop on a provisioner that has a name.
  unfoldable pub reconcile_named :
      Policy → Provisioner → Provisioner → Text → Text → Value → Result (Value × Bool)
  unfolding reconcile_claimed
  reconcile_named policy user_p host_p path name v =
      if is_x509_provisioner x v
      then (reconcile_live x policy v >>= λ desired.
          ok (if value_eq v desired then (v, false) else (desired, true)))
      else elim (desired_claims policy user_p host_p name) [
        | none ↦ ok (v, false)
        | some desired ↦ reconcile_claimed user_p host_p path name v desired
      ]

  -- The loop: the provisioners, and the names of the changed ones.
  unfoldable pub reconcile_each :
      Policy → Provisioner → Provisioner → Text → List Value → Result (List Value × List Text)
  unfolding reconcile_named
  reconcile_each policy user_p host_p path [] = ok ([], [])
  reconcile_each policy user_p host_p path (v ∷ items) = elim (get_str x v (text "name")) [
    | none ↦ reconcile_each policy user_p host_p path items >>= λ (later, updated).
        ok (v ∷ later, updated)
    | some name ↦ reconcile_named policy user_p host_p path name v >>= λ (w, changed).
        reconcile_each policy user_p host_p path items >>= λ (later, updated).
        ok (w ∷ later, if changed then name ∷ updated else updated)
  ]

  unfoldable pub reconcile_claims :
      Policy → Text → Value → Result Value → Result (ClaimsReconciliation Value)
  unfolding reconcile_each
  reconcile_claims policy path config rendered = do
    user_p ← active_provisioner policy user_enrollment
    host_p ← active_provisioner policy host_bootstrap
    (governed, authority_policy_updated) ← reconcile_authority_policy x config rendered path
    items ← live_provisioners x path governed
    (kept, removed) ← remove_retired_provisioners x policy items
    (swept, updated) ← reconcile_each policy user_p host_p path kept
    require_x509_deny x swept path
    ok (record {
      config = with_provisioners x governed swept;
      authority_policy_updated = authority_policy_updated;
      updated = updated;
      removed = removed;
    })
