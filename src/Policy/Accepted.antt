-- ===== src/Policy/Accepted.antt =====
-- What acceptance by the whole `validate` says of its parts.
use grafhome_ca.Policy.Certificates.{validate_x509}
use grafhome_ca.Policy.Revocations.{validate_revocations}
use grafhome_ca.Policy.Relations.{
  validate_relations, check_accesses, check_admins, check_clients, check_lifetime, check_principals,
  check_provisioner, check_user, provisioners_table, users_table,
}
use grafhome_ca.Policy.Validation.{
  check_endpoints, check_target, host_names, require_role, set_size, validate_policy,
}
use grafhome_ca.Policy.Fields.{ca_api, ca_origin, unique_values}
use grafhome_ca.Base.{[], ensure, length, ◌==◌, ◌≡◌, All, List, Text, map, ok, text}
use grafhome_ca.Policy.Model.{Policy}
use grafhome_ca.External.{External}
use grafhome_ca.Policy.Checked.{
  >>-accepted, >>=-accepted, accepted, each, lift, each-accepted, lift-accepted,
}

-- The parts of `validate`.
pub record Parts (x : External) (policy : Policy) : Type 0 where
  pub relations : validate_relations policy (host_names policy) ≡ accepted
  pub certificates : validate_x509 policy (host_names policy) ≡ accepted
  pub revocations : validate_revocations x policy ≡ ok tt

pub validate_policy-Parts :
    (x : External) (policy : Policy) → validate_policy x policy ≡ accepted → Parts x policy
unfolding validate_policy
validate_policy-Parts x policy h =
    let (roles, _, h1) = >>=-accepted (check_endpoints [] policy.endpoints) _ h in
    let (_, h2) = >>-accepted (require_role roles ca_api) _ h1 in
    let (_, h3) = >>-accepted (require_role roles ca_origin) _ h2 in
    let (_, h4) =
      >>-accepted (lift (ensure (set_size (host_names policy) == length policy.hosts) _)) _ h3 in
    let (_, h5) = >>-accepted (each (check_target (host_names policy)) policy.endpoints) _ h4 in
    let (r, h6) = >>-accepted (validate_relations policy (host_names policy)) _ h5 in
    let (c, h7) = >>-accepted (validate_x509 policy (host_names policy)) _ h6 in
    record {
      relations = r;
      certificates = c;
      revocations = lift-accepted (validate_revocations x policy) h7;
    }

-- The loops of `validate_relations`, with the sets that they read.
pub record Relations (policy : Policy) (hosts : List Text) : Type 0 where
  pub users : List Text
  pub users-ok : unique_values users_table (map (λ u. u.user) policy.users) (text "user") ≡ ok users
  pub principals : List Text
  pub principals-ok :
      unique_values users_table (map (λ u. u.principal) policy.users) (text "principal")
      ≡ ok principals
  pub provisioners : List Text
  pub provisioners-ok :
      unique_values provisioners_table (map (λ p. p.name) policy.provisioners) (text "name")
      ≡ ok provisioners
  pub each_user : All (λ u. check_user policy provisioners u ≡ accepted) policy.users
  pub each_provisioner : All (λ p. check_provisioner policy p ≡ accepted) policy.provisioners
  pub each_lifetime : All (λ u. check_lifetime policy u ≡ accepted) policy.users
  pub host_principals : check_principals principals policy.hosts ≡ accepted
  pub accesses : check_accesses policy users hosts [] policy.user_remotes ≡ accepted
  pub admins : check_admins policy ≡ accepted
  pub clients : check_clients policy users hosts [] policy.user_clients ≡ accepted

pub validate_relations-Relations :
    (policy : Policy) (hosts : List Text)
    → validate_relations policy hosts ≡ accepted
    → Relations policy hosts
unfolding validate_relations
validate_relations-Relations policy hosts h =
    let (us, e1, h1) =
      >>=-accepted (lift (unique_values users_table (map (λ u. u.user) policy.users) (text "user")))
        _ h in
    let (ps, e2, h2) =
      >>=-accepted
        (lift (unique_values users_table (map (λ u. u.principal) policy.users) (text "principal")))
        _ h1 in
    let (vs, e3, h3) =
      >>=-accepted
        (lift
          (unique_values provisioners_table (map (λ p. p.name) policy.provisioners) (text "name")))
        _ h2 in
    let (_, _, h4) =
      >>=-accepted
        (lift
          (unique_values provisioners_table (map (λ p. p.role) policy.provisioners) (text "role")))
        _ h3 in
    let (e5, h5) = >>-accepted (each (check_user policy vs) policy.users) _ h4 in
    let (e6, h6) = >>-accepted (each (check_provisioner policy) policy.provisioners) _ h5 in
    let (e7, h7) = >>-accepted (each (check_lifetime policy) policy.users) _ h6 in
    let (e8, h8) = >>-accepted (check_principals ps policy.hosts) _ h7 in
    let (e9, h9) = >>-accepted (check_accesses policy us hosts [] policy.user_remotes) _ h8 in
    let (e10, e11) = >>-accepted (check_admins policy) _ h9 in
    record {
      users = us;
      users-ok =
          lift-accepted (unique_values users_table (map (λ u. u.user) policy.users) (text "user"))
            e1;
      principals = ps;
      principals-ok =
          lift-accepted
            (unique_values users_table (map (λ u. u.principal) policy.users) (text "principal")) e2;
      provisioners = vs;
      provisioners-ok =
          lift-accepted
            (unique_values provisioners_table (map (λ p. p.name) policy.provisioners) (text "name"))
            e3;
      each_user = each-accepted (check_user policy vs) policy.users e5;
      each_provisioner = each-accepted (check_provisioner policy) policy.provisioners e6;
      each_lifetime = each-accepted (check_lifetime policy) policy.users e7;
      host_principals = e8;
      accesses = e9;
      admins = e10;
      clients = e11;
    }
