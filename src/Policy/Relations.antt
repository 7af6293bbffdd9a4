-- ===== src/Policy/Relations.antt =====
-- `Policy::validate_relations` of policy/mod.rs, one function for each of its loops.
use grafhome_ca.Policy.Duration.{duration_at_most, validate_step_duration}
use grafhome_ca.Policy.Fields.{
  ca_policy_field, ensure_contains, expected_provisioner_type, host_policy_field,
  reject_root_identity, unique_values, unlimited_ttl, user_enrollment, user_policy_field,
}
use grafhome_ca.Base.{
  Bool, List, Option, Result, Text, [], any, contains_text, eq_text, false, filter, find,
  if◌then◌else◌, is_empty, none, not, ok, some, text, true, ◌&&◌, ◌++◌, ◌∷◌, ensure, err, map,
  refuse, validation,
}
use grafhome_ca.Policy.Checked.{◌>>=◌, ◌>>◌, Checked, accepted, expect, lift, each}
use grafhome_ca.Policy.Model.{
  Host, Policy, Provisioner, User, UserClient, UserRemote, active_ssh_access, find_host,
  has_ssh_role, is_active, renewal_default_ttl, renewal_max_ttl, ssh_client, ssh_server,
}

abbrev pub users_table : Text
users_table = text "policy/users.toml"

abbrev pub provisioners_table : Text
provisioners_table = text "policy/ca.toml:provisioners"

access_table : Text → Text
access_table host = text "policy/hosts/" ++ (host ++ text ".toml:user_access")

unfoldable pub find_provisioner : Policy → Text → Option Provisioner
find_provisioner policy n = find (λ p. eq_text p.name n) policy.provisioners

-- The first loop over the users.
unfoldable pub check_user : Policy → List Text → User → Checked (Unit {0})
unfolding find_provisioner
check_user policy provisioners u = do
  lift (reject_root_identity users_table u.user (text "user") u.user)
  lift (reject_root_identity users_table u.user (text "principal") u.principal)
  lift (ensure_contains users_table u.user (text "provisioner") u.provisioner provisioners)
  p ← expect (find_provisioner policy u.provisioner)
  lift (
      ensure (eq_text p.role user_enrollment) (
        validation (user_policy_field u.user (text "provisioner"))
          (text "user provisioner must use role user_enrollment")))
  validate_step_duration users_table u.user (text "cert_ttl") u.cert_ttl
  lift (
      refuse (u.ssh_admin && not (is_active u.status)) (
        validation (user_policy_field u.user (text "ssh_admin"))
          (text "SSH administrators must have active status")))

unfoldable pub check_type : Provisioner → Result (Unit {0})
check_type p = elim (expected_provisioner_type p.role) [
  | none ↦ ok tt
  | some expected ↦ ensure (eq_text p.provisioner_type expected) (
      validation (ca_policy_field (text "provisioners") p.role (text "type"))
        (text "provisioner role " ++ (p.role ++ (text " requires type " ++ expected))))
]

unfoldable pub check_duration : Provisioner → Text → Text → Checked (Unit {0})
check_duration p field duration = validate_step_duration provisioners_table p.role field duration

abbrev pub check_optional_duration : Provisioner → Text → Option Text → Checked (Unit {0})
check_optional_duration p field none = accepted
check_optional_duration p field (some duration) = check_duration p field duration

unfoldable pub check_max_ttl : Provisioner → Checked (Unit {0})
check_max_ttl p =
    if eq_text p.max_ttl unlimited_ttl
    then lift (
        ensure (eq_text p.role user_enrollment) (
          validation (ca_policy_field (text "provisioners") p.role (text "max_ttl"))
            (text "unlimited is supported only for user_enrollment")))
    else check_duration p (text "max_ttl") p.max_ttl

-- The loop over the provisioners.
unfoldable pub check_provisioner : Policy → Provisioner → Checked (Unit {0})
unfolding check_type check_max_ttl
check_provisioner policy p = do
  lift (check_type p)
  check_duration p (text "default_ttl") p.default_ttl
  check_max_ttl p
  check_optional_duration p (text "renewal_default_ttl") p.renewal_default
  check_optional_duration p (text "renewal_max_ttl") p.renewal_max
  lift (
      ensure (duration_at_most (renewal_default_ttl p) (renewal_max_ttl policy p)) (
        validation (text "policy/ca.toml:provisioners." ++ (p.role ++ text ".renewal_max_ttl"))
          (text "renewal_max_ttl must be at least renewal_default_ttl")))

-- The second loop over the users.
unfoldable pub check_lifetime : Policy → User → Checked (Unit {0})
check_lifetime policy u =
    if not (is_active u.status)
    then accepted
    else (expect (find_provisioner policy u.provisioner) >>= λ p. lift (
        ensure (duration_at_most u.cert_ttl (renewal_max_ttl policy p)) (
          validation (user_policy_field u.user (text "cert_ttl")) (
            text "cert_ttl must not exceed the user provisioner's renewal_max_ttl ("
            ++ (renewal_max_ttl policy p ++ text ")")))))

-- The loop over one host's principals; the set holds the principals seen before.
unfoldable pub insert_principals : Text → List Text → List Text → Result (List Text)
insert_principals host seen [] = ok seen
insert_principals host seen (p ∷ ps) = elim (contains_text seen p) [
  | true ↦ err (
      validation (host_policy_field host (text "principals"))
        (text "duplicate certificate principal " ++ p))
  | false ↦ insert_principals host (p ∷ seen) ps
]

-- The loop over the hosts.
unfoldable pub check_principals : List Text → List Host → Checked (Unit {0})
unfolding insert_principals
check_principals seen [] = accepted
check_principals seen (h ∷ hs) =
    lift (insert_principals h.host seen h.principals) >>= λ seen'. check_principals seen' hs

abbrev pub Row : Type 0
Row = Text × (Text × Text)

abbrev pub same_row : Row → Row → Bool
same_row (a, (b, c)) (a', (b', c')) = eq_text a a' && (eq_text b b' && eq_text c c')

abbrev pub grants_ssh : UserRemote → Bool
grants_ssh a = a.allow_ssh && is_active a.status

-- One row of the access table, before it is inserted.
unfoldable pub check_access : Policy → List Text → List Text → UserRemote → Checked (Unit {0})
unfolding access_table
check_access policy users hosts a = do
  lift (ensure_contains (access_table a.host) a.user (text "user") a.user users)
  lift (ensure_contains (access_table a.host) a.user (text "host") a.host hosts)
  remote ← expect (find_host policy a.host)
  lift (
      refuse (grants_ssh a && not (has_ssh_role remote ssh_server)) (
        validation (host_policy_field a.host (text "ssh_roles"))
          (text "host " ++ (a.host ++ text " is not an SSH server"))))
  (if grants_ssh a
      then lift
          (reject_root_identity (access_table a.host) a.user (text "unix_account") a.unix_account)
      else accepted)

-- The loop over the access table; the rows seen before come last.
unfoldable pub check_accesses :
    Policy → List Text → List Text → List Row → List UserRemote → Checked (Unit {0})
unfolding check_access access_table
check_accesses policy users hosts seen [] = accepted
check_accesses policy users hosts seen (a ∷ rest) = do
  check_access policy users hosts a
  lift (
      refuse (any (same_row (a.user, (a.host, a.unix_account))) seen) (
        validation (access_table a.host ++ (text "." ++ a.user)) (
          text "duplicate access row for "
          ++ (a.user ++ (text "@" ++ (a.host ++ (text " as " ++ a.unix_account)))))))
  check_accesses policy users hosts ((a.user, (a.host, a.unix_account)) ∷ seen) rest

-- Active users with `ssh_admin`, as a set.
unfoldable pub ssh_admins : Policy → List Text
ssh_admins policy = map (λ u. u.user) (filter (λ u. u.ssh_admin && is_active u.status) policy.users)

unfoldable pub hosts_with_admin_access : Policy → List Text
hosts_with_admin_access policy =
    map (λ a. a.host)
      (filter (λ a. contains_text (ssh_admins policy) a.user) (active_ssh_access policy))

unfoldable pub check_admin_host : Policy → Host → Checked (Unit {0})
check_admin_host policy h = lift (
    ensure (contains_text (hosts_with_admin_access policy) h.host) (
      validation (host_policy_field h.host (text "user_access")) (
        text
          "SSH server must retain an active login path for at least one user with ssh_admin = true")))

-- The lockout safeguard.
unfoldable pub check_admins : Policy → Checked (Unit {0})
unfolding check_admin_host
check_admins policy =
    if policy.require_ssh_admin_access
    then (lift (
          refuse (is_empty (ssh_admins policy)) (
            validation (text "policy/users.toml:require_ssh_admin_access")
              (text "requires at least one active user with ssh_admin = true")))
        >> each (check_admin_host policy) (filter (λ h. has_ssh_role h ssh_server) policy.hosts))
    else lift (
        ensure (is_empty (ssh_admins policy)) (
          validation (text "policy/users.toml:require_ssh_admin_access")
            (text "must be true when users are designated with ssh_admin = true")))

abbrev pub same_pair : Text × Text → Text × Text → Bool
same_pair (a, b) (a', b') = eq_text a a' && eq_text b b'

-- One row of the clients, before it is inserted.
unfoldable pub check_client : Policy → List Text → List Text → UserClient → Checked (Unit {0})
unfolding access_table
check_client policy users hosts c = do
  lift (ensure_contains (access_table c.host) c.host (text "host") c.host hosts)
  lift (ensure_contains (access_table c.host) c.host (text "user") c.user users)
  host ← expect (find_host policy c.host)
  lift (
      refuse (is_active c.status && not (has_ssh_role host ssh_client)) (
        validation (host_policy_field c.host (text "ssh_roles"))
          (text "host " ++ (c.host ++ text " is not an SSH client"))))

unfoldable pub check_clients :
    Policy → List Text → List Text → List (Text × Text) → List UserClient → Checked (Unit {0})
unfolding check_client access_table
check_clients policy users hosts seen [] = accepted
check_clients policy users hosts seen (c ∷ rest) = do
  check_client policy users hosts c
  lift (
      refuse (any (same_pair (c.user, c.host)) seen) (
        validation (access_table c.host ++ (text "." ++ c.user))
          (text "duplicate user client " ++ (c.host ++ (text " for user " ++ c.user)))))
  check_clients policy users hosts ((c.user, c.host) ∷ seen) rest

-- The four sets, then the loops.
unfoldable pub validate_relations : Policy → List Text → Checked (Unit {0})
unfolding check_user check_provisioner check_lifetime check_principals check_accesses check_admins
    check_clients
validate_relations policy hosts = do
  users ← lift (unique_values users_table (map (λ u. u.user) policy.users) (text "user"))
  principals ←
      lift (unique_values users_table (map (λ u. u.principal) policy.users) (text "principal"))
  provisioners ←
      lift (unique_values provisioners_table (map (λ p. p.name) policy.provisioners) (text "name"))
  _ ← lift (unique_values provisioners_table (map (λ p. p.role) policy.provisioners) (text "role"))
  each (check_user policy provisioners) policy.users
  each (check_provisioner policy) policy.provisioners
  each (check_lifetime policy) policy.users
  check_principals principals policy.hosts
  check_accesses policy users hosts [] policy.user_remotes
  check_admins policy
  check_clients policy users hosts [] policy.user_clients
