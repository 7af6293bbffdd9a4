-- ===== src/Policy/Admins.antt =====
-- The lockout safeguard of `validate_relations`, and the lifetimes that it compares.
use grafhome_ca.Policy.Accepted.{validate_policy-Parts, validate_relations-Relations}
use grafhome_ca.Policy.Validation.{host_names, validate_policy}
use grafhome_ca.External.{External}
use grafhome_ca.Policy.Checked.{accepted, >>-accepted, each, lift, each-accepted}
use grafhome_ca.Policy.Relations.{
  ssh_admins, check_admin_host, hosts_with_admin_access, check_admins,
}
use grafhome_ca.Base.{
  Any, Bool, Bool-cases, List, Text, [], contains_text, filter, inl, inr, map, true, ◌&&◌, ◌∷◌, ◌≡◌,
  Any-map, All, arith, eq_text, eq_text_iff, is_empty, refuse, All-filter, Any-filter, All-map,
  if-eq-true,
}
use grafhome_ca.Policy.Model.{
  is_active, Policy, User, UserRemote, active_ssh_access, has_ssh_role, ssh_server, find_user,
  is_active_user,
}

-- A member that is active and marked as an administrator.
abbrev pub IsAdmin : Text → User → Type 0
IsAdmin name u = (u.user ≡ name) × (u.ssh_admin ≡ true) × (is_active u.status ≡ true)

-- A row that lets an administrator log in on the host.
abbrev pub IsAdminLogin : Policy → Text → UserRemote → Type 0
IsAdminLogin policy host a =
    (a.host ≡ host)
    × (a.allow_ssh ≡ true)
    × (is_active a.status ≡ true)
    × Any (IsAdmin a.user) policy.users

module _ {ℓ} {A : Type ℓ} (key : A → Text) where
  contains_text-map :
      (xs : List A) (t : Text) → contains_text (map key xs) t ≡ true → Any (λ a. key a ≡ t) xs
  unfolding contains_text
  contains_text-map [] t h = cc
  contains_text-map (x ∷ xs) t h = elim (Bool-cases (eq_text t (key x))) [
    | inl same ↦ inl (ground (arith, eq_text_iff t (key x)))
    | inr other ↦ inr (contains_text-map xs t (ground arith))
  ]

ssh_admins-IsAdmin :
    (policy : Policy) (name : Text)
    → contains_text (ssh_admins policy) name ≡ true
    → Any (IsAdmin name) policy.users
unfolding ssh_admins
ssh_admins-IsAdmin policy name h =
    let p : User → Bool = λ u. u.ssh_admin && is_active u.status in
    Any-map (λ u (e, k). (e, ground arith, ground arith)) policy.users
      (Any-filter (λ u. u.user ≡ name) p policy.users
        (contains_text-map (λ u. u.user) (filter p policy.users) name h))

hosts_with_admin_access-IsAdminLogin :
    (policy : Policy) (host : Text)
    → contains_text (hosts_with_admin_access policy) host ≡ true
    → Any (IsAdminLogin policy host) policy.user_remotes
unfolding hosts_with_admin_access active_ssh_access
hosts_with_admin_access-IsAdminLogin policy host h =
    let q : UserRemote → Bool = λ a. contains_text (ssh_admins policy) a.user in
    let p : UserRemote → Bool =
      λ a. is_active a.status && a.allow_ssh && is_active_user (find_user policy a.user) in
    let k =
      Any-filter (λ a. a.host ≡ host) q (filter p policy.user_remotes)
        (contains_text-map (λ a. a.host) (filter q (filter p policy.user_remotes)) host h) in
    Any-map (λ a (e, r). (e.0, ground arith, ground arith, ssh_admins-IsAdmin policy a.user e.1))
      policy.user_remotes (Any-filter (λ a. (a.host ≡ host) × (q a ≡ true)) p policy.user_remotes k)

-- In an accepted policy that requires administrator access, every SSH server has an active row
-- that allows SSH for an active user with `ssh_admin`.
pub validate_policy-IsAdminLogin :
    (x : External) (policy : Policy)
    → policy.require_ssh_admin_access ≡ true
    → validate_policy x policy ≡ accepted
    → All
        (λ s.
          has_ssh_role s ssh_server ≡ true → Any (IsAdminLogin policy s.host) policy.user_remotes)
        policy.hosts
unfolding check_admins check_admin_host
validate_policy-IsAdminLogin x policy e h =
    let r =
      validate_relations-Relations policy (host_names policy)
        ((validate_policy-Parts x policy h).relations) in
    let servers = filter (λ s. has_ssh_role s ssh_server) policy.hosts in
    let (_, k) =
      >>-accepted (lift (refuse (is_empty (ssh_admins policy)) _))
        (each (check_admin_host policy) servers)
        (if-eq-true policy.require_ssh_admin_access _ _ e r.admins) in
    All-filter (λ s. Any (IsAdminLogin policy s.host) policy.user_remotes)
      (λ s. has_ssh_role s ssh_server) policy.hosts
      (All-map (λ s c. hosts_with_admin_access-IsAdminLogin policy s.host (ground arith)) servers
        (each-accepted (check_admin_host policy) servers k))
