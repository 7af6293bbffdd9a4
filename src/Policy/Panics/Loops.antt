-- ===== src/Policy/Panics/Loops.antt =====
-- `validate_relations` never panics on durations that can be taken apart.
use grafhome_ca.Policy.Validation.{host_names}
use grafhome_ca.Policy.Fields.{
  ensure_contains, reject_root_identity, unique_from-contains, unique_values,
}
use grafhome_ca.Policy.Relations.{
  Row, check_access, check_accesses, check_admin_host, check_admins, check_client, check_clients,
  check_duration, check_lifetime, check_max_ttl, check_principals, check_provisioner, check_user,
  find_provisioner, provisioners_table, users_table, validate_relations,
}
use grafhome_ca.Policy.Model.{
  Host, Policy, Provisioner, User, UserClient, UserRemote, find_host, is_active,
}
use grafhome_ca.Base.{
  Bool-cases, List, Text, [], contains_text, inl, inr, map, none, ok, some, sym, text, true, ◌∙◌,
  ◌∷◌, ◌≡◌, ◌≢◌, All-map,
}
use grafhome_ca.Policy.Panics.{
  >>-some, >>=-some, EndsWell, OptionEndsWell, Splittable, each-always, each-some,
  ensure_contains-accepted, find-some, lift-some, validate_step_duration-some, expect-some, total,
}
use grafhome_ca.Policy.Checked.{
  accepted, each, each-accepted, expect, lift-accepted, >>-accepted, lift,
}

check_provisioner-some :
    (policy : Policy) (p : Provisioner)
    → EndsWell p.default_ttl
    → EndsWell p.max_ttl
    → OptionEndsWell p.renewal_default
    → OptionEndsWell p.renewal_max
    → check_provisioner policy p ≢ none
unfolding check_provisioner check_duration check_max_ttl
check_provisioner-some policy p a b c d = search total depth 16

check_principals-some : (seen : List Text) (hs : List Host) → check_principals seen hs ≢ none
unfolding check_principals
check_principals-some seen [] = λ e. cc
check_principals-some seen (h ∷ hs) =
    search (total, λ (s : List Text). check_principals-some s hs) depth 16

check_admins-some : (policy : Policy) → check_admins policy ≢ none
unfolding check_admins check_admin_host
check_admins-some policy = search (total, each-always) depth 16

-- The set that `unique_values` returns for the names of a column.
abbrev SetOf {ℓ} : {A : Type ℓ} → List Text → (A → Text) → List A → Type 0
SetOf names key xs = (t : Text) → contains_text names t ≡ contains_text (map key xs) t

module _ (policy : Policy) (provisioners : List Text)
    (known : SetOf provisioners (λ p. p.name) policy.provisioners) where
  provisioner-some :
      (t : Text) → contains_text provisioners t ≡ true → expect (find_provisioner policy t) ≢ none
  unfolding find_provisioner
  provisioner-some t h =
      expect-some (find_provisioner policy t)
        (find-some (λ p. p.name) t policy.provisioners (sym (known t) ∙ h))

  check_user-some : (u : User) → EndsWell u.cert_ttl → check_user policy provisioners u ≢ none
  unfolding check_user
  check_user-some u h =
      search
        (
          >>-some, >>=-some, lift-some, provisioner-some, ensure_contains-accepted,
          validate_step_duration-some,
        )
        depth 16

  check_lifetime-some :
      (u : User) → check_user policy provisioners u ≡ accepted → check_lifetime policy u ≢ none
  unfolding check_lifetime check_user
  check_lifetime-some u h =
      let (_, h1) =
        >>-accepted (lift (reject_root_identity users_table u.user (text "user") u.user)) _ h in
      let (_, h2) =
        >>-accepted (lift (reject_root_identity users_table u.user (text "principal") u.principal))
          _ h1 in
      let (e, _) =
        >>-accepted
          (lift
            (ensure_contains users_table u.user (text "provisioner") u.provisioner provisioners))
          _ h2 in
      let k = provisioner-some u.provisioner (
        ensure_contains-accepted users_table u.user (text "provisioner") u.provisioner provisioners
          e) in
      elim (Bool-cases (is_active u.status)) [
        | inl a ↦ rw a (>>=-some _ _ k λ p _. lift-some _)
        | inr a ↦ rw a (λ q. cc)
      ]

module _ (policy : Policy) (users : List Text) where
  host-some :
      (t : Text) → contains_text (host_names policy) t ≡ true → expect (find_host policy t) ≢ none
  unfolding find_host host_names
  host-some t h = expect-some (find_host policy t) (find-some (λ s. s.host) t policy.hosts h)

  check_access-some : (a : UserRemote) → check_access policy users (host_names policy) a ≢ none
  unfolding check_access
  check_access-some a = search (total, host-some) depth 16

  check_accesses-some :
      (seen : List Row) (rows : List UserRemote)
      → check_accesses policy users (host_names policy) seen rows ≢ none
  unfolding check_accesses
  check_accesses-some seen [] = λ e. cc
  check_accesses-some seen (a ∷ rows) =
      search (total, check_access-some, λ (s : List Row). check_accesses-some s rows) depth 16

  check_client-some : (c : UserClient) → check_client policy users (host_names policy) c ≢ none
  unfolding check_client
  check_client-some c = search (total, host-some) depth 16

  check_clients-some :
      (seen : List (Text × Text)) (rows : List UserClient)
      → check_clients policy users (host_names policy) seen rows ≢ none
  unfolding check_clients
  check_clients-some seen [] = λ e. cc
  check_clients-some seen (c ∷ rows) =
      search (total, check_client-some, λ (s : List (Text × Text)). check_clients-some s rows) depth
        16

module _ (policy : Policy) (ends : Splittable policy) where
  -- The two loops that look provisioners up.
  abbrev Named : List Text → Type 0
  Named names =
      lift (unique_values provisioners_table (map (λ p. p.name) policy.provisioners) (text "name"))
      ≡ some (ok names)

  names-SetOf : (names : List Text) → Named names → SetOf names (λ p. p.name) policy.provisioners
  unfolding unique_values contains_text
  names-SetOf names h t =
      unique_from-contains provisioners_table (text "name") []
        (map (λ p. p.name) policy.provisioners) names t (lift-accepted _ h)

  users-some :
      (names : List Text) → Named names → each (check_user policy names) policy.users ≢ none
  users-some names h = each-some (check_user policy names) policy.users (
      All-map (λ u e. check_user-some policy names (names-SetOf names h) u e) policy.users
        ends.users)

  lifetimes-some :
      (names : List Text)
      → Named names
      → each (check_user policy names) policy.users ≡ accepted
      → each (check_lifetime policy) policy.users ≢ none
  lifetimes-some names h k = each-some (check_lifetime policy) policy.users (
      All-map (λ u e. check_lifetime-some policy names (names-SetOf names h) u e) policy.users
        (each-accepted (check_user policy names) policy.users k))

  provisioners-some : each (check_provisioner policy) policy.provisioners ≢ none
  provisioners-some = each-some (check_provisioner policy) policy.provisioners (
      All-map (λ p e. check_provisioner-some policy p e.0 e.1 e.2 e.3) policy.provisioners
        ends.provisioners)

  pub validate_relations-some : validate_relations policy (host_names policy) ≢ none
  unfolding validate_relations
  validate_relations-some =
      search
        (
          >>-some,
          >>=-some,
          lift-some,
          users-some,
          lifetimes-some,
          provisioners-some,
          check_principals-some,
          check_accesses-some policy,
          check_admins-some,
          check_clients-some policy,
        )
        depth 40 fits 8000
