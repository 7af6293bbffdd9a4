-- ===== src/Policy/Sans.antt =====
-- A DNS name belongs to one host: what `validate_x509` makes sure of.
use grafhome_ca.Policy.Accepted.{validate_policy-Parts}
use grafhome_ca.Policy.Validation.{host_names, validate_policy}
use grafhome_ca.External.{External}
use grafhome_ca.Identity.{valid_dns_name}
use grafhome_ca.Policy.Model.{X509Cert, Policy}
use grafhome_ca.Policy.Certificates.{
  Owners, check_name, check_names, check_owner, owner_of, check_certs, check_declared,
  check_lifecycle, validate_x509,
}
use grafhome_ca.Policy.Checked.{>>-accepted, >>=-accepted, accepted, lift, lift-accepted}
use grafhome_ca.Base.{
  ◌≡◌, List, Option, Text, [], arith, contains_byte, contains_text, ensure, eq_text_iff, none, ok,
  refuse, some, true, ◌∷◌, All, Bool-cases, Pairwise, eq_text, inl, inr, sym, All-map, All-forall,
}

-- Certificates that share a name belong to the same host.
abbrev pub SharesHost : X509Cert → X509Cert → Type 0
SharesHost c d =
    (n : Text) → contains_text c.names n ≡ true → contains_text d.names n ≡ true → c.host ≡ d.host

module _ (c : X509Cert) where
  check_owner-ok :
      (name : Text) (o : Option Text) (h : Text)
      → check_owner c name o ≡ ok tt
      → o ≡ some h
      → h ≡ c.host
  unfolding check_owner
  check_owner-ok name none h k e = cc
  check_owner-ok name (some owner) h k e = ground (arith, eq_text_iff owner c.host)

  check_name-ok :
      (own : List Text) (owners : Owners) (name : Text)
      → check_name c own owners name ≡ accepted
      → check_owner c name (owner_of owners name) ≡ ok tt
  unfolding check_name
  check_name-ok own owners name h =
      let (_, h1) = >>-accepted (lift (refuse (contains_byte b'*' name) _)) _ h in
      let (_, h2) = >>-accepted (lift (ensure (valid_dns_name name) _)) _ h1 in
      let (_, h3) = >>-accepted (lift (refuse (contains_text own name) _)) _ h2 in
      lift-accepted (check_owner c name (owner_of owners name)) h3

  -- What the loop over the names does to the map.
  pub record Inserted (names : List Text) (owners owners' : Owners) : Type 0 where
    pub kept : (n h : Text) → owner_of owners n ≡ some h → owner_of owners' n ≡ some h
    pub found : (n : Text) → contains_text names n ≡ true → owner_of owners' n ≡ some c.host

  check_names-ok :
      (own : List Text) (owners owners' : Owners) (names : List Text)
      → check_names c own owners names ≡ some (ok owners')
      → Inserted names owners owners'
  unfolding check_names owner_of contains_text
  check_names-ok own owners owners' [] h = record {
    kept = λ n g e. ground arith;
    found = λ n e. cc;
  }
  check_names-ok own owners owners' (name ∷ names) h =
      let (_, e, h1) = >>=-accepted (check_name c own owners name) _ h in
      let ih = check_names-ok (name ∷ own) ((name, c.host) ∷ owners) owners' names h1 in
      let o = check_name-ok own owners name e in
      record {
        kept = λ n g k. ih.kept n g (
            let own = λ (e : owner_of owners name ≡ some g).
              check_owner-ok name (owner_of owners name) g o e in
            ground (arith, own, eq_text_iff name n));
        found = λ n k. elim (Bool-cases (eq_text name n)) [
          | inl same ↦ ih.kept n c.host (rw same)
          | inr other ↦ ih.found n (ground (arith, eq_text_iff name n, eq_text_iff n name))
        ];
      }

-- Certificates that name something of the map stand on the host that it has there.
abbrev Follows : Owners → List X509Cert → Type 0
Follows owners certs =
    (n h : Text)
    → owner_of owners n ≡ some h
    → All (λ d. contains_text d.names n ≡ true → d.host ≡ h) certs

pub check_certs-SharesHost :
    (hosts : List Text) (owners : Owners) (declared : List (Text × Text)) (certs : List X509Cert)
    → check_certs hosts owners declared certs ≡ accepted
    → Follows owners certs × Pairwise SharesHost certs
unfolding check_certs
check_certs-SharesHost hosts owners declared [] h = (λ n h e. tt, tt)
check_certs-SharesHost hosts owners declared (c ∷ certs) h =
    let (_, h1) = >>-accepted (check_declared c hosts declared) _ h in
    let (owners', e, h2) = >>=-accepted (check_names c [] owners c.names) _ h1 in
    let (_, h3) = >>-accepted (check_lifecycle c) _ h2 in
    let (later, pairs) =
      check_certs-SharesHost hosts owners' ((c.host, c.name) ∷ declared) certs h3 in
    let i = check_names-ok c [] owners owners' c.names e in
    (
      λ n g k. (λ m. cc (i.kept n g k, i.found n m), later n g (i.kept n g k)),
      (
        All-map (λ d f n m m'. sym (f (n, m) m')) certs
            (All-forall {I = (n : Text) × (contains_text c.names n ≡ true)}
              (λ i d. contains_text d.names i.0 ≡ true → d.host ≡ c.host) certs
              (λ (n, m). later n c.host (i.found n m))),
        pairs,
      ),
    )

-- In an accepted policy, certificates that share a DNS name belong to the same host.
pub validate_policy-SharesHost :
    (x : External) (policy : Policy)
    → validate_policy x policy ≡ accepted
    → Pairwise SharesHost policy.x509_certs
unfolding validate_x509
validate_policy-SharesHost x policy h =
    let parts = validate_policy-Parts x policy h in
    (check_certs-SharesHost (host_names policy) [] [] policy.x509_certs parts.certificates).1
