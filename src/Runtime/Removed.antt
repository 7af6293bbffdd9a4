-- ===== src/Runtime/Removed.antt =====
-- What the removals take out of the CA: the issuers of one host, and no other host's.
use grafhome_ca.Runtime.Live.{live-with_provisioners, live_provisioners}
use grafhome_ca.Keys.{get_str}
use grafhome_ca.External.{External}
use grafhome_ca.Names.Apart.{
  host_apart, host_started, host_unparsed, user_apart, user_started, user_unparsed, x509_apart,
  x509_started,
}
use grafhome_ca.Names.RoundTrip.{parse-x509_provisioner_name}
use grafhome_ca.Runtime.Removal.{
  is_text, matches_host, Matches, remove_host, remove_matching, retain, push,
}
use grafhome_ca.Names.{
  host_provisioner_name, user_provisioner_host_suffix, user_provisioner_name, x509_provisioner_name,
}
use grafhome_ca.Names.Select.{ends_with-user_provisioner_host_suffix}
use grafhome_ca.Base.{
  Bool, Option, Text, eq_text, false, is_empty, is_utf8, some, text, true, ◌||◌, ◌≡◌, arith,
  eq_text_iff, >>=-eq-ok, Bool-cases, List, [], filter, inl, inr, not, ok, refl, ◌∷◌, ap, ◌∙◌, ◌⊎◌,
}

module _ (host : Text) (host_utf8 : is_utf8 host ≡ true) where
  -- The test of `remove_host` as the command line calls it.
  abbrev taken : Text → Option Text → Bool
  taken name item_type =
      matches_host host (host_provisioner_name host) (user_provisioner_host_suffix host) (some name)
        item_type

  taken-user :
      (u h : Text) (t : Option Text)
      → is_utf8 h ≡ true
      → taken (user_provisioner_name u h) t ≡ (eq_text h host || is_text (text "SSHPOP") t)
  unfolding matches_host
  taken-user u h t k =
      let s = ends_with-user_provisioner_host_suffix host u h host_utf8 k in
      let e = eq_text_iff h host in
      let a = user_apart u h host in
      let b = user_started u h in rw (user_unparsed u h) (ground (arith, s, e, a, b))

  taken-x509 :
      (h c : Text) (t : Option Text)
      → is_utf8 h ≡ true
      → is_utf8 c ≡ true
      → is_empty h ≡ false
      → is_empty c ≡ false
      → taken (x509_provisioner_name h c) t ≡ (eq_text h host || is_text (text "SSHPOP") t)
  unfolding matches_host
  taken-x509 h c t p q r s =
      simp (x509_apart, x509_started, parse-x509_provisioner_name h c p q r s)

  taken-host :
      (h : Text) (t : Option Text)
      → is_utf8 h ≡ true
      → taken (host_provisioner_name h) t ≡ (eq_text h host || is_text (text "SSHPOP") t)
  unfolding matches_host
  taken-host h t p =
      simp (host_apart h host p host_utf8, host_started, host_unparsed) (ground arith)

module _ (x : External) where
  open x use {Value}

  abbrev pub fits : Matches → Value → Bool
  fits m v = m (get_str x v (text "name")) (get_str x v (text "type"))

  abbrev pub names_of : List Value → List Text
  names_of [] = []
  names_of (v ∷ vs) = push (get_str x v (text "name")) (names_of vs)

  retain-kept :
      (m : Matches) (items : List Value) → (retain x m items).0 ≡ filter (λ v. not (fits m v)) items
  unfolding retain
  retain-kept m [] = refl
  retain-kept m (v ∷ items) = elim (Bool-cases (fits m v)) [
    | inl e ↦ rw e (retain-kept m items)
    | inr e ↦ rw e (ap (λ l. v ∷ l) (retain-kept m items))
  ]

  retain-removed :
      (m : Matches) (items : List Value) → (retain x m items).1 ≡ names_of (filter (fits m) items)
  unfolding retain
  retain-removed m [] = refl
  retain-removed m (v ∷ items) = elim (Bool-cases (fits m v)) [
    | inl e ↦ rw e (ap (push (get_str x v (text "name"))) (retain-removed m items))
    | inr e ↦ rw e (retain-removed m items)
  ]

  -- A removal succeeds on a document that lists provisioners, and then the document lists in order
  -- those that do not match; the names of the others are returned in order.
  pub remove_matching-filter :
      (path : Text) (config : Value) (m : Matches) (config' : Value) (removed : List Text)
      → remove_matching x path config m ≡ ok (config', removed)
      → (items : List Value) × (live_provisioners x path config ≡ ok items)
        × (live_provisioners x path config' ≡ ok (filter (λ v. not (fits m v)) items))
        × (removed ≡ names_of (filter (fits m) items))
  unfolding remove_matching
  remove_matching-filter path config m config' removed h =
      let (items, e, k) = >>=-eq-ok (live_provisioners x path config) _ h in
      let written = live-with_provisioners x path config items (retain x m items).0 e in
      let kept_items = retain-kept m items in
      let removed_names = retain-removed m items in (items, e, ground arith, ground arith)

  -- A test that decides, for the provisioners under the names that enrollment gives them, by the
  -- host in the name and by the type.
  abbrev pub DecidesBy : Text → (Value → Bool) → Value → Type 0
  DecidesBy host gone v =
      (u h c : Text)
      → is_utf8 h ≡ true
      → is_utf8 c ≡ true
      → is_empty h ≡ false
      → is_empty c ≡ false
      → (get_str x v (text "name") ≡ some (user_provisioner_name u h))
        ⊎ ((get_str x v (text "name") ≡ some (x509_provisioner_name h c))
            ⊎ (get_str x v (text "name") ≡ some (host_provisioner_name h)))
      → gone v ≡ (eq_text h host || is_text (text "SSHPOP") (get_str x v (text "type")))

  module _ (host : Text) (host_utf8 : is_utf8 host ≡ true) where
    abbrev host_matches : Matches
    host_matches =
        matches_host host (host_provisioner_name host) (user_provisioner_host_suffix host)

    fits-named :
        (v : Value) (name : Text)
        → get_str x v (text "name") ≡ some name
        → fits host_matches v ≡ taken host host_utf8 name (get_str x v (text "type"))
    fits-named v name e = ap (λ n. host_matches n (get_str x v (text "type"))) e

    fits-DecidesBy : (v : Value) → DecidesBy host (fits host_matches) v
    fits-DecidesBy v u h c p q r s (inl e) =
        fits-named v (user_provisioner_name u h) e
        ∙ taken-user host host_utf8 u h (get_str x v (text "type")) p
    fits-DecidesBy v u h c p q r s (inr (inl e)) =
        fits-named v (x509_provisioner_name h c) e
        ∙ taken-x509 host host_utf8 h c (get_str x v (text "type")) p q r s
    fits-DecidesBy v u h c p q r s (inr (inr e)) =
        fits-named v (host_provisioner_name h) e
        ∙ taken-host host host_utf8 h (get_str x v (text "type")) p

    -- A removal of a host that succeeds leaves in order the provisioners that a test does not take,
    -- and returns in order the names of those it takes. Of the provisioners under the names that
    -- enrollment gives to users, certificates and hosts, the test takes those on the host and those
    -- of type SSHPOP; it says nothing here of other names. Host and certificate names are Rust
    -- strings, and those in the names of provisioners are not empty.
    pub remove_host-takes :
        (path : Text) (config config' : Value) (removed : List Text)
        → remove_host x path config host
            (host_provisioner_name host)
            (user_provisioner_host_suffix host)
          ≡ ok (config', removed)
        → (gone : Value → Bool) × (items : List Value) × (live_provisioners x path config
            ≡ ok items)
          × (live_provisioners x path config' ≡ ok (filter (λ v. not (gone v)) items))
          × (removed ≡ names_of (filter gone items))
          × ((v : Value) → DecidesBy host gone v)
    unfolding remove_host
    remove_host-takes path config config' removed h =
        let (items, live, kept, names) =
          remove_matching-filter path config host_matches config' removed h in
        (fits host_matches, items, live, kept, names, fits-DecidesBy)
