-- ===== src/Policy/Principals.antt =====
-- No certificate principal stands for two users or hosts.
use grafhome_ca.Policy.Accepted.{validate_policy-Parts, validate_relations-Relations}
use grafhome_ca.Policy.Validation.{host_names, validate_policy}
use grafhome_ca.External.{External}
use grafhome_ca.Policy.Model.{Host, Policy}
use grafhome_ca.Policy.Checked.{>>=-accepted, accepted, lift, lift-accepted}
use grafhome_ca.Policy.Relations.{insert_principals, check_principals, users_table}
use grafhome_ca.Policy.Fields.{
  Distinct, Distinct-cons, unique_from-contains, unique_from-ok, unique_values,
}
use grafhome_ca.Base.{
  ◌≡◌, Bool-cases, List, Text, [], arith, contains_text, inl, inr, ok, ◌||◌, ◌∷◌, ◌++◌, All,
  All-map, Pairwise, any-eq-false, eq_text, eq_text_iff, false, map, text, ◌≢◌, All-append,
  Pairwise-append, All-swap,
}

insert_principals-ok :
    (host : Text) (seen ps result : List Text)
    → insert_principals host seen ps ≡ ok result
    → Distinct seen ps
      × ((w : Text) → contains_text result w ≡ (contains_text seen w || contains_text ps w))
unfolding insert_principals contains_text
insert_principals-ok host seen [] result h = ((tt, tt), λ w. ground arith)
insert_principals-ok host seen (p ∷ ps) result h = elim (Bool-cases (contains_text seen p)) [
  | inl e ↦ cc (rw (e, insert_principals) at h)
  | inr e ↦
      let (d, c) =
        insert_principals-ok host (p ∷ seen) ps result (rw (e, insert_principals) at h) in
      (Distinct-cons seen p ps e d, λ w. let k = c w in ground arith)
]

-- The principals of all hosts, in order.
abbrev pub host_principals : List Host → List Text
host_principals [] = []
host_principals (h ∷ hs) = h.principals ++ host_principals hs

contains_text-apart : (xs : List Text) (y : Text) → contains_text xs y ≡ false → All (λ x. x ≢ y) xs
unfolding contains_text
contains_text-apart xs y h =
    All-map (λ x e. ground (arith, eq_text_iff y x)) xs (any-eq-false (eq_text y) xs h)

Distinct-append :
    (seen seen' xs ys : List Text)
    → Distinct seen xs
    → ((w : Text) → contains_text seen' w ≡ (contains_text seen w || contains_text xs w))
    → Distinct seen' ys
    → Distinct seen (xs ++ ys)
Distinct-append seen seen' xs ys (f, p) c (g, q) =
    let k =
      All-map {Q = λ y. (contains_text seen y ≡ false) × (contains_text xs y ≡ false)}
        (λ y e. let i = c y in (ground arith, ground arith)) ys g in
    (
      All-append (λ v. contains_text seen v ≡ false) xs ys f (All-map (λ y k. k.0) ys k),
      Pairwise-append (λ v w. v ≢ w) xs ys p q
          (All-swap (λ v w. v ≢ w) xs ys (All-map (λ y k. contains_text-apart xs y k.1) ys k)),
    )

check_principals-Distinct :
    (seen : List Text) (hs : List Host)
    → check_principals seen hs ≡ accepted
    → Distinct seen (host_principals hs)
unfolding check_principals
check_principals-Distinct seen [] h = (tt, tt)
check_principals-Distinct seen (x ∷ hs) h =
    let (seen', e, h1) = >>=-accepted (lift (insert_principals x.host seen x.principals)) _ h in
    let (d, c) =
      insert_principals-ok x.host seen x.principals seen'
        (lift-accepted (insert_principals x.host seen x.principals) e) in
    Distinct-append seen seen' x.principals (host_principals hs) d c
      (check_principals-Distinct seen' hs h1)

-- In an accepted policy no certificate principal stands twice, whether as two users' principals,
-- as two principals of hosts or as one of each.
pub validate_policy-principals :
    (x : External) (policy : Policy)
    → validate_policy x policy ≡ accepted
    → Pairwise (λ p q. p ≢ q) (map (λ u. u.principal) policy.users ++ host_principals policy.hosts)
unfolding unique_values
validate_policy-principals x policy h =
    let r =
      validate_relations-Relations policy (host_names policy)
        ((validate_policy-Parts x policy h).relations) in
    let users = map (λ u. u.principal) policy.users in
    (Distinct-append [] r.principals users (host_principals policy.hosts)
      (unique_from-ok users_table (text "principal") [] users r.principals r.principals-ok)
      (λ w.
        unique_from-contains users_table (text "principal") [] users r.principals w r.principals-ok)
      (check_principals-Distinct r.principals policy.hosts r.host_principals)).1
