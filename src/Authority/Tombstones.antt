-- ===== src/Authority/Tombstones.antt =====
-- What the update of the ledger holds: a tombstone for every record of the revocation.
use grafhome_ca.Base.{
  Bool, Bool-cases, List, [], any, arith, inl, inr, refl, sym, true, ◌++◌, ◌||◌, ◌∷◌, ◌≡◌, All,
  Option, Text, ap, append-nil, append_assoc, eq_text, eq_text_refl, ◌∙◌, &&-eq-true, ==_iff,
  length, length-append, none, some, ◌&&◌, ◌-◌, ◌==◌, All-map,
}
use grafhome_ca.Authority.Dead.{key_revoked}
use grafhome_ca.Authority.Ledger.{
  add_revocation, add_revocations, additions_empty, seen_ssh, seen_x509, update_of,
}
use grafhome_ca.Policy.Model.{Policy}
use grafhome_ca.Policy.Revoked.{RevokedSshKey, RevokedX509Key, fingerprint}
use grafhome_ca.Registry.Record.{
  EnrollmentRecord, Revocation, ssh, x509_key, to_revocation, key_fingerprint, host, user, x509,
}

-- Entries stand behind those that were there.
abbrev pub Extends : Policy → Policy → Type 0
Extends p q =
    (ssh_keys : List RevokedSshKey) × (x509_keys : List RevokedX509Key) × (q.revoked_ssh_keys
      ≡ p.revoked_ssh_keys ++ ssh_keys)
    × (q.revoked_x509_keys ≡ p.revoked_x509_keys ++ x509_keys)

any-append {ℓ} :
    {A : Type ℓ} (test : A → Bool) (xs ys : List A)
    → any test xs ≡ true
    → any test (xs ++ ys) ≡ true
any-append test [] ys h = cc
any-append test (x ∷ xs) ys h = ground (arith, any-append test xs ys)

any-snoc {ℓ} :
    {A : Type ℓ} (test : A → Bool) (xs : List A) (x : A)
    → test x ≡ true
    → any test (xs ++ x ∷ []) ≡ true
any-snoc test [] x h = ground arith
any-snoc test (y ∷ xs) x h = ground (arith, any-snoc test xs x h)

any-weaken {ℓ} :
    {A : Type ℓ} (test other : A → Bool) (xs : List A)
    → ((a : A) → test a ≡ true → other a ≡ true)
    → any test xs ≡ true
    → any other xs ≡ true
any-weaken test other [] f h = cc
any-weaken test other (x ∷ xs) f h = ground (arith, f x, any-weaken test other xs f)

or-left : (a b : Bool) → a ≡ true → (a || b) ≡ true
or-left a b h = ground arith

or-right : (a b : Bool) → b ≡ true → (a || b) ≡ true
or-right a b h = ground arith

Extends-refl : (p : Policy) → Extends p p
Extends-refl p = ([], [], sym (append-nil p.revoked_ssh_keys), sym (append-nil p.revoked_x509_keys))

Extends-trans : (p q r : Policy) → Extends p q → Extends q r → Extends p r
Extends-trans p q r (xs, ys, a, b) (us, vs, c, d) = (
  xs ++ us,
  ys ++ vs,
  c ∙ (ap (λ l. l ++ us) a ∙ append_assoc p.revoked_ssh_keys xs us),
  d ∙ (ap (λ l. l ++ vs) b ∙ append_assoc p.revoked_x509_keys ys vs),
)

add_revocation-Extends : (p : Policy) (r : Revocation) → Extends p (add_revocation p r)
unfolding add_revocation
add_revocation-Extends p (ssh entry) = elim (Bool-cases (seen_ssh entry p.revoked_ssh_keys)) [
  | inl e ↦ rw e (Extends-refl p)
  | inr e ↦ rw e (entry ∷ [], [], refl, sym (append-nil p.revoked_x509_keys))
]
add_revocation-Extends p (x509_key entry) =
    elim (Bool-cases (seen_x509 entry p.revoked_x509_keys)) [
      | inl e ↦ rw e (Extends-refl p)
      | inr e ↦ rw e ([], entry ∷ [], sym (append-nil p.revoked_ssh_keys), refl)
    ]

module _ {V : Type 0} where
  abbrev pub Dead : Policy → EnrollmentRecord V → Type 0
  Dead policy r = key_revoked policy r ≡ true

  Dead-Extends : (p q : Policy) (r : EnrollmentRecord V) → Extends p q → Dead p r → Dead q r
  unfolding key_revoked
  Dead-Extends p q r (xs, ys, a, b) h =
      let by_ssh = λ (e : RevokedSshKey). eq_text (fingerprint e) (key_fingerprint r) in
      let by_x509 = λ (e : RevokedX509Key). eq_text e.public_key_fingerprint (key_fingerprint r) in
      rw (a, b)
        (elim (Bool-cases (any by_ssh p.revoked_ssh_keys)) [
          | inl k ↦ or-left _ _ (any-append by_ssh p.revoked_ssh_keys xs k)
          | inr k ↦ or-right _ _ (any-append by_x509 p.revoked_x509_keys ys (ground (arith, h, k)))
        ])

  Dead-ssh :
      (p : Policy) (entry : RevokedSshKey) (r : EnrollmentRecord V)
      → key_fingerprint r ≡ fingerprint entry
      → Dead (add_revocation p (ssh entry)) r
  unfolding add_revocation key_revoked seen_ssh
  Dead-ssh p entry r e = elim (Bool-cases (seen_ssh entry p.revoked_ssh_keys)) [
    | inl k ↦
        rw (k, e)
          (or-left _ _ (
            any-weaken _ (λ e. eq_text (fingerprint e) (fingerprint entry)) p.revoked_ssh_keys
              (λ a h. ground arith) k))
    | inr k ↦
        rw (k, e)
          (or-left _ _ (
            any-snoc (λ e. eq_text (fingerprint e) (fingerprint entry)) p.revoked_ssh_keys entry
              (eq_text_refl (fingerprint entry))))
  ]

  Dead-x509 :
      (p : Policy) (entry : RevokedX509Key) (r : EnrollmentRecord V)
      → key_fingerprint r ≡ entry.public_key_fingerprint
      → Dead (add_revocation p (x509_key entry)) r
  unfolding add_revocation key_revoked seen_x509
  Dead-x509 p entry r e = elim (Bool-cases (seen_x509 entry p.revoked_x509_keys)) [
    | inl k ↦ rw (k, e) (or-right _ _ k)
    | inr k ↦
        rw (k, e)
          (or-right _ _ (
            any-snoc (λ e. eq_text e.public_key_fingerprint entry.public_key_fingerprint)
              p.revoked_x509_keys entry (eq_text_refl entry.public_key_fingerprint)))
  ]

  Dead-added :
      (p : Policy) (r : EnrollmentRecord V) (now : Text) (why : Option Text)
      → Dead (add_revocation p (to_revocation r now why)) r
  unfolding to_revocation key_fingerprint
  Dead-added p (host st h key fp jwk rfp at rev) now why = Dead-ssh p _ _ refl
  Dead-added p (user st u h key fp jwk rfp at rev) now why = Dead-ssh p _ _ refl
  Dead-added p (x509 st h n key fp jwk rfp at rev) now why = Dead-x509 p _ _ refl

  add_revocations-Extends :
      (rs : List (EnrollmentRecord V)) (now : Text) (why : Option Text) (p : Policy)
      → Extends p (add_revocations rs now why p)
  unfolding add_revocations
  add_revocations-Extends [] now why p = Extends-refl p
  add_revocations-Extends (r ∷ rs) now why p =
      let q = add_revocation p (to_revocation r now why) in
      Extends-trans p q (add_revocations rs now why q)
        (add_revocation-Extends p (to_revocation r now why)) (add_revocations-Extends rs now why q)

  -- Every record is dead once it is added.
  pub add_revocations-Dead :
      (rs : List (EnrollmentRecord V)) (now : Text) (why : Option Text) (p : Policy)
      → All (Dead (add_revocations rs now why p)) rs
  unfolding add_revocations
  add_revocations-Dead [] now why p = tt
  add_revocations-Dead (r ∷ rs) now why p =
      let q = add_revocation p (to_revocation r now why) in
      (
        Dead-Extends q _ r (add_revocations-Extends rs now why q) (Dead-added p r now why),
        add_revocations-Dead rs now why q,
      )

append-unchanged {ℓ} :
    {A : Type ℓ} (old new added : List A)
    → new ≡ old ++ added
    → (length new - length old == 0) ≡ true
    → new ≡ old
append-unchanged old new [] e h = e ∙ append-nil old
append-unchanged old new (a ∷ added) e h =
    let longer = ap length e ∙ length-append old (a ∷ added) in
    let none_new = (==_iff (length new - length old) 0).0 h in absurd (omega arith)

module _ {V : Type 0} where
  Dead-same :
      (p q : Policy) (r : EnrollmentRecord V)
      → q.revoked_ssh_keys ≡ p.revoked_ssh_keys
      → q.revoked_x509_keys ≡ p.revoked_x509_keys
      → Dead q r
      → Dead p r
  unfolding key_revoked
  Dead-same p q r a b h = rw (a, b) at h

  -- Without a new entry the records were dead before.
  pub unchanged-Dead :
      (rs : List (EnrollmentRecord V)) (now : Text) (why : Option Text) (p : Policy)
      → (update_of p (add_revocations rs now why p)).content ≡ none
      → All (Dead p) rs
  unfolding update_of additions_empty
  unchanged-Dead rs now why p h =
      let q = add_revocations rs now why p in
      let (xs, ys, a, b) = add_revocations-Extends rs now why p in
      elim (Bool-cases (
        length q.revoked_ssh_keys - length p.revoked_ssh_keys == 0
        && length q.revoked_x509_keys - length p.revoked_x509_keys == 0)) [
          | inl k ↦
              let (s, t) = &&-eq-true _ _ k in
              All-map
                (λ r.
                  Dead-same p q r (append-unchanged p.revoked_ssh_keys q.revoked_ssh_keys xs a s)
                    (append-unchanged p.revoked_x509_keys q.revoked_x509_keys ys b t))
                rs (add_revocations-Dead rs now why p)
          | inr k ↦ cc (rw k at h)
        ]

  -- What is written makes them dead.
  pub written-Dead :
      (rs : List (EnrollmentRecord V)) (now : Text) (why : Option Text) (p : Policy)
      (lists : List RevokedSshKey × List RevokedX509Key)
      → (update_of p (add_revocations rs now why p)).content ≡ some lists
      → All (Dead (record p { revoked_ssh_keys = lists.0; revoked_x509_keys = lists.1 })) rs
  unfolding update_of additions_empty
  written-Dead rs now why p (s, t) h =
      let q = add_revocations rs now why p in
      elim (Bool-cases (
        length q.revoked_ssh_keys - length p.revoked_ssh_keys == 0
        && length q.revoked_x509_keys - length p.revoked_x509_keys == 0)) [
          | inl k ↦ cc (rw k at h)
          | inr k ↦
              let same : ◌≡◌ {A = Option (List RevokedSshKey × List RevokedX509Key)}
                  (some (q.revoked_ssh_keys, q.revoked_x509_keys)) (some (s, t)) =
                rw k at h in
              All-map
                (λ r.
                  Dead-same (record p { revoked_ssh_keys = s; revoked_x509_keys = t }) q r
                    (ground arith) (ground arith))
                rs (add_revocations-Dead rs now why p)
        ]
