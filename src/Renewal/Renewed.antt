-- ===== src/Renewal/Renewed.antt =====
-- After a renewal that publishes, the live files are a valid pair.
use grafhome_ca.Policy.Model.{X509Cert}
use grafhome_ca.Renewal.Published.{then_try-eq-done, or_failure-eq-done, Attempt-cases, publish-ok}
use grafhome_ca.Renewal.Issue.{
  World, candidate_for, common_name, create_csr, done, refused, sign, unavailable,
  validate_candidate, validate_chain, prepare, refused_kind, Attempt, issue, vetted, then_try,
  enrolled_key, publish,
}
use grafhome_ca.External.{External}
use grafhome_ca.Renewal.Assessment.{
  Chain, Files, Tools, is_complete, public_key_of, read_chain, spki_hex, assess, assess_chain,
  condition_of, matches_key, valid,
}
use grafhome_ca.Keys.{CertificateKey}
use grafhome_ca.Base.{
  ℕ, >>-eq-ok, >>=-eq-ok, Bool, Text, arith, ensure, ensure-eq-ok, eq_text, leb, ok, refuse, some,
  true, ◌≡◌, ap, ◌∙◌, Error, Option, none, ok_or, inl, inr, Result, eq_text_iff, err, false, refl,
  ◌<◌, eq_text_refl, eq_texts,
}

ok_or-eq-ok : {A : Type 0} (o : Option A) (e : Error) (c : A) → ok_or o e ≡ ok c → o ≡ some c
ok_or-eq-ok o e c h = ground arith

done_inj :
    (m n : ℕ) (s t : Text)
    → ◌≡◌ {A = Attempt (ℕ × Text)} (done (m, s)) (done (n, t))
    → (m ≡ n) × (s ≡ t)
done_inj m n s t h = ground arith

not_yet : (end now : ℕ) → now < end → leb end now ≡ false
not_yet end now h = ground arith

settled :
    (r : Result (Unit {0})) (m n : ℕ)
    → then_try (refused false r) (λ _. done m) ≡ done n
    → (r ≡ ok tt) × (m ≡ n)
settled (ok tt) m n h = (refl, ground arith)
settled (err e) m n h = cc

pair_eq :
    (p : Result (Unit {0}) × Files) (r : Result (Unit {0})) (after : Files)
    → p.0 ≡ r
    → p.1 ≡ after
    → p ≡ (r, after)
pair_eq (q, f) r after h k = rw (h, k) refl

module _ (x : External) (tools : Tools) where
  -- A candidate that matches a key and is complete.
  pub record Vouched (candidate : Text) (key : Text) (end : ℕ) : Type 0 where
    public : CertificateKey
    chain_read : Chain
    parsed : public_key_of x tools key ≡ ok public
    inspected : read_chain x tools candidate ≡ ok (some chain_read)
    complete : is_complete chain_read ≡ true
    matching : eq_text chain_read.leaf.fingerprint_sha256 (spki_hex x tools public) ≡ true
    ending : chain_read.not_after ≡ end

  module _ (cert : X509Cert) (world : World) where
    validate_chain-ok :
        (key : CertificateKey) (candidate : Text) (c : Chain) (end : ℕ)
        → validate_chain x tools cert world key candidate c ≡ ok end
        → (is_complete c ≡ true)
          × (eq_text c.leaf.fingerprint_sha256 (spki_hex x tools key) ≡ true)
          × (c.not_after ≡ end)
    unfolding validate_chain
    validate_chain-ok key candidate c end h =
        let (a, h1) = >>-eq-ok (ensure (is_complete c) _) _ h in
        let (_, h2) = >>-eq-ok (ensure (eq_texts _ _) _) _ h1 in
        let (_, h3) = >>-eq-ok (ensure (eq_texts _ _) _) _ h2 in
        let (m, h4) =
          >>-eq-ok (ensure (eq_text c.leaf.fingerprint_sha256 (spki_hex x tools key)) _) _ h3 in
        let (_, h5) = >>-eq-ok (refuse (leb c.not_after world.issued_at) _) _ h4 in
        let (name, _, h6) = >>=-eq-ok (common_name cert) _ h5 in
        let (_, h7) = >>-eq-ok (world.verify candidate name) _ h6 in
        (
          (ensure-eq-ok (is_complete c) _).0 a,
          (ensure-eq-ok (eq_text c.leaf.fingerprint_sha256 (spki_hex x tools key)) _).0 m,
          ground arith,
        )

    prepare-done :
        (u : Bool) (key : Text) (public : CertificateKey)
        → prepare x tools cert world u key ≡ done public
        → public_key_of x tools key ≡ ok public
    unfolding prepare
    prepare-done u key public h = then_try-eq-done (refused u world.private_files) _ h λ _ _ h1.
        then_try-eq-done (refused u (ensure world.root_is_file _)) _ h1 λ _ _ h2.
          then_try-eq-done (refused u (public_key_of x tools key)) _ h2 λ read p h3.
            then_try-eq-done (refused u (ensure world.has_directory _)) _ h3 λ _ _ h4.
              then_try-eq-done (refused u world.staging_directory) _ h4 λ _ _ h5.
                then_try-eq-done (refused u (create_csr cert world)) _ h5 λ _ _ h6.
                  or_failure-eq-done refused_kind u (public_key_of x tools key) p
                  ∙ ap ok (ground arith)

    validate_candidate-ok :
        (key : Text) (public : CertificateKey) (candidate : Text) (end : ℕ)
        → public_key_of x tools key ≡ ok public
        → validate_candidate x tools cert world candidate public ≡ ok end
        → Vouched candidate key end
    unfolding validate_candidate
    validate_candidate-ok key public candidate end p h =
        let (read, r, h1) = >>=-eq-ok (read_chain x tools candidate) _ h in
        let (c, k, h2) = >>=-eq-ok (ok_or read _) _ h1 in
        let (a, m, e) = validate_chain-ok public candidate c end h2 in
        record {
          public = public;
          chain_read = c;
          parsed = p;
          inspected = r ∙ ap ok (ok_or-eq-ok read _ c k);
          complete = a;
          matching = m;
          ending = e;
        }

    candidate_for-done :
        (u : Bool) (key candidate : Text) (end : ℕ)
        → candidate_for x tools cert world u key ≡ done (end, candidate)
        → Vouched candidate key end
    unfolding candidate_for
    candidate_for-done u key candidate end h =
        then_try-eq-done (prepare x tools cert world u key) _ h λ public p h1.
          then_try-eq-done (unavailable u (sign cert world)) _ h1 λ signed _ h2.
            then_try-eq-done (refused u (validate_candidate x tools cert world signed public)) _ h2
              λ end' v h3.
                let (e, t) = done_inj end' end signed candidate h3 in
                let checked =
                  or_failure-eq-done refused_kind u
                    (validate_candidate x tools cert world signed public) v in
                validate_candidate-ok key public candidate end (prepare-done u key public p)
                  (rw (e, t) at checked)

    -- What a successful `issue` leaves.
    pub issue-done :
        (u : Bool) (files after : Files) (end : ℕ)
        → issue x tools cert world u files ≡ (done end, after)
        → (key : Text) × (candidate : Text) × Vouched candidate key end
          × (after.cert ≡ some candidate)
          × (after.key ≡ some key)
          × (after.pending_key ≡ none)
    unfolding issue
    issue-done u files after end h = elim (Attempt-cases (vetted x tools cert world u files)) [
      | inl (f, e) ↦ cc (ap (λ p. p.0) (rw (e, issue) at h))
      | inr ((end', candidate), e) ↦
          let h' = rw (e, issue) at h in
          let (r, same) = settled (publish world candidate files).0 end' end (ap (λ p. p.0) h') in
          let moved =
            publish-ok world candidate files after
              (pair_eq (publish world candidate files) (ok tt) after r (ap (λ p. p.1) h')) in
          then_try-eq-done (refused u (ok_or (enrolled_key files) _))
            (candidate_for x tools cert world u) e
            λ key k e1.
              let enrolled = or_failure-eq-done refused_kind u _ k in
              (
                key,
                candidate,
                rw same at (candidate_for-done u key candidate end' e1),
                moved.0,
                moved.1 ∙ ok_or-eq-ok (enrolled_key files) _ key enrolled,
                moved.2,
              )
    ]

  matches_key-Vouched :
      (key candidate : Text) (end : ℕ) (v : Vouched candidate key end)
      → matches_key x tools (some key) v.chain_read ≡ ok true
  unfolding matches_key
  matches_key-Vouched key candidate end v =
      let same =
        (eq_text_iff v.chain_read.leaf.fingerprint_sha256 (spki_hex x tools v.public)).0
          v.matching in
      rw (v.parsed, same) (ap ok (eq_text_refl (spki_hex x tools v.public)))

  condition_of-valid :
      (c : Chain) (now : ℕ)
      → is_complete c ≡ true
      → now < c.not_after
      → condition_of x tools true c now ≡ valid
  unfolding condition_of
  condition_of-valid c now h l = rw (h, not_yet c.not_after now l) refl

  -- A vouched pair is valid until it expires.
  pub assess-Vouched :
      (files : Files) (now end : ℕ) (key candidate : Text)
      → Vouched candidate key end
      → files.cert ≡ some candidate
      → files.key ≡ some key
      → files.pending_key ≡ none
      → now < end
      → assess x tools files now
        ≡ ok (record { condition = valid; not_after = some end; pending_key = false })
  unfolding assess assess_chain
  assess-Vouched files now end key candidate v c k p l =
      let late : now < v.chain_read.not_after = omega (arith, l, v.ending) in
      rw
        (
          c,
          v.inspected,
          k,
          p,
          matches_key-Vouched key candidate end v,
          condition_of-valid v.chain_read now v.complete late,
          v.ending,
        )
        refl
