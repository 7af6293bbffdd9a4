-- ===== src/Renewal/Issue.antt =====
-- The issuing of a certificate in x509.rs: `issue`, `create_csr`, `sign`, `validate` and `publish`.
-- The two messages that print lists with `{:?}` are kept without them.
use grafhome_ca.Policy.Model.{X509Cert, X509Role, client, server}
use grafhome_ca.Names.{x509_identity}
use grafhome_ca.External.{External}
use grafhome_ca.Renewal.Assessment.{
  Chain, Files, Tools, is_complete, public_key_of, read_chain, spki_hex,
}
use grafhome_ca.Keys.{CertificateKey}
use grafhome_ca.Base.{
  ℕ, Bool, Error, Option, Result, Text, [], eq_text, err, false, if◌then◌else◌, leb, none, ok,
  ok_or, some, text, trim, validation, ◌>>=◌, ◌>>◌, ◌∷◌, ensure, refuse, eq_texts, sort_texts,
}

pub data FailureKind : Type 0 where
  unavailable_kind refused_kind after_renew_kind : FailureKind

pub record RenewalFailure : Type 0 where
  pub error : Error
  pub kind : FailureKind
  pub usable : Bool

-- `std::result::Result<A, RenewalFailure>`
pub data Attempt (A : Type 0) : Type 0 where
  done : A → Attempt A
  failed : RenewalFailure → Attempt A

abbrev pub then_try : {A B : Type 0} → Attempt A → (A → Attempt B) → Attempt B
then_try (done a) f = f a
then_try (failed e) f = failed e

-- `map_err(failure(kind, usable))`
abbrev pub or_failure : {A : Type 0} → FailureKind → Bool → Result A → Attempt A
or_failure kind usable (ok a) = done a
or_failure kind usable (err e) = failed (record { error = e; kind = kind; usable = usable })

abbrev pub refused : {A : Type 0} → Bool → Result A → Attempt A
refused = or_failure refused_kind

abbrev pub unavailable : {A : Type 0} → Bool → Result A → Attempt A
unavailable = or_failure unavailable_kind

abbrev usage : X509Role → Text
usage server = text "server_auth"
usage client = text "client_auth"

-- What the file system, `step` and the CA answer in one run.
pub record World : Type 0 where
  -- `require_private_file` of the three secrets
  pub private_files : Result (Unit {0})
  -- the printed paths of the root and of the live certificate
  pub root : Text
  pub cert_path : Text
  pub root_is_file : Bool
  pub has_directory : Bool
  pub staging_directory : Result (Unit {0})
  -- `step certificate create`, by its common name
  pub create : Text → Result (Unit {0})
  -- `step ca token`, by its common name
  pub token : Text → Result Text
  -- `step ca sign`, by its token: the candidate that it writes
  pub signature : Text → Result Text
  -- the clock in `validate`
  pub issued_at : ℕ
  -- `step certificate verify`, by the candidate and the common name
  pub verify : Text → Text → Result (Unit {0})
  -- the steps of `publish`
  pub set_permissions : Result (Unit {0})
  pub sync_candidate : Result (Unit {0})
  pub rename_key : Result (Unit {0})
  pub rename_cert : Result (Unit {0})
  pub sync_directory : Result (Unit {0})

invalid : X509Cert → Text → Error
unfolding x509_identity
invalid cert message = validation (x509_identity cert.host cert.name) message

unfoldable pub common_name : X509Cert → Result Text
unfolding invalid
common_name cert = elim cert.names [
  | [] ↦ err (invalid cert (text "a certificate needs at least one name"))
  | name ∷ rest ↦ ok name
]

unfoldable pub create_csr : X509Cert → World → Result (Unit {0})
unfolding common_name
create_csr cert world = common_name cert >>= world.create

unfoldable pub sign : X509Cert → World → Result Text
unfolding common_name
sign cert world = do name ← common_name cert; token ← world.token name; world.signature (trim token)

-- The files after a step, with its result.
abbrev pub on_ok :
    Result (Unit {0}) × Files → (Files → Result (Unit {0}) × Files) → Result (Unit {0}) × Files
on_ok (ok _, files) f = f files
on_ok (err e, files) f = (err e, files)

-- The staged key moves over the live one.
unfoldable pub move_key : World → Files → Result (Unit {0}) × Files
move_key world files = elim files.pending_key [
  | none ↦ (ok tt, files)
  | some key ↦ elim world.rename_key [
    | ok _ ↦ (ok tt, record files { key = some key; pending_key = none })
    | err e ↦ (err e, files)
  ]
]

unfoldable pub move_cert : World → Text → Files → Result (Unit {0}) × Files
move_cert world candidate files = elim world.rename_cert [
  | ok _ ↦ (
    if world.has_directory then world.sync_directory else ok tt,
    record files { cert = some candidate },
  )
  | err e ↦ (err e, files)
]

unfoldable pub publish : World → Text → Files → Result (Unit {0}) × Files
unfolding move_key move_cert
publish world candidate files =
    on_ok (world.set_permissions >> world.sync_candidate, files)
      λ files. on_ok (move_key world files) (move_cert world candidate)

-- `X509Paths::enrolled_key`
unfoldable pub enrolled_key : Files → Option Text
enrolled_key files = elim files.pending_key [ some key ↦ some key | none ↦ files.key ]

module _ (x : External) (tools : Tools) where
  -- The candidate's chain, checked against the declaration.
  unfoldable pub validate_chain : X509Cert → World → CertificateKey → Text → Chain → Result ℕ
  unfolding common_name invalid
  validate_chain cert world key candidate c = do
    ensure (is_complete c) (invalid cert (text "the CA returned no intermediate"))
    ensure (eq_texts (sort_texts c.leaf.names) (sort_texts cert.names))
        (invalid cert (text "the CA issued names, but policy declares others"))
    ensure (eq_texts c.leaf.extended_key_usage (usage cert.role ∷ []))
        (invalid cert (text "the CA issued extended key usage, but policy declares another"))
    ensure (eq_text c.leaf.fingerprint_sha256 (spki_hex x tools key))
        (invalid cert (text "the issued certificate does not match the signing key"))
    refuse (leb c.not_after world.issued_at)
        (invalid cert (text "the CA returned an expired certificate"))
    name ← common_name cert
    world.verify candidate name
    ok c.not_after

  unfoldable pub validate_candidate : X509Cert → World → Text → CertificateKey → Result ℕ
  unfolding validate_chain
  validate_candidate cert world candidate key = do
    read ← read_chain x tools candidate
    c ← ok_or read (invalid cert (text "step cannot read the certificate the CA returned"))
    validate_chain cert world key candidate c

  -- `issue` up to the CSR: the public key of the enrolled key.
  unfoldable pub prepare : X509Cert → World → Bool → Text → Attempt CertificateKey
  prepare cert world usable key = then_try (refused usable world.private_files) λ _.
      then_try
        (refused usable (
          ensure world.root_is_file (
            validation world.root
              (text "pinned root is missing; run `grafhome-ca ssh enroll host`"))))
        λ _. then_try (refused usable (public_key_of x tools key)) λ public.
          then_try
            (refused usable (
              ensure world.has_directory (
                validation world.cert_path (text "certificate path must have a parent directory"))))
            λ _.
              then_try (refused usable world.staging_directory)
                λ _. then_try (refused usable (create_csr cert world)) λ _. done public

  -- `issue` up to the publishing: when the candidate expires, and the candidate.
  unfoldable pub candidate_for : X509Cert → World → Bool → Text → Attempt (ℕ × Text)
  unfolding prepare validate_candidate
  candidate_for cert world usable key = then_try (prepare cert world usable key) λ public.
      then_try (unavailable usable (sign cert world)) λ candidate.
        then_try (refused usable (validate_candidate cert world candidate public))
          λ end. done (end, candidate)

  -- `issue` up to the publishing, with the key that it looks up.
  unfoldable pub vetted : X509Cert → World → Bool → Files → Attempt (ℕ × Text)
  unfolding candidate_for invalid
  vetted cert world usable files =
      then_try
        (refused usable (
          ok_or (enrolled_key files)
            (invalid cert (text "no certificate key; run `grafhome-ca x509 enroll`"))))
        (candidate_for cert world usable)

  unfoldable pub issue : X509Cert → World → Bool → Files → Attempt ℕ × Files
  unfolding vetted
  issue cert world usable files = elim (vetted cert world usable files) [
    | failed f ↦ (failed f, files)
    | done (end, candidate) ↦
        let (result, after) = publish world candidate files in
        (then_try (refused false result) (λ _. done end), after)
  ]
