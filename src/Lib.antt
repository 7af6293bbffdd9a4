-- ===== src/Lib.antt =====
-- A model of the core of grafhome-ca, the manager of a home SSH and X.509 certificate authority,
-- and the theorems that make it correct.
--
-- A host or a user asks for enrollment with a request document, the authority answers with a
-- grant, and the enrollment registry remembers each key pair, live or revoked, for good. A host
-- renews its X.509 certificates with the key that it enrolled. Policy texts give the lifetimes.
--
-- Files, and the code that they are about:
--   Base, Base/*          shared names, lists and texts; Base/Outcome is src/error.rs
--   External              the crates that the code calls (serde_json, ssh-key, sha2, base64, time),
--                         as a record of operations with their documented laws; External/Sample
--                         is an instance to run the program with
--   Names, Names/*        the provisioner names of src/enrollment.rs and src/x509.rs
--   Identity              the character rules of names in src/policy/mod.rs and
--                         src/enrollment_registry.rs
--   Keys                  CertificateKey of src/x509.rs, canonical SSH keys of src/policy/mod.rs,
--                         public JWKs of src/runtime_provisioners.rs
--   Enrollment            the requests and grants of src/enrollment.rs and src/x509.rs
--   Policy, Policy/*      src/policy/mod.rs: Model has the records and lookups, Duration the durations,
--                         Revoked the revocation records, Fields the checks on one column, Relations
--                         validate_relations, Certificates validate_x509, Revocations
--                         validate_revocations, Validation validate. Checked is the result of code
--                         that can panic. Accepted takes an accepted validation apart; Sans,
--                         Principals, Admins, Lifetimes and Panics prove what it means
--   Runtime, Runtime/*    src/runtime_provisioners.rs and the provisioners of src/x509.rs: Live has the
--                         list in the document, Removal the removals, Claims the claims and options,
--                         Install upsert_renewal_provisioner and reconcile_required_provisioner,
--                         Enroll the enrollment flows, Binding bind_ssh_template and
--                         bind_existing_renewal_provisioner, Certificates the X.509 provisioners,
--                         Reconcile and Sweep reconcile_claims; Removed, Merged, Sole, Installed, Bound,
--                         Kinds, Swept, Denying and Safe prove what they leave
--                         behind
--   Registry, Registry/*  src/enrollment_registry.rs: Record has EnrollmentRecord, Store has
--                         EnrollmentRegistry and its operations, Pending has the records made of
--                         requests and the validation of a registry
--   Renewal, Renewal/*    the second half of src/x509.rs: Times has renewal_due and alert_due,
--                         Assessment has assess, Issue has issue and publish, Run has renew
--   Authority, Authority/* the CA side of src/bin/grafhome-ca.rs: Action is code that changes files
--                         and can fail on the way, Machine the files and what each system call
--                         answers, Health the activation of step-ca, Install
--                         install_ca_json_with_rollback, Dead and Ledger the ledger of revoked keys,
--                         Coverage the live enrollments, Site the registry file, Revoke
--                         commit_revocation, Commands the three revocations, Approve the approvals,
--                         the import and apply ca. Outcomes has the rules by which the proofs go
--                         through the steps; Retries, Rollback, Tombstones, Untouched, FailSafe,
--                         Refused, Listing and Covered prove what is left on the disk. A file that
--                         is renamed into place and then synchronised is a Write, which can fail
--                         on either side of the change
--   HostPolicy, HostPolicy/* ssh apply of src/bin/grafhome-ca.rs: Store is the files of the host by
--                         their paths, Checks the commands of validate_and_reload_ssh, Apply the
--                         changes, their application and the rollback; Restored and AllOrNothing
--                         prove what a failed application leaves behind, Converges, Ends and Success
--                         what a successful one does
--   Executable, Executable/*  src/executable.rs: the search for step and the trust in a program. What
--                         the file system answers is the record FileSystem, a canonical path is its
--                         components, the innermost first, and PATH is the list of its directories.
--                         Guarded and Safe prove what a found program is protected from
--
-- A text is the list of its UTF-8 bytes. `&mut self` is a result beside the value. A function of
-- a name of the source models the function of that name; methods of a record keep the method's
-- name unless two clash (`pem` is to_pem, `CertificateKey::validate` of a candidate is
-- validate_candidate, `ttl` is ttl_of). A panic is `none`. Each run of renew takes what the file
-- system, step, the CA and the clock answer as a record, and gives back the live files.
--
-- Fuel: the loop of duration_nanoseconds takes the length of its text, as each turn consumes a
-- byte; `decimal` takes the number that it prints; the loops over white space take the length of
-- their text.
--
-- A document `ca.json` is its parsed value, an object of External; a function of the source that
-- changes a value in place gives back the new value. A loop is a function of its own.
--
-- Not modelled: the rest of the command line, the reading of policy files, rendering, schemas, file locks and
-- the writing of the registry file and of ca.json, which are input and output; materialize,
-- which needs key files on disk, and provenance.rs. The authority policy that src/render.rs
-- renders is an argument of reconcile_claims.
pub mod Authority
pub mod Base
pub mod Enrollment
pub mod Executable
pub mod External
pub mod HostPolicy
pub mod Identity
pub mod Keys
pub mod Names
pub mod Policy
pub mod Registry
pub mod Renewal
pub mod Runtime
