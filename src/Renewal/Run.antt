-- ===== src/Renewal/Run.antt =====
-- `LocalCertificate::renew` of x509.rs, with the failures that `--if-reachable` tolerates.
use grafhome_ca.Policy.Model.{X509Cert}
use grafhome_ca.Names.{x509_identity}
use grafhome_ca.Policy.Duration.{step_duration}
use grafhome_ca.Renewal.Times.{pos, ℤ}
use grafhome_ca.External.{External}
use grafhome_ca.Renewal.Issue.{
  Attempt, FailureKind, RenewalFailure, World, after_renew_kind, done, failed, issue, or_failure,
  refused, then_try, unavailable, unavailable_kind,
}
use grafhome_ca.Renewal.Assessment.{Assessment, Files, Tools, assess, renewal_needed, usable}
use grafhome_ca.Base.{
  ℕ, Bool, List, Option, Result, Text, [], false, if◌then◌else◌, none, not, ok, some, text, true,
  ◌&&◌, ◌++◌, ◌∷◌, ensure, err, validation,
}

pub data Renewal : Type 0 where
  current busy : Renewal
  published : ℕ → Renewal

abbrev is_after_renew : FailureKind → Bool
is_after_renew after_renew_kind = true
is_after_renew _ = false

abbrev is_unavailable : FailureKind → Bool
is_unavailable unavailable_kind = true
is_unavailable _ = false

unfoldable pub tolerated : RenewalFailure → Bool
tolerated f = f.usable && not (is_after_renew f.kind)

unfoldable pub hidden : RenewalFailure → Bool
hidden f = is_unavailable f.kind

-- What one run meets: its clock, the lock, the probe, the world of `issue`, and the hook.
pub record Session : Type 0 where
  pub world : World
  -- the files and the two clocks before the lock
  pub first_files : Files
  pub first_now : ℕ
  pub first_due_now : ℕ
  -- whether the lock was free, and the wait for it
  pub try_lock : Result Bool
  pub lock : Result (Unit {0})
  -- the files and the two clocks under the lock
  pub files : Files
  pub now : ℕ
  pub due_now : ℕ
  -- `--if-reachable`: the probe of the CA
  pub reachable : Option (Result Bool)
  pub ca_url : Text
  -- `trusted_program` and the run of the hook, by its argv
  pub hook : List Text → Result (Unit {0})

-- `LocalCertificate::ttl`
unfoldable pub ttl_of : X509Cert → Result ℤ
ttl_of cert = elim (step_duration cert.ttl) [
  | none ↦ err (validation (x509_identity cert.host cert.name) (text "invalid ttl " ++ cert.ttl))
  | some n ↦ ok (pos n)
]

-- `reachable().unwrap_or(false)`
abbrev shows_reachable : Result Bool → Bool
shows_reachable (ok b) = b
shows_reachable (err e) = false

unfoldable pub probe : X509Cert → Session → Bool → Attempt (Unit {0})
probe cert s usable = elim s.reachable [
  | none ↦ done tt
  | some answer ↦ unavailable usable (
      ensure (shows_reachable answer) (
        validation (x509_identity cert.host cert.name)
          (text "CA endpoint " ++ (s.ca_url ++ text " is unreachable"))))
]

unfoldable pub run_after_renew : X509Cert → Session → Result (Unit {0})
run_after_renew cert s = elim cert.after_renew [
  | [] ↦ ok tt
  | program ∷ arguments ↦ s.hook (program ∷ arguments)
]

-- The lock: `false` says that the run does not wait for it.
unfoldable pub take_lock : Session → Bool → Attempt Bool
take_lock s usable = then_try (refused usable s.try_lock) λ held.
    if held
    then done true
    else if usable
    then done false
    else then_try (unavailable false s.lock) λ _. done true

module _ (x : External) (tools : Tools) (cert : X509Cert) (s : Session) where
  -- The hook runs behind a publishing.
  unfoldable pub finish : Bool → Attempt ℕ × Files → Attempt Renewal × Files
  finish usable (failed f, files) = (failed f, files)
  finish usable (done end, files) = (
    then_try (or_failure after_renew_kind usable (run_after_renew cert s))
        λ _. done (published end),
    files,
  )

  -- The run under the lock.
  unfoldable pub renew_locked : ℤ → Bool → Attempt Renewal × Files
  unfolding probe finish
  renew_locked ttl first_usable = elim (refused first_usable (assess x tools s.files s.now)) [
    | failed f ↦ (failed f, s.files)
    | done a ↦
        if not (renewal_needed a ttl s.due_now)
        then (done current, s.files)
        else elim (probe cert s (usable a)) [
          | failed f ↦ (failed f, s.files)
          | done _ ↦ finish (usable a) (issue x tools cert s.world (usable a) s.files)
        ]
  ]

  -- The run from the first assessment on.
  unfoldable pub renew_from : ℤ → Assessment → Attempt Renewal × Files
  unfolding take_lock renew_locked
  renew_from ttl first =
      if not (renewal_needed first ttl s.first_due_now)
      then (done current, s.files)
      else elim (take_lock s (usable first)) [
        | failed f ↦ (failed f, s.files)
        | done locked ↦ if locked then renew_locked ttl (usable first) else (done busy, s.files)
      ]

  -- The result, and the files that the run leaves of those it found under the lock.
  unfoldable pub renew : Attempt Renewal × Files
  unfolding ttl_of renew_from
  renew = elim (refused false (ttl_of cert)) [
    | failed f ↦ (failed f, s.files)
    | done ttl ↦ elim (refused false (assess x tools s.first_files s.first_now)) [
      | failed f ↦ (failed f, s.files)
      | done first ↦ renew_from ttl first
    ]
  ]
