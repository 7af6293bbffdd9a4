-- ===== src/HostPolicy/AllOrNothing.antt =====
-- A failed application of the host policy leaves every file as it was.
use grafhome_ca.Authority.Action.{Action, pass, resume, ◌>>◌}
use grafhome_ca.Base.{
  eq_texts, Bool, Error, List, Option, Text, [], any, ap, err, false, none, ok, refl, some, ◌∙◌,
  ◌∷◌, ◌≡◌, if◌then◌else◌, true, All, Bool-cases, inl, inr, sym,
}
use grafhome_ca.Authority.Outcomes.{passed, quiet_first, done_first, resumed_unit}
use grafhome_ca.HostPolicy.Apply.{
  Changes, Machine, Settings, apply_changes, required_host, Previous, validate_and_reload_ssh,
  read_host_policy_file, restore_host_policy_files, or_roll_back, report_rollback, apply_listed,
  must_reload, host_policy_changes, changes_at, server_config, apply_host_policy_locked,
  host_policy_managed_paths, print_unless,
}
use grafhome_ca.HostPolicy.Restored.{
  Restores, SameFiles-Restores, Remembers, apply_changes-Stays, read_previous-Remembers, restored,
  validate_and_reload_ssh-SameFiles,
}
use grafhome_ca.HostPolicy.Store.{Files, FilePath, HostPolicyFile, file_at}
use grafhome_ca.Policy.Checked.{Checked}
use grafhome_ca.Policy.Model.{Host, has_ssh_role, ssh_server}

module _ {A : Type 0} where
  resume-same :
      {B : Type 0} (r : Checked B × Files) (next : B → Action Files A) (files : Files)
      → r.1 ≡ files
      → ((b : B) (now : Files) → (next b now).1 ≡ now)
      → (resume r next).1 ≡ files
  resume-same (none, now) next files same h = same
  resume-same (some (err e), now) next files same h = same
  resume-same (some (ok b), now) next files same h = h b now ∙ same

module _ (show : Error → Text) (settings : Settings) (machine : Machine) where
  read_host_policy_file-same :
      (path : FilePath) (files : Files)
      → (read_host_policy_file show settings machine path files).1 ≡ files
  unfolding read_host_policy_file
  read_host_policy_file-same path files =
      done_first (λ r. r.1 ≡ files) (machine.inspect path) _ files (λ e _. refl) (λ _. refl)

  changes_at-same :
      (desired : Files) (paths : List FilePath) (files : Files)
      → (changes_at show settings machine desired paths files).1 ≡ files
  unfolding changes_at
  changes_at-same desired [] files = refl
  changes_at-same desired (path ∷ paths) files =
      resume-same (read_host_policy_file show settings machine path files) _ files
        (read_host_policy_file-same path files)
        (λ found now.
          resume-same (changes_at show settings machine desired paths now) _ now
            (changes_at-same desired paths now) (λ _ _. refl))

  host_policy_changes-same :
      (desired files : Files) → (host_policy_changes show settings machine desired files).1 ≡ files
  unfolding host_policy_changes
  host_policy_changes-same desired files =
      passed (λ r. r.1 ≡ files) (host_policy_managed_paths show settings machine desired) _ files
        (λ e _. refl) (λ managed _. changes_at-same desired managed files)

  pub must_reload-same :
      (host : Host) (files : Files) → (must_reload show settings machine host files).1 ≡ files
  unfolding must_reload
  must_reload-same host files = elim (Bool-cases (has_ssh_role host ssh_server)) [
    | inl h ↦ rw h refl
    | inr h ↦ rw h (
        resume-same
          (read_host_policy_file show settings machine (server_config show settings machine) files)
          _ files (read_host_policy_file-same (server_config show settings machine) files)
          (λ _ _. refl))
  ]

  Restores-report_rollback :
      (e : Error) (files : Files) (r : Checked (Unit {0}) × Files) (next : Action Files (Unit {0}))
      → ((q : FilePath) → file_at q r.1 ≡ file_at q files)
      → Restores files (resume (report_rollback show settings machine e r) (λ _. next))
  unfolding report_rollback
  Restores-report_rollback e files (none, now) next h = tt
  Restores-report_rollback e files (some (ok _), now) next h = h
  Restores-report_rollback e files (some (err why), now) next h = h

  module _ (rewritten : (path : FilePath) → machine.rewrite path ≡ ok tt)
      (removed : (path : FilePath) → machine.reunlink path ≡ ok tt)
      (printed : machine.print ≡ ok tt) where
    brought_back :
        (host_name : Text) (reload_server : Bool) (changes : Changes) (previous : Previous)
        (files now : Files)
        → All (λ (p : FilePath × Option HostPolicyFile). p.1 ≡ file_at p.0 files) previous
        → ((q : FilePath) → any (λ p. eq_texts p.0 q) previous ≡ any (λ c. eq_texts c.0 q) changes)
        → ((q : FilePath)
            → any (λ c. eq_texts c.0 q) changes ≡ false
            → file_at q now ≡ file_at q files)
        → (q : FilePath)
        → file_at q
            ((restore_host_policy_files show settings machine previous
                >> validate_and_reload_ssh show settings machine machine.second host_name false
                    reload_server)
              now).1
          ≡ file_at q files
    brought_back host_name reload_server changes previous files now saved keys stays q =
        let (after, run, found) =
          restored show settings machine rewritten removed files q previous now saved in
        let quiet =
          validate_and_reload_ssh-SameFiles show settings machine machine.second host_name false
            reload_server after in
        rw run (
          ap (file_at q) quiet ∙ found ∙ elim (Bool-cases (any (λ p. eq_texts p.0 q) previous)) [
            | inl h ↦ rw h refl
            | inr h ↦ rw h (stays q (sym (keys q) ∙ h))
          ])

    reported :
        (quiet : Bool) (now : Files)
        → print_unless show settings machine quiet now ≡ (some (ok tt), now)
    unfolding print_unless
    reported true now = refl
    reported false now = rw printed refl

    or_roll_back-Restores :
        (host_name : Text) (quiet reload_server : Bool) (changes : Changes) (previous : Previous)
        (files : Files) (r : Checked (Unit {0}) × Files)
        → All (λ (p : FilePath × Option HostPolicyFile). p.1 ≡ file_at p.0 files) previous
        → ((q : FilePath) → any (λ p. eq_texts p.0 q) previous ≡ any (λ c. eq_texts c.0 q) changes)
        → ((q : FilePath)
            → any (λ c. eq_texts c.0 q) changes ≡ false
            → file_at q r.1 ≡ file_at q files)
        → Restores files (
            resume
              (or_roll_back show settings machine host_name reload_server previous r)
              (λ _. print_unless show settings machine quiet))
    unfolding or_roll_back
    or_roll_back-Restores host_name quiet reload_server changes previous files (none, now) saved
          keys stays =
        tt
    or_roll_back-Restores host_name quiet reload_server changes previous files (some (ok _), now)
          saved keys stays =
        rw (reported quiet now) tt
    or_roll_back-Restores host_name quiet reload_server changes previous files (some (err e), now)
          saved keys stays =
        Restores-report_rollback e files _ (print_unless show settings machine quiet)
          (brought_back host_name reload_server changes previous files now saved keys stays)

    rolled_back :
        (host_name : Text) (desired : Files) (quiet reload_server : Bool) (changes : Changes)
        (files : Files) (r : Checked Previous × Files)
        → Remembers show settings machine files changes r
        → Restores files (
            resume r (λ previous.
              (λ s. or_roll_back show settings machine host_name reload_server previous (
                (apply_changes show settings machine desired changes
                    >> validate_and_reload_ssh show settings machine machine.first host_name true
                        reload_server)
                  s))
              >> print_unless show settings machine quiet))
    rolled_back host_name desired quiet reload_server changes files (none, after) h = tt
    rolled_back host_name desired quiet reload_server changes files (some (err e), after) h =
        λ q. ap (file_at q) h
    rolled_back host_name desired quiet reload_server changes files (some (ok previous), after)
          (same, saved, keys) =
        or_roll_back-Restores host_name quiet reload_server changes previous files _ saved keys
          (λ q other. applied_elsewhere q other ∙ ap (file_at q) same)
      where
        applied_elsewhere :
            (q : FilePath)
            → any (λ c. eq_texts c.0 q) changes ≡ false
            → file_at q
                ((apply_changes show settings machine desired changes
                    >> validate_and_reload_ssh show settings machine machine.first host_name true
                        reload_server)
                  after).1
              ≡ file_at q after
        applied_elsewhere q other =
            let first = apply_changes-Stays show settings machine desired q changes after other in
            resumed_unit (λ (r : Checked (Unit {0}) × Files). file_at q r.1 ≡ file_at q after)
              (apply_changes show settings machine desired changes after) _ (λ _. first)
              (λ _ _. first)
              (λ _.
                ap (file_at q) (
                  validate_and_reload_ssh-SameFiles show settings machine machine.first host_name
                    true reload_server _)
                ∙ first)

    apply_listed-Restores :
        (host_name : Text) (desired : Files) (quiet validate_when_current reload_server : Bool)
        (changes : Changes) (files : Files)
        → Restores files (
            apply_listed show settings machine host_name desired quiet validate_when_current
              reload_server changes files)
    unfolding apply_listed print_unless
    apply_listed-Restores host_name desired quiet validate_when_current reload_server [] files =
        SameFiles-Restores files
          (apply_listed show settings machine host_name desired quiet validate_when_current
            reload_server [] files)
          (resume-same _ _ files (checked_now validate_when_current) (λ _. print_same quiet))
      where
        checked_now :
            (b : Bool)
            → ((if b
                  then validate_and_reload_ssh show settings machine machine.first host_name true
                      reload_server
                  else pass (ok tt))
                files).1
              ≡ files
        checked_now true =
            validate_and_reload_ssh-SameFiles show settings machine machine.first host_name true
              reload_server files
        checked_now false = refl

        print_same : (b : Bool) (now : Files) → (print_unless show settings machine b now).1 ≡ now
        print_same true now = refl
        print_same false now = refl
    apply_listed-Restores host_name desired quiet validate_when_current reload_server (c ∷ cs)
          files =
        rolled_back host_name desired quiet reload_server (c ∷ cs) files _
          (read_previous-Remembers show settings machine (c ∷ cs) files)

    -- When the rewrites and removals of the rollback and the report of the changes succeed, an
    -- application that ends in an error leaves every file as it was before: whether the host is
    -- unknown, the changes cannot be listed, a write or removal fails halfway, the checks of
    -- sshd, ssh and the revocation lists refuse the new files, or the reload fails.
    pub apply_host_policy_locked-Restores :
        (host_name : Text) (desired : Files) (quiet validate_when_current : Bool) (files : Files)
        → Restores files (
            apply_host_policy_locked show settings machine host_name desired quiet
              validate_when_current files)
    unfolding apply_host_policy_locked
    apply_host_policy_locked-Restores host_name desired quiet validate_when_current files =
        passed (Restores files) (required_host settings.policy host_name) _ files (λ e _ _. refl)
          (λ host _.
            quiet_first (Restores files) (must_reload show settings machine host files) _ files
              (must_reload-same host files) (λ _. tt) (λ e _ _. refl)
              (λ reload_server _.
                quiet_first (Restores files)
                  (host_policy_changes show settings machine desired files) _ files
                  (host_policy_changes-same desired files) (λ _. tt) (λ e _ _. refl)
                  (λ changes _.
                    apply_listed-Restores host_name desired quiet validate_when_current
                      reload_server changes files)))
