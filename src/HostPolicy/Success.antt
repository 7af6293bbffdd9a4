-- ===== src/HostPolicy/Success.antt =====
-- A successful application of the host policy leaves the desired files, and none panics.
use grafhome_ca.Authority.Action.{pass, resume, ◌>>◌}
use grafhome_ca.Authority.Machine.{Answer}
use grafhome_ca.Authority.Outcomes.{passed, quiet_first}
use grafhome_ca.Base.{
  All, Bool, Bool-cases, Error, List, Text, [], any, eq_texts, err, false, if◌then◌else◌, inl, inr,
  none, ok, refl, some, sym, subst, true, ◌∙◌, ◌∷◌, ◌≡◌,
}
use grafhome_ca.HostPolicy.AllOrNothing.{must_reload-same}
use grafhome_ca.HostPolicy.Apply.{
  Changes, Machine, Previous, Settings, apply_changes, apply_host_policy_locked, apply_listed,
  host_policy_changes, host_policy_managed_paths, must_reload, or_roll_back, print_unless,
  read_previous, report_rollback, required_host, restore_host_policy_files, validate_and_reload_ssh,
}
use grafhome_ca.HostPolicy.Checks.{Checks}
use grafhome_ca.HostPolicy.Converges.{
  Applied, Listed, Suits, apply_changes-Applied, changes_at-Listed,
}
use grafhome_ca.HostPolicy.Ends.{
  Ends, Ends-some, Ends-then, ran, validate_and_reload_ssh-Ends, must_reload-Ends,
  restore_host_policy_files-Ends,
}
use grafhome_ca.HostPolicy.Restored.{Remembers, read_previous-Remembers}
use grafhome_ca.HostPolicy.Store.{Files, FilePath, file_at}
use grafhome_ca.Policy.Checked.{Checked}

module _ (show : Error → Text) (settings : Settings) (machine : Machine) where
  module _ (desired : Files) where
    abbrev AppliedNow : Changes → Files → Checked (Unit {0}) × Files → Type 0
    AppliedNow = Applied show settings machine desired

    answered_last :
        (changes : Changes) (files now : Files) (answer : Answer)
        → AppliedNow changes files (some (ok tt), now)
        → AppliedNow changes files (pass answer now)
    answered_last changes files now (err e) h = tt
    answered_last changes files now (ok _) h = h

    checked_last :
        (checks : Checks) (host_name : Text) (krls reload_server : Bool) (changes : Changes)
        (files : Files) (r : Checked (Unit {0}) × Files)
        → AppliedNow changes files r
        → AppliedNow changes files (
            resume r (λ _.
              validate_and_reload_ssh show settings machine checks host_name krls reload_server))
    unfolding validate_and_reload_ssh
    checked_last checks host_name krls reload_server changes files (none, now) h = h
    checked_last checks host_name krls reload_server changes files (some (err e), now) h = tt
    checked_last checks host_name krls reload_server changes files (some (ok _), now) h =
        passed (AppliedNow changes files) (required_host settings.policy host_name) _ now
          (λ e _. tt)
          (λ host _.
            answered_last changes files now
              (ran show settings machine checks krls reload_server host now) h)

    printed_last :
        (quiet : Bool) (changes : Changes) (files : Files) (r : Checked (Unit {0}) × Files)
        → AppliedNow changes files r
        → AppliedNow changes files (resume r (λ _. print_unless show settings machine quiet))
    unfolding print_unless
    printed_last quiet changes files (none, now) h = h
    printed_last quiet changes files (some (err e), now) h = tt
    printed_last true changes files (some (ok _), now) h = h
    printed_last false changes files (some (ok _), now) h =
        answered_last changes files now machine.print h

    reported_last :
        (e : Error) (changes : Changes) (files : Files) (r : Checked (Unit {0}) × Files)
        → Ends r
        → AppliedNow changes files (report_rollback show settings machine e r)
    unfolding report_rollback
    reported_last e changes files (none, now) h = h
    reported_last e changes files (some (ok _), now) h = tt
    reported_last e changes files (some (err why), now) h = tt

    or_roll_back-Applied :
        (host_name : Text) (reload_server : Bool) (previous : Previous) (changes : Changes)
        (files : Files) (r : Checked (Unit {0}) × Files)
        → AppliedNow changes files r
        → AppliedNow changes files
            (or_roll_back show settings machine host_name reload_server previous r)
    unfolding or_roll_back
    or_roll_back-Applied host_name reload_server previous changes files (none, now) h = h
    or_roll_back-Applied host_name reload_server previous changes files (some (ok _), now) h = h
    or_roll_back-Applied host_name reload_server previous changes files (some (err e), now) h =
        reported_last e changes files _ (
          Ends-then (restore_host_policy_files show settings machine previous now) _
            (restore_host_policy_files-Ends show settings machine previous now)
            (λ _ after.
              validate_and_reload_ssh-Ends show settings machine machine.second host_name false
                reload_server after))

    rolled_back :
        (host_name : Text) (quiet reload_server : Bool) (changes : Changes) (files : Files)
        (r : Checked Previous × Files)
        → All (Suits desired) changes
        → Remembers show settings machine files changes r
        → AppliedNow changes files (
            resume r (λ previous.
              (λ s. or_roll_back show settings machine host_name reload_server previous (
                (apply_changes show settings machine desired changes
                    >> validate_and_reload_ssh show settings machine machine.first host_name true
                        reload_server)
                  s))
              >> print_unless show settings machine quiet))
    rolled_back host_name quiet reload_server changes files (none, now) suit h = h
    rolled_back host_name quiet reload_server changes files (some (err e), now) suit h = tt
    rolled_back host_name quiet reload_server changes files (some (ok previous), now) suit
          (same, _, _) =
        let applied = apply_changes-Applied show settings machine desired changes now suit in
        let checked =
          checked_last machine.first host_name true reload_server changes now _ applied in
        let kept = or_roll_back-Applied host_name reload_server previous changes now _ checked in
        subst
          (λ f. AppliedNow changes f (
            resume
              (or_roll_back show settings machine host_name reload_server previous (
                (apply_changes show settings machine desired changes
                    >> validate_and_reload_ssh show settings machine machine.first host_name true
                        reload_server)
                  now))
              (λ _. print_unless show settings machine quiet)))
          same (printed_last quiet changes now _ kept)

    apply_listed-Applied :
        (host_name : Text) (quiet validate_when_current reload_server : Bool) (changes : Changes)
        (files : Files)
        → All (Suits desired) changes
        → AppliedNow changes files (
            apply_listed show settings machine host_name desired quiet validate_when_current
              reload_server changes files)
    unfolding apply_listed
    apply_listed-Applied host_name quiet true reload_server [] files suit =
        printed_last quiet [] files _ (
          checked_last machine.first host_name true reload_server [] files (some (ok tt), files)
            (λ q. refl))
    apply_listed-Applied host_name quiet false reload_server [] files suit =
        printed_last quiet [] files (some (ok tt), files) (λ q. refl)
    apply_listed-Applied host_name quiet validate_when_current reload_server (c ∷ cs) files suit =
        rolled_back host_name quiet reload_server (c ∷ cs) files
          (read_previous show settings machine (c ∷ cs) files) suit
          (read_previous-Remembers show settings machine (c ∷ cs) files)

    -- After a success the managed files are the desired ones and the others stay.
    abbrev pub Converges : List FilePath → Files → Checked (Unit {0}) × Files → Type 0
    Converges managed files (some (ok _), after) =
        (q : FilePath)
        → file_at q after
          ≡ (if any (λ p. eq_texts p q) managed then file_at q desired else file_at q files)
    Converges managed files (some (err e), after) = Unit
    Converges managed files (none, after) = ⊥

    Converges-Applied :
        (managed : List FilePath) (changes : Changes) (files : Files)
        (r : Checked (Unit {0}) × Files)
        → Listed desired managed files (some (ok changes), files)
        → AppliedNow changes files r
        → Converges managed files r
    Converges-Applied managed changes files (none, now) h k = k
    Converges-Applied managed changes files (some (err e), now) h k = tt
    Converges-Applied managed changes files (some (ok _), now) (_, _, kept, others) k = λ q.
        k q ∙ elim (Bool-cases (any (λ p. eq_texts p q) managed)) [
          | inl m ↦ elim (Bool-cases (any (λ c. eq_texts c.0 q) changes)) [
            | inl c ↦ rw (m, c) refl
            | inr c ↦ rw (m, c) (kept q m c)
          ]
          | inr m ↦ rw (m, others q m) refl
        ]

    Converges-Listed :
        (host_name : Text) (quiet validate_when_current reload_server : Bool)
        (managed : List FilePath) (files : Files) (r : Checked Changes × Files)
        → Listed desired managed files r
        → Converges managed files (
            resume r (λ changes.
              apply_listed show settings machine host_name desired quiet validate_when_current
                reload_server changes))
    Converges-Listed host_name quiet validate_when_current reload_server managed files (none, now)
          h =
        h
    Converges-Listed host_name quiet validate_when_current reload_server managed files
          (some (err e), now) h =
        tt
    Converges-Listed host_name quiet validate_when_current reload_server managed files
          (some (ok changes), now) (same, suit, kept, others) =
        subst
          (λ now'. Converges managed files (
            apply_listed show settings machine host_name desired quiet validate_when_current
              reload_server changes now'))
          (sym same)
          (Converges-Applied managed changes files _ (refl, suit, kept, others)
            (apply_listed-Applied host_name quiet validate_when_current reload_server changes files
              suit))

    -- An application never panics, and once it succeeds each managed path has its desired file, or
    -- none where none is desired, while every other file is as before. The managed paths are those
    -- that host_policy_managed_paths lists for the desired files.
    pub apply_host_policy_locked-Converges :
        (host_name : Text) (quiet validate_when_current : Bool) (managed : List FilePath)
        (files : Files)
        → host_policy_managed_paths show settings machine desired ≡ ok managed
        → Converges managed files (
            apply_host_policy_locked show settings machine host_name desired quiet
              validate_when_current files)
    unfolding apply_host_policy_locked host_policy_changes
    apply_host_policy_locked-Converges host_name quiet validate_when_current managed files h =
        passed (Converges managed files) (required_host settings.policy host_name) _ files
          (λ e _. tt)
          (λ host _.
            let reload = must_reload show settings machine host files in
            quiet_first (Converges managed files) reload _ files
              (must_reload-same show settings machine host files)
              (Ends-some reload (must_reload-Ends show settings machine host files)) (λ e _. tt)
              (λ reload_server _. rw h (
                Converges-Listed host_name quiet validate_when_current reload_server managed files _
                  (changes_at-Listed show settings machine desired managed files))))
