-- ===== src/HostPolicy/Restored.antt =====
-- What a failed application leaves of the files of a host.
use grafhome_ca.Authority.Action.{pass, resume, ◌>>=◌, ◌>>◌}
use grafhome_ca.Authority.Machine.{Answer}
use grafhome_ca.Base.{
  eq_texts_sound, Bool, Error, Option, Text, [], any, ap, arith, eq_texts, err, false, none, ok,
  refl, some, ◌∙◌, ◌∷◌, ◌≡◌, all, if◌then◌else◌, true, ◌||◌, All, Bool-cases, inl, inr,
}
use grafhome_ca.Authority.Outcomes.{done_first, passed, checked_first, resumed_unit}
use grafhome_ca.HostPolicy.Apply.{
  Changes, HostPolicyChange, Machine, Settings, apply_change, apply_changes, create, remove,
  remove_host_policy_file, required_host, update, validate_and_reload_ssh, write_desired, Previous,
  read_host_policy_file, read_previous, restore_file, restore_host_policy_files,
}
use grafhome_ca.HostPolicy.Checks.{Checks}
use grafhome_ca.HostPolicy.Store.{
  Files, FilePath, HostPolicyFile, file_at, file_at-set_file, set_file,
}
use grafhome_ca.Policy.Checked.{Checked, expect}

module _ {A : Type 0} where
  -- After an error every file is as it was.
  abbrev pub Restores : Files → Checked A × Files → Type 0
  Restores files (some (err e), after) = (q : FilePath) → file_at q after ≡ file_at q files
  Restores files (some (ok a), after) = Unit
  Restores files (none, after) = Unit

  -- The files have not changed.
  abbrev pub SameFiles : Files → Checked A × Files → Type 0
  SameFiles files r = r.1 ≡ files

  pub SameFiles-Restores :
      (files : Files) (r : Checked A × Files) → SameFiles files r → Restores files r
  SameFiles-Restores files (some (err e), after) h = λ q. ap (file_at q) h
  SameFiles-Restores files (some (ok a), after) h = tt
  SameFiles-Restores files (none, after) h = tt

module _ (show : Error → Text) (settings : Settings) (machine : Machine) where
  abbrev Same : Files → Checked (Unit {0}) × Files → Type 0
  Same = SameFiles {A = Unit {0}}

  pub validate_and_reload_ssh-SameFiles :
      (checks : Checks) (host_name : Text) (krls reload_server : Bool) (files : Files)
      → Same files
          (validate_and_reload_ssh show settings machine checks host_name krls reload_server files)
  unfolding validate_and_reload_ssh
  validate_and_reload_ssh-SameFiles checks host_name krls reload_server files =
      passed (Same files) (required_host settings.policy host_name) _ files (λ e _. refl)
        (λ host _. refl)

  -- A file that no change names stays.
  module _ (desired : Files) (q : FilePath) where
    abbrev Stays : Files → Checked (Unit {0}) × Files → Type 0
    Stays files r = file_at q r.1 ≡ file_at q files

    stays :
        (path : FilePath) (o : Option HostPolicyFile) (files : Files)
        → eq_texts path q ≡ false
        → file_at q (set_file path o files) ≡ file_at q files
    stays path o files h = file_at-set_file q path o files ∙ rw h refl

    write_desired-Stays :
        (path : FilePath) (files : Files)
        → eq_texts path q ≡ false
        → Stays files (write_desired show settings machine desired path files)
    unfolding write_desired
    write_desired-Stays path files h =
        checked_first (Stays files) (expect (file_at path desired)) _ files (λ _. refl)
          (λ e _. refl)
          (λ file _.
            done_first (Stays files) (machine.write path) _ files (λ e _. refl)
              (λ _. stays path (some file) files h))

    apply_change-Stays :
        (path : FilePath) (change : HostPolicyChange) (files : Files)
        → eq_texts path q ≡ false
        → Stays files (apply_change show settings machine desired path change files)
    unfolding apply_change remove_host_policy_file
    apply_change-Stays path create files h = write_desired-Stays path files h
    apply_change-Stays path update files h = write_desired-Stays path files h
    apply_change-Stays path remove files h =
        done_first (Stays files) (machine.unlink path) _ files (λ e _. refl)
          (λ _. stays path none files h)

    pub apply_changes-Stays :
        (changes : Changes) (files : Files)
        → any (λ c. eq_texts c.0 q) changes ≡ false
        → Stays files (apply_changes show settings machine desired changes files)
    unfolding apply_changes
    apply_changes-Stays [] files h = refl
    apply_changes-Stays ((path, change) ∷ changes) files h =
        let here : eq_texts path q ≡ false = ground arith in
        let later : any (λ c. eq_texts c.0 q) changes ≡ false = ground arith in
        let first = apply_change-Stays path change files here in
        resumed_unit (Stays files) (apply_change show settings machine desired path change files)
          (apply_changes show settings machine desired changes) (λ _. first) (λ _ _. first)
          (λ _. apply_changes-Stays changes _ later ∙ first)

  -- What was read before is the files as they were, under the paths of the changes.
  abbrev pub Remembers : Files → Changes → Checked Previous × Files → Type 0
  Remembers files changes (some (ok saved), after) =
      (after ≡ files)
      × All (λ (p : FilePath × Option HostPolicyFile). p.1 ≡ file_at p.0 files) saved
      × ((q : FilePath) → any (λ p. eq_texts p.0 q) saved ≡ any (λ c. eq_texts c.0 q) changes)
  Remembers files changes (some (err e), after) = after ≡ files
  Remembers files changes (none, after) = ⊥

  Remembers-more :
      (path : FilePath) (change : HostPolicyChange) (changes : Changes) (files : Files)
      (r : Checked Previous × Files)
      → Remembers files changes r
      → Remembers files
          ((path, change) ∷ changes)
          (resume r (λ saved. pass (ok ((path, file_at path files) ∷ saved))))
  Remembers-more path change changes files (none, after) h = h
  Remembers-more path change changes files (some (err e), after) h = h
  Remembers-more path change changes files (some (ok saved), after) (same, all, keys) =
      (same, (refl, all), λ q. ap (λ b. eq_texts path q || b) (keys q))

  pub read_previous-Remembers :
      (changes : Changes) (files : Files)
      → Remembers files changes (read_previous show settings machine changes files)
  unfolding read_previous read_host_policy_file
  read_previous-Remembers [] files = (refl, tt, λ q. refl)
  read_previous-Remembers ((path, change) ∷ changes) files =
      read_first (machine.inspect path) (read_previous-Remembers changes files)
    where
      read_first :
          (answer : Answer)
          → Remembers files changes (read_previous show settings machine changes files)
          → Remembers files ((path, change) ∷ changes) (
              ((pass answer >> (λ now. (some (ok (file_at path now)), now))) >>= λ file.
              read_previous show settings machine changes >>= λ saved.
              pass (ok ((path, file) ∷ saved)))
                files)
      read_first (err e) h = refl
      read_first (ok _) h =
          Remembers-more path change changes files
            (read_previous show settings machine changes files) h

  module _ (rewritten : (path : FilePath) → machine.rewrite path ≡ ok tt)
      (removed : (path : FilePath) → machine.reunlink path ≡ ok tt) where
    restore_file-eq :
        (path : FilePath) (o : Option HostPolicyFile) (now : Files)
        → restore_file show settings machine path o now ≡ (some (ok tt), set_file path o now)
    unfolding restore_file remove_host_policy_file
    restore_file-eq path none now = rw (removed path) refl
    restore_file-eq path (some file) now = rw (rewritten path) refl

    restored_one :
        (files : Files) (q path : FilePath) (o : Option HostPolicyFile) (now : Files) (b : Bool)
        → o ≡ file_at path files
        → (if b then file_at q files else file_at q (set_file path o now))
          ≡ (if eq_texts path q || b then file_at q files else file_at q now)
    restored_one files q path o now true e = ground arith
    restored_one files q path o now false e = elim (Bool-cases (eq_texts path q)) [
      | inl k ↦
          let same : path ≡ q = eq_texts_sound path q k in
          let old : o ≡ file_at q files = e ∙ ap (λ p. file_at p files) same in
          let set = file_at-set_file q path o now in ground arith
      | inr k ↦ let set = file_at-set_file q path o now in ground arith
    ]

    -- The files under the saved paths are as they were, and the others as they are now.
    pub restored :
        (files : Files) (q : FilePath) (saved : Previous) (now : Files)
        → All (λ (p : FilePath × Option HostPolicyFile). p.1 ≡ file_at p.0 files) saved
        → (after : Files) × (restore_host_policy_files show settings machine saved now
            ≡ (some (ok tt), after))
          × (file_at q after
              ≡ (if any (λ p. eq_texts p.0 q) saved then file_at q files else file_at q now))
    unfolding restore_host_policy_files
    restored files q [] now h = (now, refl, refl)
    restored files q ((path, o) ∷ saved) now (e, h) =
        let (after, run, found) = restored files q saved (set_file path o now) h in
        (
          after,
          rw (restore_file-eq path o now) run,
          found ∙ restored_one files q path o now (any (λ p. eq_texts p.0 q) saved) e,
        )
