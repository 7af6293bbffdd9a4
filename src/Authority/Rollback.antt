-- ===== src/Authority/Rollback.antt =====
-- What the installation of a new ca.json leaves on the disk.
use grafhome_ca.Authority.Outcomes.{done_first, written_first}
use grafhome_ca.Base.{Error, Text, arith, err, none, ok, refl, some, ◌≡◌, subst, ◌⊎◌, inl, inr}
use grafhome_ca.Authority.Action.{Action, pass, resume, ◌>>◌}
use grafhome_ca.Authority.Health.{activate_service}
use grafhome_ca.Authority.Install.{
  install_ca_json_with_rollback, or_restore, report, restore, write_ca_json,
}
use grafhome_ca.Authority.Machine.{Answer, Disk, Machine}
use grafhome_ca.Policy.Checked.{Checked}

abbrev Failed : Answer → Type 0
Failed answer = (e : Error) × (answer ≡ err e)

-- The failures that are not rolled back: of the synchronisation behind the rename, of the search
-- for step, and of the last line.
abbrev pub Unprotected : Machine → Type 0
Unprotected machine =
    Failed machine.write_ca_json.synced ⊎ (Failed machine.step_bin ⊎ Failed machine.print_backup)

module _ {V A : Type 0} where
  -- The abstract replacement: a success leaves the new text, and an error the old one, or the new
  -- one beside a backup of the old after a failure that is not rolled back. A panic of the last
  -- step is not caught.
  abbrev pub Replaces : Machine → Text → Text → Checked A × Disk V → Type 0
  Replaces machine old new (some (ok a), disk) = disk.ca_json ≡ new
  Replaces machine old new (some (err e), disk) =
      (disk.ca_json ≡ old) ⊎ ((disk.ca_json ≡ new) × (disk.backup ≡ some old) × Unprotected machine)
  Replaces machine old new (none, disk) = disk.ca_json ≡ new

  -- Before the last line.
  abbrev Holds : Text → Text → Checked A × Disk V → Type 0
  Holds old new (some (ok a), disk) = (disk.ca_json ≡ new) × (disk.backup ≡ some old)
  Holds old new (some (err e), disk) = disk.ca_json ≡ old
  Holds old new (none, disk) = disk.ca_json ≡ new

  -- The step leaves ca.json and its backup alone.
  abbrev pub KeepsCa : Action (Disk V) A → Type 0
  KeepsCa action =
      (disk : Disk V)
      → ((action disk).1.ca_json ≡ disk.ca_json) × ((action disk).1.backup ≡ disk.backup)

module _ {V : Type 0} (A : Type 0) (show : Error → Text) (machine : Machine) where
  reported :
      (e : Error) (new : Text) (r : Checked (Unit {0}) × Disk V)
      → ¬ (r.0 ≡ none)
      → Holds r.1.ca_json new (report show machine {A = A} e r)
  unfolding report
  reported e new (none, disk) h = absurd (h refl)
  reported e new (some (ok _), disk) h = refl
  reported e new (some (err why), disk) h = refl

  restore-ca_json :
      (old : Text) (disk : Disk V)
      → machine.rewrite_ca_json.renamed ≡ ok tt
      → ((restore show machine old disk).1.ca_json ≡ old)
        × ¬ ((restore show machine old disk).0 ≡ none)
  unfolding restore write_ca_json
  restore-ca_json old disk h = ground arith

  or_restore-Holds :
      (old new : Text) (r : Checked A × Disk V)
      → machine.rewrite_ca_json.renamed ≡ ok tt
      → (r.1.ca_json ≡ new) × (r.1.backup ≡ some old)
      → Holds old new (or_restore show machine old r)
  unfolding or_restore
  or_restore-Holds old new (none, disk) h k = k.0
  or_restore-Holds old new (some (ok a), disk) h k = k
  or_restore-Holds old new (some (err e), disk) h k =
      let (same, ended) = restore-ca_json old disk h in
      subst (λ t. Holds t new (report show machine {A = A} e (restore show machine old disk))) same
        (reported e new (restore show machine old disk) ended)

  activated :
      (content : Text) (after_activate : Action (Disk V) A)
      → KeepsCa after_activate
      → (r : Answer) → KeepsCa (pass r >> after_activate)
  activated content after_activate q (err e) disk = (refl, refl)
  activated content after_activate q (ok _) disk = q disk

  printed_first :
      (old new : Text) (a : A) (answer : Answer) (disk : Disk V)
      → machine.print_backup ≡ answer
      → (disk.ca_json ≡ new) × (disk.backup ≡ some old)
      → Replaces machine old new ((pass answer >> pass (ok a)) disk)
  printed_first old new a (err e) disk h (k, b) = inr (k, b, inr (inr (e, h)))
  printed_first old new a (ok _) disk h (k, b) = k

  Replaces-Holds :
      (old new : Text) (r : Checked A × Disk V)
      → Holds old new r
      → Replaces machine old new (resume r (λ a. pass machine.print_backup >> pass (ok a)))
  Replaces-Holds old new (none, disk) h = h
  Replaces-Holds old new (some (err e), disk) h = inl h
  Replaces-Holds old new (some (ok a), disk) h =
      printed_first old new a machine.print_backup disk refl h

  -- When the rollback can rename ca.json back, a success of the installation leaves the new
  -- ca.json. An error leaves the old one, or else the new one with the old one in the backup, and
  -- then the synchronisation behind the rename, the search for step or the print of the last line
  -- has failed. The steps after the activation are ones that leave ca.json and its backup alone.
  pub install_ca_json_with_rollback-Replaces :
      (content : Text) (after_activate : Action (Disk V) A)
      → machine.rewrite_ca_json.renamed ≡ ok tt
      → KeepsCa after_activate
      → (disk : Disk V)
      → Replaces machine disk.ca_json content
          (install_ca_json_with_rollback show machine content after_activate disk)
  unfolding install_ca_json_with_rollback write_ca_json
  install_ca_json_with_rollback-Replaces content after_activate back quiet disk =
      let old = disk.ca_json in
      let goal = Replaces {V = V} {A = A} machine old content in
      let service = activate_service show machine.activation in
      let held = record disk { backup = some old } in
      let written = record held { ca_json = content } in
      done_first goal machine.read_ca_json _ disk (λ e _. inl refl)
        (λ _.
          done_first goal machine.backup _ disk (λ e _. inl refl)
            (λ _.
              written_first goal machine.write_ca_json.renamed machine.write_ca_json.synced _ _ held
                (λ e _. inl refl) (λ e _ k. inr (refl, refl, inl (e, k)))
                (λ _ _.
                  done_first goal machine.step_bin _ written
                    (λ e k. inr (refl, refl, inr (inl (e, k))))
                    (λ _. Replaces-Holds old content _ (
                      or_restore-Holds old content ((pass service >> after_activate) written) back
                        (activated content after_activate quiet service written))))))
