-- ===== src/Authority/Untouched.antt =====
-- The actions of the CA that leave the policy files alone.
use grafhome_ca.Registry.Pending.{validate}
use grafhome_ca.Policy.Fields.{ca_api}
use grafhome_ca.Authority.Revoke.{activate_revocation_ca_update}
use grafhome_ca.Authority.Site.{Site, required_endpoint_url, save_registry}
use grafhome_ca.External.{External}
use grafhome_ca.Registry.Store.{EnrollmentRegistry}
use grafhome_ca.Base.{
  Bool, Error, Text, arith, err, false, if◌then◌else◌, none, ok, refl, some, true, ◌∙◌, ◌≡◌,
}
use grafhome_ca.Authority.Action.{Action, resume, pass, ◌>>=◌, ◌>>◌}
use grafhome_ca.Authority.Install.{
  install_ca_json_with_rollback, or_restore, report, restore, write_ca_json,
}
use grafhome_ca.Authority.Health.{activate_service}
use grafhome_ca.Authority.Machine.{Write, Disk, Machine}
use grafhome_ca.Authority.Outcomes.{done_first, resumed, resumed_unit, written_first, passed}
use grafhome_ca.Policy.Checked.{Checked}
use grafhome_ca.Policy.Model.{Policy}

module _ {V A : Type 0} where
  -- The policy files are as they were.
  abbrev pub KeepsPolicy : Action (Disk V) A → Type 0
  KeepsPolicy action = (disk : Disk V) → (action disk).1.policy ≡ disk.policy

  -- Goals on what is left.
  abbrev Kept : Policy → Checked A × Disk V → Type 0
  Kept policy r = r.1.policy ≡ policy

module _ {V A B : Type 0} where
  pub KeepsPolicy-bind :
      (m : Action (Disk V) A) (next : A → Action (Disk V) B)
      → KeepsPolicy m
      → ((a : A) → KeepsPolicy (next a))
      → KeepsPolicy (m >>= next)
  KeepsPolicy-bind m next h k disk =
      resumed (Kept disk.policy) (m disk) next (λ _. h disk) (λ _ _. h disk)
        (λ a _. k a (m disk).1 ∙ h disk)

module _ {V B : Type 0} where
  pub KeepsPolicy-then :
      (m : Action (Disk V) (Unit {0})) (next : Action (Disk V) B)
      → KeepsPolicy m
      → KeepsPolicy next
      → KeepsPolicy (m >> next)
  KeepsPolicy-then m next h k disk =
      resumed_unit (Kept disk.policy) (m disk) next (λ _. h disk) (λ _ _. h disk)
        (λ _. k (m disk).1 ∙ h disk)

  pub KeepsPolicy-if :
      (b : Bool) (m n : Action (Disk V) B)
      → KeepsPolicy m
      → KeepsPolicy n
      → KeepsPolicy (if b then m else n)
  KeepsPolicy-if true m n h k = h
  KeepsPolicy-if false m n h k = k

module _ {V : Type 0} (A : Type 0) (show : Error → Text) (machine : Machine) where
  write_ca_json-KeepsPolicy :
      (write : Write) (content : Text)
      → KeepsPolicy (write_ca_json show {V = V} machine write content)
  unfolding write_ca_json
  write_ca_json-KeepsPolicy write content disk = ground arith

  restore-KeepsPolicy : (old : Text) → KeepsPolicy (restore show {V = V} machine old)
  unfolding restore write_ca_json
  restore-KeepsPolicy old disk = ground arith

  report-policy :
      (e : Error) (r : Checked (Unit {0}) × Disk V)
      → (report show machine {A = A} e r).1.policy ≡ r.1.policy
  unfolding report
  report-policy e (none, disk) = refl
  report-policy e (some (ok _), disk) = refl
  report-policy e (some (err why), disk) = refl

  or_restore-policy :
      (old : Text) (r : Checked A × Disk V) → (or_restore show machine old r).1.policy ≡ r.1.policy
  unfolding or_restore
  or_restore-policy old (none, disk) = refl
  or_restore-policy old (some (ok a), disk) = refl
  or_restore-policy old (some (err e), disk) =
      report-policy e (restore show machine old disk) ∙ restore-KeepsPolicy old disk

  printed_policy :
      (r : Checked A × Disk V)
      → (resume r (λ a. pass machine.print_backup >> pass (ok a))).1.policy ≡ r.1.policy
  printed_policy (none, disk) = refl
  printed_policy (some (err e), disk) = refl
  printed_policy (some (ok a), disk) = ground arith

  pub install_ca_json_with_rollback-KeepsPolicy :
      (content : Text) (after_activate : Action (Disk V) A)
      → KeepsPolicy after_activate
      → KeepsPolicy (install_ca_json_with_rollback show machine content after_activate)
  unfolding install_ca_json_with_rollback write_ca_json
  install_ca_json_with_rollback-KeepsPolicy content after_activate quiet disk =
      let goal = Kept {V = V} {A = A} disk.policy in
      let service = pass (activate_service show machine.activation) >> after_activate in
      let held = record disk { backup = some disk.ca_json } in
      let written = record held { ca_json = content } in
      done_first goal machine.read_ca_json _ disk (λ e _. refl)
        (λ _.
          done_first goal machine.backup _ disk (λ e _. refl)
            (λ _.
              written_first goal machine.write_ca_json.renamed machine.write_ca_json.synced _ _ held
                (λ e _. refl) (λ e _ _. refl)
                (λ _ _.
                  done_first goal machine.step_bin _ written (λ e _. refl)
                    (λ _.
                      printed_policy (or_restore show machine disk.ca_json (service written))
                      ∙ (or_restore-policy disk.ca_json (service written)
                          ∙ KeepsPolicy-then (pass (activate_service show machine.activation))
                              after_activate (λ _. refl) quiet written)))))

module _ (x : External) (machine : Machine) where
  open x use {Value}

  module _ (site : Site Value) where
    pub save_registry-KeepsPolicy :
        (registry : EnrollmentRegistry Value) → KeepsPolicy (save_registry x machine site registry)
    unfolding save_registry
    save_registry-KeepsPolicy registry disk =
        let goal = Kept {V = Value} {A = Unit {0}} disk.policy in
        done_first goal (validate x site.registry_path registry) _ disk (λ e _. refl)
          (λ _. done_first goal machine.write_registry.renamed _ disk (λ e _. refl) (λ _. refl))

    pub activate_revocation_ca_update-KeepsPolicy :
        (content : Text) (changed : Bool)
        → KeepsPolicy (activate_revocation_ca_update x machine site content changed)
    unfolding activate_revocation_ca_update
    activate_revocation_ca_update-KeepsPolicy content false disk = refl
    activate_revocation_ca_update-KeepsPolicy content true disk =
        passed (Kept {V = Value} {A = Unit {0}} disk.policy)
          (required_endpoint_url site.policy ca_api) _ disk (λ e _. refl)
          (λ _ _.
            install_ca_json_with_rollback-KeepsPolicy (Unit {0}) site.show machine content
              (pass (ok tt)) (λ _. refl) disk)
