-- ===== src/Authority/FailSafe.antt =====
-- What a revocation leaves on the disk, wherever it stops.
use grafhome_ca.Authority.Coverage.{LiveEnrollment, require_registry_coverage}
use grafhome_ca.Policy.Validation.{validate_policy}
use grafhome_ca.Authority.Outcomes.{checked_first, done_first, passed, quiet_first}
use grafhome_ca.Policy.Revoked.{RevokedSshKey, RevokedX509Key}
use grafhome_ca.Base.{
  All, List, Option, Text, err, filter, inl, inr, is_empty, length, none, not, refl, some, ◌==◌,
  ◌||◌, ◌≡◌, ◌⊎◌, ok, sym, subst, Error, Result,
}
use grafhome_ca.Authority.Action.{Action, pass, modify, ◌>>◌, resume}
use grafhome_ca.Authority.Ledger.{
  LedgerAdditions, store_ledger, RevocationPolicyUpdate, add_revocations,
  prepare_revocation_policy_update, update_of, write_update,
}
use grafhome_ca.Authority.Machine.{Answer, Disk, Machine, Write}
use grafhome_ca.Authority.Revoke.{
  RevocationOutcome, activate_revocation_ca_update, finish_revocation, save_marked,
  commit_revocation,
}
use grafhome_ca.Authority.Site.{Site, save_registry, read_config}
use grafhome_ca.Authority.Tombstones.{Dead, unchanged-Dead, written-Dead}
use grafhome_ca.Authority.Untouched.{
  KeepsPolicy, KeepsPolicy-then, KeepsPolicy-if, save_registry-KeepsPolicy,
  activate_revocation_ca_update-KeepsPolicy,
}
use grafhome_ca.External.{External}
use grafhome_ca.Policy.Checked.{Checked}
use grafhome_ca.Registry.Record.{EnrollmentRecord}
use grafhome_ca.Registry.Store.{EnrollmentRegistry, mark_revoked, live}

module _ {V : Type 0} (selected : List (EnrollmentRecord V)) (before : Disk V) where
  -- Neither the live configuration nor the registry has changed.
  abbrev pub NotBegun : Disk V → Type 0
  NotBegun disk = (disk.ca_json ≡ before.ca_json) × (disk.registry ≡ before.registry)

  abbrev pub AllDead : Disk V → Type 0
  AllDead disk = All (Dead disk.policy) selected

module _ {V A : Type 0} (selected : List (EnrollmentRecord V)) (before : Disk V) where
  -- After a success every record has its key in the ledger; after an error that, or nothing has
  -- begun.
  abbrev pub FailsSafe : Checked A × Disk V → Type 0
  FailsSafe (some (ok a), disk) = AllDead selected before disk
  FailsSafe (some (err e), disk) = NotBegun selected before disk ⊎ AllDead selected before disk
  FailsSafe (none, disk) = NotBegun selected before disk ⊎ AllDead selected before disk

  dead-FailsSafe : (r : Checked A × Disk V) → AllDead selected before r.1 → FailsSafe r
  dead-FailsSafe (some (ok a), disk) h = h
  dead-FailsSafe (some (err e), disk) h = inr h
  dead-FailsSafe (none, disk) h = inr h

  -- The write of the ledger, with what follows it.
  write_first :
      (write : Write) (lists : List RevokedSshKey × List RevokedX509Key) (next : Action (Disk V) A)
      → AllDead selected before (store_ledger lists before)
      → ((disk : Disk V) → AllDead selected before disk → FailsSafe (next disk))
      → FailsSafe (
          ((pass write.renamed >> (modify (store_ledger lists) >> pass write.synced)) >> next)
            before)
  write_first write lists next h k = two write.renamed write.synced
    where
      two :
          (first second : Answer)
          → FailsSafe
              (((pass first >> (modify (store_ledger lists) >> pass second)) >> next) before)
      two (err e) second = inl (refl, refl)
      two (ok _) (err e) = inr h
      two (ok _) (ok _) = k (store_ledger lists before) h

module _ (x : External) (machine : Machine) where
  open x use {Value}

  module _ (site : Site Value) where
    module _ (registry : EnrollmentRegistry Value) (selected : List (EnrollmentRecord Value))
        (reason : Option Text) where
      finish_revocation-KeepsPolicy :
          (timestamp : Text) (added : LedgerAdditions) (taken : Value × List Text)
          → KeepsPolicy (finish_revocation x machine site registry selected timestamp added taken)
      unfolding finish_revocation save_marked
      finish_revocation-KeepsPolicy timestamp added (proposed, removed) =
          let newly_revoked = length (filter live selected) in
          let content = site.to_string proposed in
          let changed = not (is_empty removed) || not (newly_revoked == 0) in
          let marked = mark_revoked registry selected timestamp in
          let end : Action (Disk Value) RevocationOutcome = pass (
            ok (record {
              newly_revoked = newly_revoked;
              ledger_added = added;
              removed = removed;
            })) in
          KeepsPolicy-then (activate_revocation_ca_update x machine site content changed)
            (save_marked x machine site marked >> end)
            (activate_revocation_ca_update-KeepsPolicy x machine site content changed)
            (KeepsPolicy-then (save_marked x machine site marked) end
              (KeepsPolicy-if (not (marked.0 == 0)) (save_registry x machine site marked.1)
                (pass (ok tt)) (save_registry-KeepsPolicy x machine site marked.1) (λ _. refl))
              (λ _. refl))

      finish_revocation-FailsSafe :
          (timestamp : Text) (added : LedgerAdditions) (taken : Value × List Text)
          (before disk : Disk Value)
          → AllDead selected before disk
          → FailsSafe selected before
              (finish_revocation x machine site registry selected timestamp added taken disk)
      finish_revocation-FailsSafe timestamp added taken before disk h =
          let end = finish_revocation x machine site registry selected timestamp added taken disk in
          dead-FailsSafe selected before end (
            subst (λ p. All (Dead p) selected)
              (sym (finish_revocation-KeepsPolicy timestamp added taken disk)) h)

      module _ (timestamp : Text) where
        -- The preparation changes nothing, and gives the update of the policy on the disk.
        abbrev Prepared : Disk Value → Checked RevocationPolicyUpdate × Disk Value → Type 0
        Prepared disk (some (ok update), after) =
            (after ≡ disk)
            × (update
                ≡ update_of disk.policy (add_revocations selected timestamp reason disk.policy))
        Prepared disk (some (err e), after) = after ≡ disk
        Prepared disk (none, after) = after ≡ disk

        prepare-Prepared :
            (disk : Disk Value)
            → Prepared disk
                (prepare_revocation_policy_update x machine selected timestamp reason disk)
        unfolding prepare_revocation_policy_update
        prepare-Prepared disk =
            let goal = Prepared disk in
            let proposed = add_revocations selected timestamp reason disk.policy in
            done_first goal machine.ledger_target _ disk (λ e _. refl)
              (λ _.
                done_first goal machine.read_policy _ disk (λ e _. refl)
                  (λ _.
                    checked_first goal (validate_policy x proposed) _ disk (λ _. refl) (λ e _. refl)
                      (λ _ _.
                        done_first goal machine.ledger_text _ disk (λ e _. refl)
                          (λ _. (refl, refl)))))

        prepared_first :
            (P : Checked RevocationOutcome × Disk Value → Type 0) (disk : Disk Value)
            (r : Checked RevocationPolicyUpdate × Disk Value)
            (next : RevocationPolicyUpdate → Action (Disk Value) RevocationOutcome)
            → Prepared disk r
            → P (none, disk)
            → ((e : Error) → P (some (err e), disk))
            → ((update : RevocationPolicyUpdate)
                → update
                  ≡ update_of disk.policy (add_revocations selected timestamp reason disk.policy)
                → P (next update disk))
            → P (resume r next)
        prepared_first P disk (none, after) next k p q h = subst (λ t. P (none, t)) (sym k) p
        prepared_first P disk (some (err e), after) next k p q h =
            subst (λ t. P (some (err e), t)) (sym k) (q e)
        prepared_first P disk (some (ok update), after) next (k, u) p q h =
            subst (λ t. P (next update t)) (sym k) (h update u)

        -- The write of the ledger and the end of the transaction.
        update_first :
            (before : Disk Value) (update : RevocationPolicyUpdate)
            (content : Option (List RevokedSshKey × List RevokedX509Key))
            (taken : Value × List Text)
            → update
              ≡ update_of before.policy (add_revocations selected timestamp reason before.policy)
            → update.content ≡ content
            → FailsSafe selected before (
                (write_update machine.write_ledger (record update { content = content })
                    >> finish_revocation x machine site registry selected timestamp update.added
                        taken)
                  before)
        unfolding write_update
        update_first before update none taken u e =
            finish_revocation-FailsSafe timestamp update.added taken before before
              (unchanged-Dead selected timestamp reason before.policy (rw u at e))
        update_first before update (some lists) taken u e =
            write_first selected before machine.write_ledger lists
              (finish_revocation x machine site registry selected timestamp update.added taken)
              (written-Dead selected timestamp reason before.policy lists (rw u at e))
              (finish_revocation-FailsSafe timestamp update.added taken before)

      read_config-disk : (disk : Disk Value) → (read_config x machine site disk).1 ≡ disk
      unfolding read_config
      read_config-disk disk =
          done_first (λ (r : Checked Value × Disk Value). r.1 ≡ disk) machine.read_ca_json _ disk
            (λ e _. refl) (λ _. refl)

      -- A revocation fails safe: after a success the ledger holds the certified key of every
      -- selected record, and after a failure it does so too, or neither ca.json nor the registry
      -- has changed.
      pub commit_revocation-FailsSafe :
          (live_enrollments : List (LiveEnrollment Value))
          (remove : Value → Result (Value × List Text)) (disk : Disk Value)
          → FailsSafe selected disk (
              commit_revocation x machine site registry selected live_enrollments reason remove
                disk)
      unfolding commit_revocation
      commit_revocation-FailsSafe live_enrollments remove disk =
          let goal = FailsSafe {A = RevocationOutcome} selected disk in
          let start : NotBegun selected disk disk ⊎ AllDead selected disk disk = inl (refl, refl) in
          done_first goal (require_registry_coverage x selected live_enrollments) _ disk
            (λ e _. start)
            (λ _.
              passed goal machine.now _ disk (λ e _. start)
                (λ timestamp _.
                  prepared_first timestamp goal disk
                    (prepare_revocation_policy_update x machine selected timestamp reason disk) _
                    (prepare-Prepared timestamp disk) (start) (λ e. start)
                    (λ update u.
                      quiet_first goal (read_config x machine site disk) _ disk
                        (read_config-disk disk) (λ _. start) (λ e _. start)
                        (λ config _.
                          passed goal (remove config) _ disk (λ e _. start)
                            (λ taken _.
                              update_first timestamp disk update update.content taken u refl)))))
