-- ===== src/Authority/Revoke.antt =====
-- `commit_revocation` of the command line and the three revocations that run it. Each stands behind
-- `with_ca_lock`.
use grafhome_ca.Policy.Revoked.{reason}
use grafhome_ca.Policy.Fields.{ca_api}
use grafhome_ca.Base.{
  Bool, List, Option, Result, Text, false, filter, if◌then◌else◌, is_empty, length, none, not, some,
  text, trim, true, ◌==◌, ◌||◌, ok, refuse, ℕ, validation,
}
use grafhome_ca.Authority.Site.{Site, save_registry, read_config, required_endpoint_url}
use grafhome_ca.Authority.Action.{Action, pass, ◌>>=◌, ◌>>◌}
use grafhome_ca.Authority.Coverage.{LiveEnrollment, require_registry_coverage}
use grafhome_ca.Authority.Install.{install_ca_json_with_rollback}
use grafhome_ca.Authority.Ledger.{LedgerAdditions, prepare_revocation_policy_update, write_update}
use grafhome_ca.Authority.Machine.{Disk, Machine}
use grafhome_ca.External.{External}
use grafhome_ca.Registry.Record.{EnrollmentRecord}
use grafhome_ca.Registry.Store.{EnrollmentRegistry, live, mark_revoked}

pub record RevocationOutcome : Type 0 where
  pub newly_revoked : ℕ
  pub ledger_added : LedgerAdditions
  pub removed : List Text

-- `reason.is_some_and(|reason| reason.trim().is_empty())`
blank_reason : Option Text → Bool
blank_reason none = false
blank_reason (some reason) = is_empty (trim reason)

unfoldable pub validate_revocation_reason : Option Text → Result (Unit {0})
unfolding blank_reason
validate_revocation_reason reason =
    refuse (blank_reason reason)
      (validation (text "revoke.reason") (text "reason must not be empty"))

module _ (x : External) (machine : Machine) where
  open x use {Value}

  module _ (site : Site Value) where
    unfoldable pub activate_revocation_ca_update : Text → Bool → Action (Disk Value) (Unit {0})
    activate_revocation_ca_update content false = pass (ok tt)
    activate_revocation_ca_update content true = do
      address ← pass (required_endpoint_url site.policy ca_api)
      install_ca_json_with_rollback site.show machine content (pass (ok tt))

    unfoldable pub save_marked : ℕ × EnrollmentRegistry Value → Action (Disk Value) (Unit {0})
    save_marked (changed, registry) =
        if not (changed == 0) then save_registry x machine site registry else pass (ok tt)

    -- `commit_revocation` behind the write of the ledger.
    unfoldable pub finish_revocation :
        EnrollmentRegistry Value
        → List (EnrollmentRecord Value)
        → Text
        → LedgerAdditions
        → Value × List Text
        → Action (Disk Value) RevocationOutcome
    unfolding activate_revocation_ca_update save_marked
    finish_revocation registry selected timestamp ledger_added (proposed, removed) = do
      let newly_revoked = length (filter live selected)
      activate_revocation_ca_update (site.to_string proposed)
          (not (is_empty removed) || not (newly_revoked == 0))
      save_marked (mark_revoked registry selected timestamp)
      pass (
          ok (record {
            newly_revoked = newly_revoked;
            ledger_added = ledger_added;
            removed = removed;
          }))

    -- `remove` is the removal that gives the new document and the names that it took.
    unfoldable pub commit_revocation :
        EnrollmentRegistry Value
        → List (EnrollmentRecord Value)
        → List (LiveEnrollment Value)
        → Option Text
        → (Value → Result (Value × List Text))
        → Action (Disk Value) RevocationOutcome
    unfolding finish_revocation
    commit_revocation registry selected live_enrollments reason remove = do
      pass (require_registry_coverage x selected live_enrollments)
      timestamp ← pass machine.now
      update ← prepare_revocation_policy_update x machine selected timestamp reason
      config ← read_config x machine site
      taken ← pass (remove config)
      write_update machine.write_ledger update
      finish_revocation registry selected timestamp update.added taken
