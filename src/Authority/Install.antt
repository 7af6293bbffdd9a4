-- ===== src/Authority/Install.antt =====
-- `install_ca_json_with_rollback` of the command line.
use grafhome_ca.Authority.Action.{Action, pass, modify, asks, ◌>>=◌, ◌>>◌}
use grafhome_ca.Base.{Error, Text, none, ok, text, ◌++◌, some, err, validation}
use grafhome_ca.Authority.Machine.{Write, Disk, Machine}
use grafhome_ca.Authority.Health.{activate_service, install_ca_json_permissions, restart_service}
use grafhome_ca.Policy.Checked.{Checked}

module _ (show : Error → Text) where
  module _ {V : Type 0} (machine : Machine) where
    -- `write_secret_file_atomic`, which can fail behind its rename.
    unfoldable pub write_ca_json : Write → Text → Action (Disk V) (Unit {0})
    write_ca_json write content = do
      pass write.renamed
      modify (λ disk. record disk { ca_json = content })
      pass write.synced

    -- The closure `rollback`.
    unfoldable pub restore : Text → Action (Disk V) (Unit {0})
    unfolding write_ca_json install_ca_json_permissions restart_service
    restore previous = do
      write_ca_json machine.rewrite_ca_json previous
      pass (install_ca_json_permissions machine.restoration)
      pass (restart_service machine.restoration)

    module _ {A : Type 0} where
      -- The error after an attempt to roll back.
      unfoldable pub report : Error → Checked (Unit {0}) × Disk V → Checked A × Disk V
      report e (none, disk) = (none, disk)
      report e (some (ok _), disk) = (
        some (
            err (
              validation (text "CA update")
                (show e ++ (text "; restored previous ca.json from " ++ machine.backup_path)))),
        disk,
      )
      report e (some (err why), disk) = (
        some (
            err (
              validation (text "CA update") (
                show e
                ++ (text "; rollback failed after writing backup "
                    ++ (machine.backup_path ++ (text ": " ++ show why)))))),
        disk,
      )

      -- `match result`
      unfoldable pub or_restore : Text → Checked A × Disk V → Checked A × Disk V
      unfolding restore report
      or_restore previous (none, disk) = (none, disk)
      or_restore previous (some (ok a), disk) = (some (ok a), disk)
      or_restore previous (some (err e), disk) = report e (restore previous disk)

      unfoldable pub install_ca_json_with_rollback : Text → Action (Disk V) A → Action (Disk V) A
      unfolding activate_service or_restore write_ca_json
      install_ca_json_with_rollback content after_activate = do
        pass machine.read_ca_json
        previous ← asks (λ disk. some (ok disk.ca_json))
        pass machine.backup
        modify (λ disk. record disk { backup = some previous })
        write_ca_json machine.write_ca_json content
        pass machine.step_bin
        value ← λ disk.
            or_restore previous
              ((pass (activate_service show machine.activation) >> after_activate) disk)
        pass machine.print_backup
        pass (ok value)
