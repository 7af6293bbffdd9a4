-- ===== src/HostPolicy/Apply.antt =====
-- The changes of `ssh apply`, their application and the rollback.
use grafhome_ca.Policy.Fields.{host_policy_field}
use grafhome_ca.Base.{
  Bool, Error, List, Option, Result, Text, [], false, if◌then◌else◌, none, ok, text, true, ◌&&◌,
  ◌++◌, ◌∷◌, err, some, map, validation,
}
use grafhome_ca.Authority.Action.{Action, pass, asks, modify, checked, ◌>>=◌, ◌>>◌}
use grafhome_ca.Authority.Machine.{Answer}
use grafhome_ca.HostPolicy.Checks.{Checks, run_checks}
use grafhome_ca.HostPolicy.Store.{
  Files, HostPolicyFile, FilePath, file_at, path_set, put_file, drop_file, same_file,
}
use grafhome_ca.Policy.Checked.{Checked, expect}
use grafhome_ca.Policy.Model.{Host, Policy, find_host, has_ssh_role, ssh_client, ssh_server}

pub data HostPolicyChange : Type 0 where
  create update remove : HostPolicyChange

-- `install_target` has been applied to the directories.
pub record Settings : Type 0 where
  pub policy : Policy
  pub trust_dir : FilePath
  pub ssh_system_dir : FilePath

-- What the system answers: to the inspection of a file, where a missing one is no error, to the
-- writes and removals of the application and of the rollback, and to the checks of both.
pub record Machine : Type 0 where
  pub inspect : FilePath → Answer
  pub principals : Result (List FilePath)
  pub write : FilePath → Answer
  pub unlink : FilePath → Answer
  pub first : Checks
  pub rewrite : FilePath → Answer
  pub reunlink : FilePath → Answer
  pub second : Checks
  pub print : Answer

unfoldable pub required_host : Policy → Text → Result Host
required_host policy host = elim (find_host policy host) [
  | some found ↦ ok found
  | none ↦ err (validation (host_policy_field host (text "host")) (text "unknown host"))
]

abbrev pub Changes : Type 0
Changes = List (FilePath × HostPolicyChange)

abbrev pub Previous : Type 0
Previous = List (FilePath × Option HostPolicyFile)

-- One path of the loop of `host_policy_changes`.
unfoldable pub change_of : Option HostPolicyFile → Option HostPolicyFile → Option HostPolicyChange
unfolding same_file
change_of none (some wanted) = some create
change_of (some found) (some wanted) = if same_file found wanted then none else some update
change_of (some found) none = some remove
change_of none none = none

unfoldable pub add_change : FilePath → Option HostPolicyChange → Changes → Changes
add_change path none changes = changes
add_change path (some change) changes = (path, change) ∷ changes

abbrev pub is_present : Option HostPolicyFile → Bool
is_present none = false
is_present (some file) = true

module _ (show : Error → Text) (settings : Settings) (machine : Machine) where
  open settings use {policy, trust_dir, ssh_system_dir}

  abbrev pub server_config : FilePath
  server_config = ssh_system_dir ++ text "sshd_config.d" ∷ text "grafhome-ca.conf" ∷ []

  abbrev pub client_config : FilePath
  client_config = ssh_system_dir ++ text "ssh_config.d" ∷ text "grafhome-ca.conf" ∷ []

  unfoldable pub host_policy_managed_paths : Files → Result (List FilePath)
  host_policy_managed_paths desired = elim machine.principals [
    | err e ↦ err e
    | ok entries ↦ ok (
        path_set (
          map (λ f. f.0) desired
          ++ (server_config
              ∷ client_config
              ∷ (trust_dir ++ text "user_ca_keys.pem" ∷ [])
              ∷ (trust_dir ++ text "revoked_user_certs" ∷ [])
              ∷ (trust_dir ++ text "revoked_host_keys" ∷ [])
              ∷ (trust_dir ++ text "ssh_known_hosts" ∷ [])
              ∷ entries)))
  ]

  unfoldable pub read_host_policy_file : FilePath → Action Files (Option HostPolicyFile)
  read_host_policy_file path =
      pass (machine.inspect path) >> asks (λ files. some (ok (file_at path files)))

  -- The loop over the managed paths, which stand in order.
  unfoldable pub changes_at : Files → List FilePath → Action Files Changes
  unfolding read_host_policy_file change_of add_change
  changes_at desired [] = pass (ok [])
  changes_at desired (path ∷ paths) = do
    found ← read_host_policy_file path
    changes ← changes_at desired paths
    pass (ok (add_change path (change_of found (file_at path desired)) changes))

  unfoldable pub host_policy_changes : Files → Action Files Changes
  unfolding host_policy_managed_paths changes_at
  host_policy_changes desired = do
    managed ← pass (host_policy_managed_paths desired)
    changes_at desired managed

  unfoldable pub validate_and_reload_ssh : Checks → Text → Bool → Bool → Action Files (Unit {0})
  unfolding required_host run_checks
  validate_and_reload_ssh checks host_name validate_managed_krls reload_server = do
    host ← pass (required_host policy host_name)
    has_server ← asks (λ files. some (ok (is_present (file_at server_config files))))
    has_client ← asks (λ files. some (ok (is_present (file_at client_config files))))
    pass (
        run_checks checks validate_managed_krls reload_server has_server
          (has_ssh_role host ssh_client && has_client))

  -- The two sides of the `match` in the application.
  unfoldable pub write_desired : Files → FilePath → Action Files (Unit {0})
  write_desired desired path = do
    file ← checked (expect (file_at path desired))
    pass (machine.write path)
    modify (put_file path file)

  unfoldable pub remove_host_policy_file : Answer → FilePath → Action Files (Unit {0})
  remove_host_policy_file answer path = pass answer >> modify (drop_file path)

  unfoldable pub apply_change : Files → FilePath → HostPolicyChange → Action Files (Unit {0})
  unfolding write_desired remove_host_policy_file
  apply_change desired path create = write_desired desired path
  apply_change desired path update = write_desired desired path
  apply_change desired path remove = remove_host_policy_file (machine.unlink path) path

  unfoldable pub apply_changes : Files → Changes → Action Files (Unit {0})
  unfolding apply_change
  apply_changes desired [] = pass (ok tt)
  apply_changes desired ((path, change) ∷ changes) =
      apply_change desired path change >> apply_changes desired changes

  unfoldable pub read_previous : Changes → Action Files Previous
  unfolding read_host_policy_file
  read_previous [] = pass (ok [])
  read_previous ((path, change) ∷ changes) = do
    file ← read_host_policy_file path
    previous ← read_previous changes
    pass (ok ((path, file) ∷ previous))

  unfoldable pub restore_file : FilePath → Option HostPolicyFile → Action Files (Unit {0})
  unfolding remove_host_policy_file
  restore_file path (some file) = pass (machine.rewrite path) >> modify (put_file path file)
  restore_file path none = remove_host_policy_file (machine.reunlink path) path

  unfoldable pub restore_host_policy_files : Previous → Action Files (Unit {0})
  unfolding restore_file
  restore_host_policy_files [] = pass (ok tt)
  restore_host_policy_files ((path, file) ∷ previous) =
      restore_file path file >> restore_host_policy_files previous

  -- The error after the rollback.
  unfoldable pub report_rollback : Error → Checked (Unit {0}) × Files → Checked (Unit {0}) × Files
  report_rollback e (none, files) = (none, files)
  report_rollback e (some (ok _), files) = (
    some (
        err (validation (text "ssh apply") (show e ++ text "; restored the previous host policy"))),
    files,
  )
  report_rollback e (some (err why), files) = (
    some (err (validation (text "ssh apply") (show e ++ (text "; rollback failed: " ++ show why)))),
    files,
  )

  -- `if let Err(error) = apply`
  unfoldable pub or_roll_back :
      Text → Bool → Previous → Checked (Unit {0}) × Files → Checked (Unit {0}) × Files
  unfolding restore_host_policy_files validate_and_reload_ssh report_rollback
  or_roll_back host_name reload_server previous (none, files) = (none, files)
  or_roll_back host_name reload_server previous (some (ok _), files) = (some (ok tt), files)
  or_roll_back host_name reload_server previous (some (err e), files) = report_rollback e (
      (restore_host_policy_files previous
          >> validate_and_reload_ssh machine.second host_name false reload_server)
        files)

  unfoldable pub print_unless : Bool → Action Files (Unit {0})
  print_unless true = pass (ok tt)
  print_unless false = pass machine.print

  -- Behind the list of changes.
  unfoldable pub apply_listed :
      Text → Files → Bool → Bool → Bool → Changes → Action Files (Unit {0})
  unfolding read_previous apply_changes or_roll_back print_unless
  apply_listed host_name desired quiet validate_when_current reload_server [] =
      (if validate_when_current
        then validate_and_reload_ssh machine.first host_name true reload_server
        else pass (ok tt))
      >> print_unless quiet
  apply_listed host_name desired quiet validate_when_current reload_server (c ∷ cs) =
      read_previous (c ∷ cs) >>= λ previous.
      (λ files. or_roll_back host_name reload_server previous (
        (apply_changes desired (c ∷ cs)
            >> validate_and_reload_ssh machine.first host_name true reload_server)
          files))
      >> print_unless quiet

  -- A server reloads, and so does a host that still has the configuration of one.
  unfoldable pub must_reload : Host → Action Files Bool
  must_reload host =
      if has_ssh_role host ssh_server
      then pass (ok true)
      else (read_host_policy_file server_config >>= λ file. pass (ok (is_present file)))

  unfoldable pub apply_host_policy_locked : Text → Files → Bool → Bool → Action Files (Unit {0})
  unfolding must_reload host_policy_changes apply_listed
  apply_host_policy_locked host_name desired quiet validate_when_current = do
    host ← pass (required_host policy host_name)
    reload_server ← must_reload host
    changes ← host_policy_changes desired
    apply_listed host_name desired quiet validate_when_current reload_server changes
