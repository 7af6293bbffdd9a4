-- ===== src/HostPolicy/Ends.antt =====
-- The steps around the changes of a host policy, none of which panics.
use grafhome_ca.Authority.Action.{Action, pass, resume}
use grafhome_ca.Authority.Machine.{Answer}
use grafhome_ca.Authority.Outcomes.{done_first, passed}
use grafhome_ca.Base.{
  ◌&&◌, Bool, Bool-cases, Error, Option, Result, Text, [], err, inl, inr, none, ok, some, ◌∷◌, ◌≡◌,
}
use grafhome_ca.HostPolicy.Apply.{
  client_config, is_present, Machine, Previous, Settings, must_reload, read_host_policy_file,
  remove_host_policy_file, required_host, restore_file, restore_host_policy_files, server_config,
  validate_and_reload_ssh,
}
use grafhome_ca.HostPolicy.Checks.{Checks, run_checks}
use grafhome_ca.HostPolicy.Store.{Files, FilePath, HostPolicyFile, file_at}
use grafhome_ca.Policy.Checked.{Checked}
use grafhome_ca.Policy.Model.{Host, has_ssh_role, ssh_client, ssh_server}

module _ {A : Type 0} where
  -- Not a panic.
  abbrev pub Ends : Checked A × Files → Type 0
  Ends (none, files) = ⊥
  Ends (some r, files) = Unit

  pub Ends-some : (r : Checked A × Files) → Ends r → r.0 ≡ none → ⊥
  Ends-some (none, files) h k = h
  Ends-some (some r, files) h k = cc (k)

  Ends-pass : (r : Result A) (now : Files) → Ends (pass r now)
  Ends-pass (err e) now = tt
  Ends-pass (ok a) now = tt

module _ {A B : Type 0} where
  pub Ends-then :
      (r : Checked A × Files) (next : A → Action Files B)
      → Ends r
      → ((a : A) (now : Files) → Ends (next a now))
      → Ends (resume r next)
  Ends-then (none, now) next h k = h
  Ends-then (some (err e), now) next h k = tt
  Ends-then (some (ok a), now) next h k = k a now

module _ (show : Error → Text) (settings : Settings) (machine : Machine) where
  abbrev pub ran : Checks → Bool → Bool → Host → Files → Answer
  ran checks krls reload_server host files =
      run_checks checks krls reload_server
        (is_present (file_at (server_config show settings machine) files))
        (has_ssh_role host ssh_client
          && is_present (file_at (client_config show settings machine) files))

  pub validate_and_reload_ssh-Ends :
      (checks : Checks) (host_name : Text) (krls reload_server : Bool) (files : Files)
      → Ends
          (validate_and_reload_ssh show settings machine checks host_name krls reload_server files)
  unfolding validate_and_reload_ssh
  validate_and_reload_ssh-Ends checks host_name krls reload_server files =
      passed Ends (required_host settings.policy host_name) _ files (λ e _. tt)
        (λ host _. Ends-pass (ran checks krls reload_server host files) files)

  read_host_policy_file-Ends :
      (path : FilePath) (files : Files)
      → Ends (read_host_policy_file show settings machine path files)
  unfolding read_host_policy_file
  read_host_policy_file-Ends path files =
      done_first Ends (machine.inspect path) _ files (λ e _. tt) (λ _. tt)

  pub must_reload-Ends :
      (host : Host) (files : Files) → Ends (must_reload show settings machine host files)
  unfolding must_reload
  must_reload-Ends host files = elim (Bool-cases (has_ssh_role host ssh_server)) [
    | inl h ↦ rw h tt
    | inr h ↦ rw h (
        Ends-then
          (read_host_policy_file show settings machine (server_config show settings machine) files)
          _ (read_host_policy_file-Ends (server_config show settings machine) files) (λ _ _. tt))
  ]

  restore_file-Ends :
      (path : FilePath) (o : Option HostPolicyFile) (files : Files)
      → Ends (restore_file show settings machine path o files)
  unfolding restore_file remove_host_policy_file
  restore_file-Ends path none files =
      done_first Ends (machine.reunlink path) _ files (λ e _. tt) (λ _. tt)
  restore_file-Ends path (some file) files =
      done_first Ends (machine.rewrite path) _ files (λ e _. tt) (λ _. tt)

  pub restore_host_policy_files-Ends :
      (previous : Previous) (files : Files)
      → Ends (restore_host_policy_files show settings machine previous files)
  unfolding restore_host_policy_files
  restore_host_policy_files-Ends [] files = tt
  restore_host_policy_files-Ends ((path, o) ∷ previous) files =
      Ends-then (restore_file show settings machine path o files) _ (restore_file-Ends path o files)
        (λ _. restore_host_policy_files-Ends previous)
