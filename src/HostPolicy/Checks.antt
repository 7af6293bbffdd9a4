-- ===== src/HostPolicy/Checks.antt =====
-- `validate_and_reload_ssh` of the command line, by the answers of its commands.
use grafhome_ca.Base.{◌>>◌, Bool, if◌then◌else◌, ok, ◌&&◌}
use grafhome_ca.Authority.Machine.{Answer}

pub record Checks : Type 0 where
  pub user_krl : Answer
  pub sshd : Answer
  pub host_krl : Answer
  pub ssh : Answer
  pub reload : Answer

abbrev pub only_if : Bool → Answer → Answer
only_if test answer = if test then answer else ok tt

-- `has_server` and `has_client` tell whether the two configurations are there to be checked.
unfoldable pub run_checks : Checks → Bool → Bool → Bool → Bool → Answer
run_checks checks validate_managed_krls reload_server has_server has_client = do
  only_if reload_server
      (only_if (validate_managed_krls && has_server) checks.user_krl >> checks.sshd)
  only_if has_client (only_if validate_managed_krls checks.host_krl >> checks.ssh)
  only_if reload_server checks.reload
