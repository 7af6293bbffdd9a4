-- ===== src/HostPolicy/Tests.antt =====
-- The application of a host policy at a small host.
use grafhome_ca.HostPolicy.Restored.{Restores}
use grafhome_ca.Policy.Model.{find_host}
use grafhome_ca.Base.{
  List, eq_text, eq_texts, text_leb, Error, Text, [], err, ok, refl, some, text, validation, ◌∷◌,
  ◌≡◌, true, false,
}
use grafhome_ca.HostPolicy.AllOrNothing.{apply_host_policy_locked-Restores}
use grafhome_ca.HostPolicy.Success.{Converges, apply_host_policy_locked-Converges}
use grafhome_ca.HostPolicy.Apply.{
  host_policy_managed_paths, Machine, Settings, apply_host_policy_locked,
}
use grafhome_ca.HostPolicy.Checks.{Checks}
use grafhome_ca.HostPolicy.Store.{path_set, put_file, Files, HostPolicyFile, file_at, FilePath}
use grafhome_ca.Policy.Samples.{sample_policy}

abbrev passing : Checks
passing = record { user_krl = ok tt; sshd = ok tt; host_krl = ok tt; ssh = ok tt; reload = ok tt }

abbrev failing : Checks
failing = record passing { sshd = err (validation (text "sshd") (text "bad configuration")) }

abbrev machine : Machine
machine = record {
  inspect = λ path. ok tt;
  principals = ok [];
  write = λ path. ok tt;
  unlink = λ path. ok tt;
  first = failing;
  rewrite = λ path. ok tt;
  reunlink = λ path. ok tt;
  second = passing;
  print = ok tt;
}

abbrev settings : Settings
settings = record {
  policy = sample_policy;
  trust_dir = text "trust" ∷ [];
  ssh_system_dir = text "ssh" ∷ [];
}

abbrev server_path : FilePath
server_path = text "ssh" ∷ text "sshd_config.d" ∷ text "grafhome-ca.conf" ∷ []

abbrev keys_path : FilePath
keys_path = text "trust" ∷ text "user_ca_keys.pem" ∷ []

abbrev file : HostPolicyFile
file = record { mode = 420; content = text "new" }

abbrev old : HostPolicyFile
old = record { mode = 420; content = text "old" }

abbrev present : Files
present = (server_path, old) ∷ []

abbrev desired : Files
desired = (keys_path, file) ∷ []

abbrev show : Error → Text
show e = text "error"

apply_host_policy_locked-Restores_example :
    Restores present
      (apply_host_policy_locked show settings machine (text "a") desired false true present)
apply_host_policy_locked-Restores_example =
    apply_host_policy_locked-Restores show settings machine (λ path. refl) (λ path. refl) refl
      (text "a") desired false true present

-- The server configuration is to go, the key file to come, and sshd refuses.
refused_run :
    apply_host_policy_locked show settings machine (text "a") desired false true present ≡ (
      some (err (validation (text "ssh apply") (text "error; restored the previous host policy"))),
      present,
    )
unfolding apply_host_policy_locked find_host eq_text text path_set eq_texts text_leb file_at
    put_file
refused_run = refl

abbrev calm : Machine
calm = record machine { first = passing }

abbrev managed : List FilePath
managed = path_set (
    keys_path
    ∷ server_path
    ∷ (text "ssh" ∷ text "ssh_config.d" ∷ text "grafhome-ca.conf" ∷ [])
    ∷ keys_path
    ∷ (text "trust" ∷ text "revoked_user_certs" ∷ [])
    ∷ (text "trust" ∷ text "revoked_host_keys" ∷ [])
    ∷ (text "trust" ∷ text "ssh_known_hosts" ∷ [])
    ∷ [])

managed_listed : host_policy_managed_paths show settings calm desired ≡ ok managed
unfolding host_policy_managed_paths
managed_listed = refl

apply_host_policy_locked-Converges_example :
    Converges show settings calm desired managed present
      (apply_host_policy_locked show settings calm (text "a") desired false true present)
apply_host_policy_locked-Converges_example =
    apply_host_policy_locked-Converges show settings calm desired (text "a") false true managed
      present managed_listed
