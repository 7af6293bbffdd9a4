-- ===== src/Executable/Tests.antt =====
-- The theorem on programs at a small file system.

use grafhome_ca.Base.{
  [], eq_text, eq_texts, false, if◌then◌else◌, none, ok, refl, text, true, ◌∷◌, ◌≡◌, ◌++◌,
}
use grafhome_ca.Executable.Safe.{IsTrusted, root_step_bin-IsTrusted}
use grafhome_ca.Executable.{
  FileSystem, Place, ancestors, directories_are_trusted, directory_is_trusted, file_is_trusted,
  find_boundary, first_trusted, found_at, is_beneath, not_found, owner_is_trusted, root_step_bin,
  take_while, trusted_executable, trusted_executable_for_uid_beneath, trusted_lookup, trusted_place,
  writable_by_others, path_candidates_in,
}

abbrev usr_bin_step : Place
usr_bin_step = text "step" ∷ text "bin" ∷ text "usr" ∷ []

-- Everything belongs to root, with mode 0755; every path but one is missing.
abbrev file_system : FileSystem
file_system = record {
  canonicalize =
      λ path. if eq_text path (text "/usr/bin/step") then found_at usr_bin_step else not_found;
  metadata = λ place. ok (record {
    uid = 0;
    mode = 493;
    is_regular = eq_texts place usr_bin_step;
    is_directory = true;
  });
  join = λ directory name. directory ++ (text "/" ++ name);
  is_file = λ path. false;
  lossy = λ place. text "/usr/bin/step";
}

resolved : root_step_bin file_system 1000 none (text "/opt/step") [] [] ≡ ok (text "/usr/bin/step")
unfolding root_step_bin path_candidates_in first_trusted trusted_executable
    trusted_executable_for_uid_beneath trusted_lookup find_boundary trusted_place
    directories_are_trusted file_is_trusted directory_is_trusted owner_is_trusted writable_by_others
    ancestors take_while is_beneath eq_texts text eq_text
resolved = refl

root_step_bin-IsTrusted_example :
    (p : Place) × (file_system.lossy p ≡ text "/usr/bin/step") × IsTrusted file_system 1000 none p
root_step_bin-IsTrusted_example =
    root_step_bin-IsTrusted file_system 1000 none (text "/opt/step") [] [] (text "/usr/bin/step")
      resolved
