-- ===== src/Authority/Machine.antt =====
-- The files that the CA side changes, and what the machine answers to each system call and command.
use grafhome_ca.Base.{List, Result, Text, Option, ℕ}
use grafhome_ca.Policy.Model.{Policy}
use grafhome_ca.Registry.Store.{EnrollmentRegistry}

abbrev pub Answer : Type 0
Answer = Result (Unit {0})

-- `ca_json` is the content of config/ca.json, `policy` the tracked policy files, and `templates`
-- the names of the files `<name>.tpl` in templates/ssh.
pub record Disk (V : Type 0) : Type 0 where
  pub ca_json : Text
  -- the last backup that was written
  pub backup : Option Text
  pub policy : Policy
  pub registry : EnrollmentRegistry V
  pub templates : List Text

-- What the commands of one activation of step-ca answer.
pub record Service : Type 0 where
  pub chown : Answer
  pub chmod : Answer
  pub restart : Answer
  pub is_active : Answer
  -- each attempt at `step ca health`
  pub health : ℕ → Answer

-- A file that is written by a temporary file and a rename: the step up to the rename, and the
-- synchronisation behind it.
pub record Write : Type 0 where
  pub renamed : Answer
  pub synced : Answer

pub record Machine : Type 0 where
  pub read_ca_json : Answer
  pub backup : Answer
  -- the text of the name of the backup
  pub backup_path : Text
  pub write_ca_json : Write
  -- `root_step_bin`
  pub step_bin : Answer
  pub activation : Service
  pub rewrite_ca_json : Write
  pub restoration : Service
  -- the line that names the backup
  pub print_backup : Answer
  pub read_policy : Answer
  -- the ledger is a regular file, and its new text can be made
  pub ledger_target : Answer
  pub ledger_text : Answer
  pub write_ledger : Write
  pub read_registry : Answer
  pub write_registry : Write
  pub read_templates : Answer
  -- the removal of one template; a missing file is no error
  pub remove_template : Text → Answer
  pub print : Answer
  -- `now_utc`
  pub now : Result Text
