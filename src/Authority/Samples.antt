-- ===== src/Authority/Samples.antt =====
-- A CA host to run the commands on: a machine on which every call succeeds, and a disk.
use grafhome_ca.External.{External}
use grafhome_ca.Base.{[], none, ok, text, ◌∷◌, Text, ◌++◌}
use grafhome_ca.Authority.Machine.{Disk, Machine, Service, Write}
use grafhome_ca.Authority.Site.{Site}
use grafhome_ca.External.Sample.{Json, no_members, sample, string, object, member}
use grafhome_ca.Policy.Samples.{sample_policy}
use grafhome_ca.Registry.Record.{EnrollmentRecord, active, host}
use grafhome_ca.Registry.Store.{EnrollmentRegistry}

-- Every thumbprint is made of the same letter.
abbrev pub digest : Text
digest = text "AAAAAAAAAAAAAAAAAAAAAAAAAAAAAAAAAAAAAAAAAAA"

abbrev pub crates : External
crates = record sample { to_vec = λ value. digest }

abbrev pub service : Service
service = record {
  chown = ok tt;
  chmod = ok tt;
  restart = ok tt;
  is_active = ok tt;
  health = λ attempt. ok tt;
}

abbrev pub write : Write
write = record { renamed = ok tt; synced = ok tt }

abbrev pub machine : Machine
machine = record {
  read_ca_json = ok tt;
  backup = ok tt;
  backup_path = text "ca.json.backup";
  write_ca_json = write;
  step_bin = ok tt;
  activation = service;
  rewrite_ca_json = write;
  restoration = service;
  print_backup = ok tt;
  read_policy = ok tt;
  ledger_target = ok tt;
  ledger_text = ok tt;
  write_ledger = write;
  read_registry = ok tt;
  write_registry = write;
  read_templates = ok tt;
  remove_template = λ name. ok tt;
  print = ok tt;
  now = ok (text "0Z");
}

abbrev pub no_provisioners : Json
no_provisioners = crates.empty_object

abbrev pub site : Site Json
site = record {
  ca_json_path = text "ca.json";
  registry_path = text "registry.json";
  policy = sample_policy;
  from_str = λ content. ok no_provisioners;
  to_string = λ config. text "new";
  show = λ why. text "error";
  debug = λ names. text "names";
}

abbrev pub jwk : Json
jwk = object (
    member (text "x") (string (text "x")) (
      member (text "kty") (string (text "OKP"))
        (member (text "crv") (string (text "c")) no_members)))

abbrev pub enrolled : EnrollmentRecord Json
enrolled =
    host active (text "a") (text "k") (text "k") jwk (text "SHA256:" ++ digest) (text "0Z") none

abbrev pub registry : EnrollmentRegistry Json
registry = record { format_version = 1; records = enrolled ∷ [] }

abbrev pub disk : Disk Json
disk = record {
  ca_json = text "old";
  backup = none;
  policy = sample_policy;
  registry = registry;
  templates = [];
}
