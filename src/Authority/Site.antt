-- ===== src/Authority/Site.antt =====
-- What a command of the CA knows of its site, and the files that it loads and saves.
use grafhome_ca.Policy.Fields.{ca_policy_field}
use grafhome_ca.Base.{Error, Result, Text, err, none, some, text, ok, validation, List}
use grafhome_ca.Authority.Action.{Action, pass, modify, asks, ◌>>=◌, ◌>>◌}
use grafhome_ca.Authority.Machine.{Disk, Machine}
use grafhome_ca.External.{External}
use grafhome_ca.Policy.Checked.{lift}
use grafhome_ca.Policy.Model.{Policy, endpoint, url}
use grafhome_ca.Registry.Pending.{validate}
use grafhome_ca.Registry.Store.{EnrollmentRegistry}

-- What does not change while a command runs: the paths of ca.json and of the registry, the policy
-- that was loaded before the lock, and the JSON texts.
pub record Site (V : Type 0) : Type 0 where
  pub ca_json_path : Text
  pub registry_path : Text
  pub policy : Policy
  pub from_str : Text → Result V
  pub to_string : V → Text
  pub show : Error → Text
  -- `{:?}`
  pub debug : List Text → Text

unfoldable pub required_endpoint_url : Policy → Text → Result Text
required_endpoint_url policy role = elim (endpoint policy role) [
  | some found ↦ ok (url found)
  | none ↦ err (
      validation (ca_policy_field (text "endpoints") role (text "role"))
        (text "missing required endpoint"))
]

module _ (x : External) (machine : Machine) where
  open x use {Value}

  module _ (site : Site Value) where
    -- `EnrollmentRegistry::load` and `save`
    unfoldable pub load_registry : Action (Disk Value) (EnrollmentRegistry Value)
    load_registry = do
      pass machine.read_registry
      registry ← asks (λ disk. some (ok disk.registry))
      pass (validate x site.registry_path registry)
      asks (λ disk. some (ok registry))

    unfoldable pub save_registry : EnrollmentRegistry Value → Action (Disk Value) (Unit {0})
    save_registry registry = do
      pass (validate x site.registry_path registry)
      pass machine.write_registry.renamed
      modify (λ disk. record disk { registry = registry })
      pass machine.write_registry.synced

    -- `read_json` of ca.json
    unfoldable pub read_config : Action (Disk Value) Value
    read_config = do pass machine.read_ca_json; asks (λ disk. lift (site.from_str disk.ca_json))
