-- ===== src/Authority/Ledger.antt =====
-- The tracked ledger of revoked keys: what the command line adds to it, and how it keeps a revoked
-- key from being enrolled again.
use grafhome_ca.Policy.Checked.{lift}
use grafhome_ca.External.{External}
use grafhome_ca.Base.{
  Bool, Option, Text, [], eq_text, false, if◌then◌else◌, length, none, not, ok, some, true, ◌&&◌,
  ◌++◌, ◌-◌, ◌==◌, ◌∷◌, List, any, ℕ,
}
use grafhome_ca.Authority.Action.{Action, pass, modify, asks, checked, ◌>>=◌, ◌>>◌}
use grafhome_ca.Authority.Machine.{Disk, Machine, Write}
use grafhome_ca.Authority.Dead.{refuse_revoked}
use grafhome_ca.Policy.Model.{Policy}
use grafhome_ca.Policy.Revoked.{RevokedSshKey, RevokedX509Key, is_user, fingerprint, reason}
use grafhome_ca.Policy.Validation.{validate_policy}
use grafhome_ca.Registry.Record.{EnrollmentRecord, Revocation, ssh, x509_key, to_revocation}

pub record LedgerAdditions : Type 0 where
  pub ssh : ℕ
  pub x509 : ℕ

-- `content` is the two lists of the text that is written.
pub record RevocationPolicyUpdate : Type 0 where
  pub content : Option (List RevokedSshKey × List RevokedX509Key)
  pub added : LedgerAdditions

unfoldable pub additions_empty : LedgerAdditions → Bool
additions_empty a = a.ssh == 0 && a.x509 == 0

abbrev pub same_bool : Bool → Bool → Bool
same_bool true b = b
same_bool false b = not b

-- The pair of an entry is in `seen_ssh`, which holds the pairs of the list.
unfoldable pub seen_ssh : RevokedSshKey → List RevokedSshKey → Bool
seen_ssh entry entries =
    any (λ e. same_bool (is_user e) (is_user entry) && eq_text (fingerprint e) (fingerprint entry))
      entries

unfoldable pub seen_x509 : RevokedX509Key → List RevokedX509Key → Bool
seen_x509 entry entries =
    any (λ e. eq_text e.public_key_fingerprint entry.public_key_fingerprint) entries

-- The body of the loop over the records.
unfoldable pub add_revocation : Policy → Revocation → Policy
unfolding seen_ssh seen_x509
add_revocation policy (ssh entry) =
    if seen_ssh entry policy.revoked_ssh_keys
    then policy
    else record policy { revoked_ssh_keys = policy.revoked_ssh_keys ++ entry ∷ [] }
add_revocation policy (x509_key entry) =
    if seen_x509 entry policy.revoked_x509_keys
    then policy
    else record policy { revoked_x509_keys = policy.revoked_x509_keys ++ entry ∷ [] }

abbrev added_to : Policy → Policy → LedgerAdditions
added_to before after = record {
  ssh = length after.revoked_ssh_keys - length before.revoked_ssh_keys;
  x509 = length after.revoked_x509_keys - length before.revoked_x509_keys;
}

unfoldable pub update_of : Policy → Policy → RevocationPolicyUpdate
unfolding additions_empty
update_of before after = record {
  content =
      if additions_empty (added_to before after)
      then none
      else some (after.revoked_ssh_keys, after.revoked_x509_keys);
  added = added_to before after;
}

module _ {V : Type 0} where
  unfoldable pub add_revocations : List (EnrollmentRecord V) → Text → Option Text → Policy → Policy
  unfolding add_revocation
  add_revocations [] revoked_at reason policy = policy
  add_revocations (r ∷ rs) revoked_at reason policy =
      add_revocations rs revoked_at reason
        (add_revocation policy (to_revocation r revoked_at reason))

  module _ (x : External) (machine : Machine) where
    unfoldable pub prepare_revocation_policy_update :
        List (EnrollmentRecord V) → Text → Option Text → Action (Disk V) RevocationPolicyUpdate
    unfolding add_revocations update_of
    prepare_revocation_policy_update records revoked_at reason = do
      pass machine.ledger_target
      pass machine.read_policy
      policy ← asks (λ disk. some (ok disk.policy))
      let proposed = add_revocations records revoked_at reason policy
      checked (validate_policy x proposed)
      pass machine.ledger_text
      asks (λ disk. some (ok (update_of policy proposed)))

  -- The ledger on disk holds the two lists.
  abbrev pub store_ledger : List RevokedSshKey × List RevokedX509Key → Disk V → Disk V
  store_ledger (ssh_keys, x509_keys) disk = record disk {
    policy = record disk.policy { revoked_ssh_keys = ssh_keys; revoked_x509_keys = x509_keys };
  }

  -- `RevocationPolicyUpdate::write`
  unfoldable pub write_update : Write → RevocationPolicyUpdate → Action (Disk V) (Unit {0})
  write_update write update = elim update.content [
    | none ↦ pass (ok tt)
    | some lists ↦ pass write.renamed >> (modify (store_ledger lists) >> pass write.synced)
  ]

  unfoldable pub ensure_enrollment_keys_not_revoked :
      Machine → EnrollmentRecord V → Action (Disk V) (Unit {0})
  unfolding refuse_revoked
  ensure_enrollment_keys_not_revoked machine candidate =
      pass machine.read_policy >> asks (λ disk. lift (refuse_revoked candidate disk.policy))
