-- ===== src/Registry/Saving.antt =====
-- Every operation keeps the registry one that `validate` accepts, so what was loaded can be saved.
use grafhome_ca.Registry.Places.{timestamp_anywhere}
use grafhome_ca.Registry.Pending.{
  validate, validate_at, validate_names, validate_revoked_at, validate_timestamp,
}
use grafhome_ca.External.{External}
use grafhome_ca.Registry.Store.{
  EnrollmentRegistry, activate, activate_first, check_candidate, live, live_match, mark_revoked,
  reserve, revoke_records, shares_key,
}
use grafhome_ca.Registry.Record.{
  EnrollmentRecord, active, identity, key_fingerprint, set_status, renewal_fingerprint,
}
use grafhome_ca.Base.{
  ◌≡◌, >>-eq-ok, All, All-append, All-map, Bool, Bool-cases, List, Option-cases, Pairwise-snoc,
  Text, [], any, any-eq-false, ap, arith, eq_text_iff, false, inl, inr, none, ok, text, true, ◌++◌,
  ◌∙◌, ◌∷◌, ◌≢◌,
}
use grafhome_ca.Registry.Evolution.{
  key-set_status, renewal-set_status, identity-set_status, activate_first-Grows, mark_revoked-Grows,
  activate_next,
}
use grafhome_ca.Registry.Preservation.{
  Pairwise-Grows, length-activate_first, length-revoke_records, activate_first-none, IsValid-active,
  All-activate_first, All-revoke_records,
}
use grafhome_ca.Registry.Consistency.{Apart, IsValid, IsConsistent, validate_iff}
use grafhome_ca.Registry.Naming.{identity_tells}
use grafhome_ca.Registry.Admission.{Compatible, check_candidate-Compatible}

module _ (x : External) where
  open x use {Value}

  -- A candidate that may stand beside a record, without being its successor.
  record Newcomer (c r : EnrollmentRecord Value) : Type 0 where
    own_key : key_fingerprint r ≢ key_fingerprint c
    own_renewal : renewal_fingerprint r ≢ renewal_fingerprint c
    own_identity : live r ≡ true → identity r ≢ identity c

  newcomer :
      (c r : EnrollmentRecord Value)
      → IsValid x c
      → IsValid x r
      → Compatible c r
      → live_match c r ≡ false
      → Newcomer c r
  unfolding shares_key live_match validate_at
  newcomer c r v w m n = record {
    own_key = λ e. ground (arith, eq_text_iff (key_fingerprint r) (key_fingerprint c));
    own_renewal = λ e. ground (arith, eq_text_iff (renewal_fingerprint r) (renewal_fingerprint c));
    own_identity = λ l e.
        let same =
          identity_tells x r c (>>-eq-ok (validate_names x [] r) _ w).0
            (>>-eq-ok (validate_names x [] c) _ v).0 e in
        ground arith;
  }

  newcomers :
      (c : EnrollmentRecord Value) (rs : List (EnrollmentRecord Value))
      → IsValid x c
      → All (IsValid x) rs
      → All (Compatible c) rs
      → All (λ r. live_match c r ≡ false) rs
      → All (Newcomer c) rs
  newcomers c [] v ws ms ns = tt
  newcomers c (r ∷ rs) v (w, ws) (m, ms) (n, ns) = (newcomer c r v w m n, newcomers c rs v ws ms ns)

  Newcomer-Apart : (c r : EnrollmentRecord Value) → Newcomer c r → Apart r c
  Newcomer-Apart c r n = record {
    keys = n.own_key;
    renewals = n.own_renewal;
    identities = λ l _. n.own_identity l;
  }

  Newcomer-set_status :
      (c r : EnrollmentRecord Value) → Newcomer c r → Apart r (set_status c active none)
  Newcomer-set_status c r n = record {
    keys = λ e. n.own_key (cc (e, key-set_status c active none));
    renewals = λ e. n.own_renewal (cc (e, renewal-set_status c active none));
    identities = λ l _ e. n.own_identity l (cc (e, identity-set_status c active none));
  }

  -- A valid record put behind the others.
  snoc-IsConsistent :
      (self next : EnrollmentRegistry Value) (c : EnrollmentRecord Value)
      → IsConsistent x self
      → IsValid x c
      → All (λ r. Apart r c) self.records
      → next.format_version ≡ self.format_version
      → next.records ≡ self.records ++ c ∷ []
      → IsConsistent x next
  snoc-IsConsistent self next c k v a f e = record {
    current = f ∙ k.current;
    valid = rw e (All-append (IsValid x) self.records (c ∷ []) k.valid (v, tt));
    apart = rw e (Pairwise-snoc Apart self.records c k.apart a);
  }

  -- A reservation of a valid candidate leaves a registry that `validate` accepts one that it
  -- accepts.
  pub reserve-validate :
      (path : Text) (self next : EnrollmentRegistry Value) (c : EnrollmentRecord Value) (b : Bool)
      → validate x path self ≡ ok tt
      → validate_at x [] c ≡ ok tt
      → reserve self c ≡ ok (b, next)
      → validate x path next ≡ ok tt
  unfolding reserve
  reserve-validate path self next c b k v h =
      let before = (validate_iff x path self).0 k in
      let (checked, h') = >>-eq-ok (check_candidate self c) _ h in
      elim (Bool-cases (any (live_match c) self.records)) [
        | inl e ↦ let same : next ≡ self = ground arith in rw same k
        | inr e ↦
            let grown : next ≡ record self { records = self.records ++ c ∷ [] } = ground arith in
            (validate_iff x path next).1 (
              snoc-IsConsistent self next c before v
                (All-map (λ r. Newcomer-Apart c r) self.records
                  (newcomers c self.records v before.valid
                    ((check_candidate-Compatible self c).0 checked)
                    (any-eq-false (live_match c) self.records e)))
                (ap (λ t. t.format_version) grown) (ap (λ t. t.records) grown))
      ]

  -- The version stays.
  activate_version :
      (self next : EnrollmentRegistry Value) (c : EnrollmentRecord Value) (b : Bool)
      → activate self c ≡ ok (b, next)
      → next.format_version ≡ self.format_version
  unfolding activate
  activate_version self next c b h =
      let (_, h') = >>-eq-ok (check_candidate self c) _ h in
      elim (Option-cases (activate_first c self.records)) [
        | inl e ↦ ground arith
        | inr ((b', rs), e) ↦ ground arith
      ]

  activate_checked :
      (self next : EnrollmentRegistry Value) (c : EnrollmentRecord Value) (b : Bool)
      → activate self c ≡ ok (b, next)
      → All (Compatible c) self.records
  unfolding activate
  activate_checked self next c b h =
      (check_candidate-Compatible self c).0 (>>-eq-ok (check_candidate self c) _ h).0

  -- An activation of a valid candidate leaves a registry that `validate` accepts one that it
  -- accepts.
  pub activate-validate :
      (path : Text) (self next : EnrollmentRegistry Value) (c : EnrollmentRecord Value) (b : Bool)
      → validate x path self ≡ ok tt
      → validate_at x [] c ≡ ok tt
      → activate self c ≡ ok (b, next)
      → validate x path next ≡ ok tt
  activate-validate path self next c b k v h =
      let before = (validate_iff x path self).0 k in
      let version = activate_version self next c b h in
      (validate_iff x path next).1 elim (activate_next self next c b h) [
        | inl e ↦ record {
          current = version ∙ before.current;
          valid = All-activate_first x c self.records next.records b e before.valid;
          apart =
              Pairwise-Grows self.records next.records
                (activate_first-Grows c self.records next.records b e)
                (length-activate_first c self.records next.records b e) before.apart;
        }
        | inr (e, grown) ↦
            snoc-IsConsistent self next (set_status c active none) before (IsValid-active x c v)
              (All-map (λ r. Newcomer-set_status c r) self.records
                (newcomers c self.records v before.valid (activate_checked self next c b h)
                  (activate_first-none c self.records e)))
              version grown
      ]

  -- A revocation at a time that a record may carry leaves a registry that `validate` accepts one
  -- that it accepts.
  pub mark_revoked-validate :
      (path : Text) (self : EnrollmentRegistry Value) (selected : List (EnrollmentRecord Value))
      (now : Text)
      → validate x path self ≡ ok tt
      → validate_timestamp x (text "revoked_at") now ≡ ok tt
      → validate x path (mark_revoked self selected now).1 ≡ ok tt
  unfolding mark_revoked validate_revoked_at
  mark_revoked-validate path self selected now k d =
      let before = (validate_iff x path self).0 k in
      (validate_iff x path (mark_revoked self selected now).1).1 (record {
        current = before.current;
        valid =
            All-revoke_records x selected now (timestamp_anywhere x _ _ now d) self.records
              before.valid;
        apart =
            Pairwise-Grows self.records (revoke_records selected now self.records).1
              (mark_revoked-Grows self selected now)
              (length-revoke_records selected now self.records) before.apart;
      })
