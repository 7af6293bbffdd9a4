-- ===== src/Registry/Store.antt =====
-- `EnrollmentRegistry` of enrollment_registry.rs and the operations that read and change it.
use grafhome_ca.Base.{
  ℕ, ◌+◌, Bool, true, false, not, ◌&&◌, ◌||◌, Option, none, some, List, [], ◌∷◌, ◌++◌,
  if◌then◌else◌, any, find, filter, Text, text, eq_text, Result, ok, err, validation, ◌>>◌,
}
use grafhome_ca.Registry.Record.{
  RecordStatus, active, revoked, is_live, is_active, EnrollmentRecord, identity, status,
  key_fingerprint, key_kind, renewal_fingerprint, belongs_to_host, matches_user, matches_x509,
  same_identity, same_keys, set_status,
}

abbrev pub format_version_now : ℕ
format_version_now = 1

pub record EnrollmentRegistry (V : Type 0) : Type 0 where
  pub format_version : ℕ
  pub records : List (EnrollmentRecord V)

module _ {V : Type 0} where
  -- `Default::default`
  abbrev pub empty_registry : EnrollmentRegistry V
  empty_registry = record { format_version = format_version_now; records = [] }

  unfoldable pub live : EnrollmentRecord V → Bool
  live r = is_live (status r)

  -- One key of `record` is one of `candidate`.
  unfoldable pub shares_key : EnrollmentRecord V → EnrollmentRecord V → Bool
  shares_key candidate r =
      eq_text (key_fingerprint r) (key_fingerprint candidate)
      || eq_text (renewal_fingerprint r) (renewal_fingerprint candidate)

  -- What is wrong with `candidate` beside one record; `none` lets the loop go on.
  unfoldable pub objection : EnrollmentRecord V → EnrollmentRecord V → Option Text
  unfolding live shares_key
  objection candidate r =
      if not (live r) && shares_key candidate r
      then some (
          identity candidate
          ++ (text " reuses a previously revoked "
              ++ (key_kind candidate ++ text " or renewal key")))
      else if live r && same_identity r candidate
      then (if same_keys r candidate
          then none
          else some (
              identity candidate
              ++ text
                  " already has a different active key pair; revoke it before enrolling replacement keys"))
      else if live r && shares_key candidate r
      then some (
          identity candidate
          ++ (text " reuses the "
              ++ (key_kind candidate
                  ++ (text " or renewal key already assigned to " ++ identity r))))
      else none

  -- The loop of `check_candidate`.
  unfoldable pub check_records : EnrollmentRecord V → List (EnrollmentRecord V) → Result (Unit {0})
  check_records candidate [] = ok tt
  check_records candidate (r ∷ rs) = elim (objection candidate r) [
    | none ↦ check_records candidate rs
    | some message ↦ err (validation (text "enrollment registry") message)
  ]

  unfoldable pub check_candidate : EnrollmentRegistry V → EnrollmentRecord V → Result (Unit {0})
  unfolding check_records
  check_candidate self candidate = check_records candidate self.records

  -- The test by which `reserve` and `activate` look for a record.
  unfoldable pub live_match : EnrollmentRecord V → EnrollmentRecord V → Bool
  unfolding live
  live_match candidate r = live r && same_identity r candidate

  -- `&mut self` comes back beside the result.
  unfoldable pub reserve :
      EnrollmentRegistry V → EnrollmentRecord V → Result (Bool × EnrollmentRegistry V)
  reserve self candidate = do
    check_candidate self candidate
    if any (live_match candidate) self.records
        then ok (false, self)
        else ok (true, record self { records = self.records ++ candidate ∷ [] })

  unfoldable pub matching_status : EnrollmentRegistry V → EnrollmentRecord V → Option RecordStatus
  unfolding live_match
  matching_status self candidate =
      elim (find (λ r. live_match candidate r && same_keys r candidate) self.records) [
        | none ↦ none
        | some r ↦ some (status r)
      ]

  -- `find` with `iter_mut`: the first live record of the identity is made active in place.
  -- `none` if there is none; the flag says whether it changed.
  unfoldable pub activate_first :
      EnrollmentRecord V → List (EnrollmentRecord V) → Option (Bool × List (EnrollmentRecord V))
  activate_first candidate [] = none
  activate_first candidate (r ∷ rs) =
      let rest = activate_first candidate rs in
      if live_match candidate r
      then (if is_active (status r)
          then some (false, r ∷ rs)
          else some (true, set_status r active none ∷ rs))
      else elim rest [ none ↦ none | some (changed, rs') ↦ some (changed, r ∷ rs') ]

  unfoldable pub activate :
      EnrollmentRegistry V → EnrollmentRecord V → Result (Bool × EnrollmentRegistry V)
  activate self candidate = do
    check_candidate self candidate
    elim (activate_first candidate self.records) [
      | some (changed, rs) ↦ ok (changed, record self { records = rs })
      | none ↦
          ok (true, record self { records = self.records ++ set_status candidate active none ∷ [] })
    ]

  unfoldable pub live_for_host : EnrollmentRegistry V → Text → List (EnrollmentRecord V)
  unfolding live
  live_for_host self h = filter (λ r. live r && belongs_to_host r h) self.records

  unfoldable pub records_for_host : EnrollmentRegistry V → Text → List (EnrollmentRecord V)
  records_for_host self h = filter (λ r. belongs_to_host r h) self.records

  unfoldable pub live_for_user :
      EnrollmentRegistry V → Text → Option Text → List (EnrollmentRecord V)
  unfolding live
  live_for_user self u h = filter (λ r. live r && matches_user r u h) self.records

  unfoldable pub records_for_user :
      EnrollmentRegistry V → Text → Option Text → List (EnrollmentRecord V)
  records_for_user self u h = filter (λ r. matches_user r u h) self.records

  unfoldable pub records_for_x509 : EnrollmentRegistry V → Text → Text → List (EnrollmentRecord V)
  records_for_x509 self h n = filter (λ r. matches_x509 r h n) self.records

  -- The set of key pairs that `mark_revoked` collects, as a test.
  unfoldable pub selected_pair : List (EnrollmentRecord V) → EnrollmentRecord V → Bool
  selected_pair selected r = any (λ s. same_keys s r) selected

  unfoldable pub revoke_step :
      List (EnrollmentRecord V) → Text → EnrollmentRecord V → EnrollmentRecord V
  revoke_step selected now r =
      if live r && selected_pair selected r then set_status r revoked (some now) else r

  -- The loop of `mark_revoked`, with its count.
  unfoldable pub revoke_records :
      List (EnrollmentRecord V) → Text → List (EnrollmentRecord V) → ℕ × List (EnrollmentRecord V)
  revoke_records selected now [] = (0, [])
  revoke_records selected now (r ∷ rs) =
      let (n, rs') = revoke_records selected now rs in
      (if live r && selected_pair selected r then n + 1 else n, revoke_step selected now r ∷ rs')

  unfoldable pub mark_revoked :
      EnrollmentRegistry V → List (EnrollmentRecord V) → Text → ℕ × EnrollmentRegistry V
  unfolding revoke_records
  mark_revoked self selected now =
      let (changed, rs) = revoke_records selected now self.records in
      (changed, record self { records = rs })
