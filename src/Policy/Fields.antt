-- ===== src/Policy/Fields.antt =====
-- The diagnostic fields of policy/mod.rs, and its checks on one value or one column.
use grafhome_ca.Registry.Record.{identity}
use grafhome_ca.Base.{
  Text, All-map, Bool-cases, List, Option, Pairwise, Result, [], arith, contains_text, eq_text,
  eq_text_iff, false, if◌then◌else◌, inl, inr, none, ok, some, text, true, ◌++◌, ◌||◌, ◌↔◌, ◌∷◌,
  ◌≡◌, ◌≢◌, All, ensure, err, refuse, validation,
}

abbrev pub ca_policy_path : Text
ca_policy_path = text "policy/ca.toml"

abbrev pub ca_api : Text
ca_api = text "ca_api"

abbrev pub ca_origin : Text
ca_origin = text "ca_origin"

abbrev pub host_bootstrap : Text
host_bootstrap = text "host_bootstrap"

abbrev pub user_enrollment : Text
user_enrollment = text "user_enrollment"

abbrev pub proxy_x509 : Text
proxy_x509 = text "proxy_x509"

abbrev pub unlimited_ttl : Text
unlimited_ttl = text "unlimited"

pub ca_policy_field : Text → Text → Text → Text
ca_policy_field section entry field =
    ca_policy_path ++ (text ":" ++ (section ++ (text "." ++ (entry ++ (text "." ++ field)))))

pub user_policy_field : Text → Text → Text
user_policy_field user field =
    text "policy/users.toml" ++ (text ":users." ++ (user ++ (text "." ++ field)))

pub host_policy_field : Text → Text → Text
host_policy_field host field =
    text "policy/hosts" ++ (text "/" ++ (host ++ (text ".toml:" ++ field)))

unfoldable pub expected_provisioner_type : Text → Option Text
expected_provisioner_type role =
    if eq_text role host_bootstrap || eq_text role user_enrollment
    then some (text "JWK")
    else if eq_text role proxy_x509
    then some (text "ACME")
    else none

-- The loop of `unique_values`; the set holds what was seen.
unfoldable pub unique_from : Text → Text → List Text → List Text → Result (List Text)
unique_from table key seen [] = ok seen
unique_from table key seen (value ∷ values) = elim (contains_text seen value) [
  | true ↦
      err (
        validation (table ++ (text ":" ++ key)) (text "duplicate " ++ (key ++ (text " " ++ value))))
  | false ↦ unique_from table key (value ∷ seen) values
]

unfoldable pub unique_values : Text → List Text → Text → Result (List Text)
unfolding unique_from
unique_values table values key = unique_from table key [] values

unfoldable pub reject_root_identity : Text → Text → Text → Text → Result (Unit {0})
reject_root_identity table row_id field identity = refuse (eq_text identity (text "root")) (
    validation (table ++ (text ":" ++ (row_id ++ (text "." ++ field))))
      (text "root SSH identities are not supported"))

unfoldable pub ensure_contains : Text → Text → Text → Text → List Text → Result (Unit {0})
ensure_contains table row_id field value allowed = ensure (contains_text allowed value) (
    validation (table ++ (text ":" ++ (row_id ++ (text "." ++ field))))
      (text "unknown " ++ (field ++ (text " " ++ value))))

-- No text of the list is in the set, and none stands in the list twice.
abbrev pub Distinct : List Text → List Text → Type 0
Distinct seen values =
    All (λ v. contains_text seen v ≡ false) values × Pairwise (λ v w. v ≢ w) values

contains-cons :
    (seen : List Text) (v w : Text)
    → (contains_text (v ∷ seen) w ≡ false) ↔ ((contains_text seen w ≡ false) × (v ≢ w))
unfolding contains_text
contains-cons seen v w = ground (arith, eq_text_iff w v)

pub Distinct-cons :
    (seen : List Text) (v : Text) (vs : List Text)
    → contains_text seen v ≡ false
    → Distinct (v ∷ seen) vs
    → Distinct seen (v ∷ vs)
Distinct-cons seen v vs e (fresh, apart) = (
  (e, All-map (λ w k. ((contains-cons seen v w).0 k).0) vs fresh),
  (All-map (λ w k. ((contains-cons seen v w).0 k).1) vs fresh, apart),
)

-- What `unique_values` accepts.
pub unique_from-ok :
    (table key : Text) (seen values result : List Text)
    → unique_from table key seen values ≡ ok result
    → Distinct seen values
unfolding unique_from
unique_from-ok table key seen [] result h = (tt, tt)
unique_from-ok table key seen (v ∷ vs) result h = elim (Bool-cases (contains_text seen v)) [
  | inl e ↦ cc (rw (e, unique_from) at h)
  | inr e ↦
      Distinct-cons seen v vs e
        (unique_from-ok table key (v ∷ seen) vs result (rw (e, unique_from) at h))
]

-- The set afterwards holds what it held and the values.
pub unique_from-contains :
    (table key : Text) (seen values result : List Text) (w : Text)
    → unique_from table key seen values ≡ ok result
    → contains_text result w ≡ (contains_text seen w || contains_text values w)
unfolding unique_from contains_text
unique_from-contains table key seen [] result w h = ground arith
unique_from-contains table key seen (v ∷ vs) result w h = elim (Bool-cases (contains_text seen v)) [
  | inl e ↦ cc (rw (e, unique_from) at h)
  | inr e ↦
      let ih = unique_from-contains table key (v ∷ seen) vs result w (rw (e, unique_from) at h) in
      ground arith
]
