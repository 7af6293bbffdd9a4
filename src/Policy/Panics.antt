-- ===== src/Policy/Panics.antt =====
-- No `expect` of `validate` fires: what it looks up was checked before.

pub mod Loops
pub mod Whole
use grafhome_ca.Policy.Validation.{host_names}
use grafhome_ca.Policy.Fields.{
  ensure_contains, reject_root_identity, unique_from-contains, unique_values,
}
use grafhome_ca.Policy.Relations.{
  check_lifetime, check_user, find_provisioner, users_table, Row, check_access, check_accesses,
  check_admin_host, check_admins, check_client, check_clients, check_duration, check_max_ttl,
  check_optional_duration, check_principals, check_provisioner, provisioners_table,
  validate_relations,
}
use grafhome_ca.Policy.Duration.{validate_step_duration}
use grafhome_ca.Policy.Model.{
  Policy, User, is_active, Host, Provisioner, UserClient, UserRemote, find_host,
}
use grafhome_ca.Policy.Duration.Panic.{EndsInside, validate_step_duration_panics}
use grafhome_ca.Base.{
  All, Bool-cases, List, Option, Result, Text, [], arith, contains_text, eq_text, eq_text_iff, err,
  find, inl, inr, map, none, ok, refl, some, true, ◌∷◌, ◌≡◌, ◌≢◌, sym, text, ◌∙◌, Bool, false,
  if◌then◌else◌, All-map,
}
use grafhome_ca.Policy.Checked.{
  ◌>>=◌, ◌>>◌, Checked, accepted, each, expect, lift, >>-accepted, lift-accepted, each-accepted,
}

-- A duration that `split_at` can take apart.
abbrev pub EndsWell : Text → Type 0
EndsWell d = ¬ EndsInside d

abbrev pub OptionEndsWell : Option Text → Type 0
OptionEndsWell none = Unit
OptionEndsWell (some d) = EndsWell d

-- The durations that `validate` reads.
pub record Splittable (policy : Policy) : Type 0 where
  pub users : All (λ u. EndsWell u.cert_ttl) policy.users
  pub provisioners :
      All
        (λ p.
          EndsWell p.default_ttl
          × EndsWell p.max_ttl
          × OptionEndsWell p.renewal_default
          × OptionEndsWell p.renewal_max)
        policy.provisioners
  pub certificates : All (λ c. EndsWell c.ttl) policy.x509_certs

pub >>-some {ℓ} :
    {B : Type ℓ} (m : Checked (Unit {0})) (k : Checked B)
    → m ≢ none
    → (m ≡ accepted → k ≢ none)
    → (m >> k) ≢ none
>>-some none k h f = λ e. h refl
>>-some (some (err e)) k h f = λ e'. cc
>>-some (some (ok tt)) k h f = f refl

pub >>=-some {ℓ κ} :
    {A : Type ℓ} {B : Type κ} (m : Checked A) (f : A → Checked B)
    → m ≢ none
    → ((a : A) → m ≡ some (ok a) → f a ≢ none)
    → (m >>= f) ≢ none
>>=-some none f h k = λ e. h refl
>>=-some (some (err e)) f h k = λ e'. cc
>>=-some (some (ok a)) f h k = k a refl

pub lift-some {ℓ} : {A : Type ℓ} (r : Result A) → lift r ≢ none
lift-some r = λ e. cc

pub each-some {ℓ} :
    {A : Type ℓ} (f : A → Checked (Unit {0})) (xs : List A)
    → All (λ a. f a ≢ none) xs
    → each f xs ≢ none
each-some f [] h = λ e. cc
each-some f (x ∷ xs) (p, h) = >>-some (f x) (each f xs) p (λ _. each-some f xs h)

pub validate_step_duration-some :
    (table row_id field d : Text) → EndsWell d → validate_step_duration table row_id field d ≢ none
validate_step_duration-some table row_id field d h e =
    h ((validate_step_duration_panics table row_id field d).0 e)

module _ {ℓ} {A : Type ℓ} (key : A → Text) (t : Text) where
  pub find-some :
      (xs : List A) → contains_text (map key xs) t ≡ true → find (λ a. eq_text (key a) t) xs ≢ none
  unfolding contains_text
  find-some [] h = cc
  find-some (x ∷ xs) h = elim (Bool-cases (eq_text (key x) t)) [
    | inl e ↦ λ k. ground arith
    | inr e ↦
        let ih = find-some xs (ground (arith, eq_text_iff t (key x), eq_text_iff (key x) t)) in
        λ k. ih (ground arith)
  ]

pub expect-some {ℓ} : {A : Type ℓ} (o : Option A) → o ≢ none → expect o ≢ none
expect-some none h = λ e. h refl
expect-some (some a) h = λ e. cc

pub ensure_contains-accepted :
    (table row_id field value : Text) (allowed : List Text)
    → lift (ensure_contains table row_id field value allowed) ≡ accepted
    → contains_text allowed value ≡ true
unfolding ensure_contains
ensure_contains-accepted table row_id field value allowed h = ground arith

pub validate_duration_or-some :
    (p : Provisioner) (field : Text) (o : Option Text)
    → OptionEndsWell o
    → check_optional_duration p field o ≢ none
unfolding check_duration
validate_duration_or-some p field none h = λ e. cc
validate_duration_or-some p field (some d) h = search validate_step_duration-some

pub if-some {ℓ} :
    {A : Type ℓ} (b : Bool) (m k : Checked A) → m ≢ none → k ≢ none → (if b then m else k) ≢ none
if-some true m k h j = h
if-some false m k h j = j

pub ruleset total = (
  >>-some, >>=-some, lift-some, each-some, if-some, validate_step_duration-some,
  validate_duration_or-some, ensure_contains-accepted,
)

pub each-always {ℓ} :
    {A : Type ℓ} (f : A → Checked (Unit {0})) (xs : List A)
    → ((a : A) → f a ≢ none)
    → each f xs ≢ none
each-always f [] h = λ e. cc
each-always f (x ∷ xs) h = >>-some (f x) (each f xs) (h x) λ _. each-always f xs h
