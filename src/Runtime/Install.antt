-- ===== src/Runtime/Install.antt =====
-- How runtime_provisioners.rs puts provisioners into the running CA.
use grafhome_ca.Runtime.Claims.{reconcile_enrollment_options, reconcile_provisioner_claims}
use grafhome_ca.Runtime.Live.{provisioners_field}
use grafhome_ca.Runtime.Removal.{is_text}
use grafhome_ca.Keys.{get_str}
use grafhome_ca.External.{External}
use grafhome_ca.Base.{
  Bool, List, Option, Result, Text, [], false, if◌then◌else◌, none, ok, suc, text, true, zero, ◌++◌,
  ◌+◌, ◌∷◌, ℕ, err, ok_or, some, ensure, validation,
}
use grafhome_ca.Policy.Model.{Provisioner}
use grafhome_ca.Policy.Checked.{◌>>=◌, ◌>>◌, Checked, lift, expect}

-- The indices of the items that pass the test, counted from the number.
unfoldable pub indices_from {ℓ} : {A : Type ℓ} → (A → Bool) → ℕ → List A → List ℕ
indices_from test index [] = []
indices_from test index (a ∷ rest) =
    let later = indices_from test (index + 1) rest in if test a then index ∷ later else later

-- `items[index]`; `none` is the panic.
unfoldable pub item_at {ℓ} : {A : Type ℓ} → List A → ℕ → Option A
item_at [] index = none
item_at (a ∷ rest) zero = some a
item_at (a ∷ rest) (suc index) = item_at rest index

-- `items[index] = a`
unfoldable pub put_at {ℓ} : {A : Type ℓ} → List A → ℕ → A → List A
put_at [] index b = []
put_at (a ∷ rest) zero b = b ∷ rest
put_at (a ∷ rest) (suc index) b = a ∷ put_at rest index b

module _ (x : External) where
  open x use {Value, value_eq, is_object, get, string}

  -- `item.get("name").and_then(Value::as_str) == Some(name)`
  abbrev pub is_named : Text → Value → Bool
  is_named name v = is_text name (get_str x v (text "name"))

  -- The equality of two `Option<&Value>`
  abbrev pub same_value : Option Value → Option Value → Bool
  same_value none none = true
  same_value (some v) (some w) = value_eq v w
  same_value none (some w) = false
  same_value (some v) none = false

  unfoldable pub upsert_at : Text → Text → List Value → Value → List ℕ → Checked (List Value)
  upsert_at path name items desired [] = some (ok (items ++ desired ∷ []))
  upsert_at path name items desired (index ∷ []) = expect (item_at items index) >>= λ existing.
      lift (
        ensure (same_value (get existing (text "key")) (get desired (text "key"))) (
          validation (provisioners_field path)
            (text "provisioner " ++ (name ++ text " already exists with a different public key"))))
      >>= λ _. some (ok (put_at items index desired))
  upsert_at path name items desired (index ∷ other ∷ more) = some (
      err (
        validation (provisioners_field path)
          (text "provisioner " ++ (name ++ text " appears more than once"))))

  unfoldable pub upsert_renewal_provisioner : Text → List Value → Value → Checked (List Value)
  unfolding upsert_at
  upsert_renewal_provisioner path items desired =
      lift (
        ok_or (get_str x desired (text "name")) (
          validation (provisioners_field path)
            (text "desired renewal provisioner must have a string name")))
      >>= λ name. upsert_at path name items desired (indices_from (is_named name) 0 items)

  -- The one index that is left of the matches.
  unfoldable pub required_index : Text → Text → List ℕ → Result ℕ
  required_index path name [] = err (
      validation (provisioners_field path)
        (text "required live provisioner " ++ (name ++ text " is missing")))
  required_index path name (index ∷ []) = ok index
  required_index path name (index ∷ other ∷ more) = err (
      validation (provisioners_field path)
        (text "provisioner " ++ (name ++ text " appears more than once")))

  unfoldable pub reconcile_required_provisioner :
      Text → List Value → Provisioner → List (Text × Value) → Checked (List Value)
  unfolding required_index
  reconcile_required_provisioner path items p desired = do
    index ← lift (required_index path p.name (indices_from (is_named p.name) 0 items))
    found ← expect (item_at items index)
    lift (
        ensure (is_text p.provisioner_type (get_str x found (text "type"))) (
          validation (provisioners_field path)
            (text "provisioner " ++ (p.name ++ (text " must have type " ++ p.provisioner_type)))))
    lift (
        ensure (elim (get found (text "key")) [ none ↦ false | some key ↦ is_object key ])
          (validation (provisioners_field path)
            (text "provisioner " ++ (p.name ++ text " key must be an object"))))
    (claimed, _) ← lift (reconcile_provisioner_claims x found p.name desired path)
    (bound, _) ← lift (reconcile_enrollment_options x claimed p path)
    some (ok (put_at items index bound))
