-- ===== src/Runtime/Live.antt =====
-- `provisioners_mut` and `provisioner_names` of runtime_provisioners.rs.
use grafhome_ca.Base.{◌>>=◌, Option-cases, eq_text_refl, inl, inr, refl, true, ◌≡◌, arith}
-- `{path}:authority.provisioners`

use grafhome_ca.Keys.{get_str}
use grafhome_ca.Base.{
  List, Result, Text, [], none, some, text, validation, ◌++◌, ◌>>=◌, ◌∷◌, ok, ok_or,
}
use grafhome_ca.External.{External}

abbrev pub provisioners_field : Text → Text
provisioners_field path = path ++ text ":authority.provisioners"

module _ (x : External) where
  open x use {Value, get, insert, array, as_array}

  -- `pointer("/authority/provisioners")` and `as_array`
  unfoldable pub live_provisioners : Text → Value → Result (List Value)
  live_provisioners path config =
      ok_or
        (elim (get config (text "authority")) [
          | none ↦ none
          | some authority ↦ elim (get authority (text "provisioners")) [
            | none ↦ none
            | some value ↦ as_array value
          ]
        ])
        (validation (provisioners_field path) (text "expected provisioners array"))

  -- The document after the array that `provisioners_mut` lends was changed.
  unfoldable pub with_provisioners : Value → List Value → Value
  with_provisioners config items = elim (get config (text "authority")) [
    | none ↦ config
    | some authority ↦
        insert config (text "authority") (insert authority (text "provisioners") (array items))
  ]

  unfoldable pub provisioner_names : Text → Value → Result (List Text)
  provisioner_names path config = do items ← live_provisioners path config; ok (names_of items)
    where
      names_of : List Value → List Text
      names_of [] = []
      names_of (item ∷ items) = elim (get_str x item (text "name")) [
        | none ↦ names_of items
        | some name ↦ name ∷ names_of items
      ]

  open x use {is_object, get-is_object, get-insert, is_object-insert, as_array-array}

  pub get-inserted :
      (o : Value) (k : Text) (v : Value) → is_object o ≡ true → get (insert o k v) k ≡ some v
  get-inserted o k v h = rw (get-insert o k v k h, eq_text_refl k) refl

  live-written :
      (path : Text) (config authority old : Value) (items new : List Value)
      → get config (text "authority") ≡ some authority
      → get authority (text "provisioners") ≡ some old
      → live_provisioners path (with_provisioners config new) ≡ ok new
  unfolding live_provisioners with_provisioners
  live-written path config authority old items new a b =
      let below = insert authority (text "provisioners") (array new) in
      let outer =
        get-inserted config (text "authority") below
          (get-is_object config (text "authority") authority a) in
      let inner =
        get-inserted authority (text "provisioners") (array new)
          (get-is_object authority (text "provisioners") old b) in
      let listed = as_array-array new in ground arith

  -- What was written is read.
  pub live-with_provisioners :
      (path : Text) (config : Value) (items new : List Value)
      → live_provisioners path config ≡ ok items
      → live_provisioners path (with_provisioners config new) ≡ ok new
  unfolding live_provisioners
  live-with_provisioners path config items new h =
      elim (Option-cases (get config (text "authority"))) [
        | inl e ↦ cc (rw (e, live_provisioners) at h)
        | inr (authority, a) ↦ elim (Option-cases (get authority (text "provisioners"))) [
          | inl e ↦ cc (rw (a, e, live_provisioners) at h)
          | inr (old, b) ↦ live-written path config authority old items new a b
        ]
      ]
