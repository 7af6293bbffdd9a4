-- ===== src/Runtime/Merged.antt =====
-- What `reconcile_object` leaves behind: the desired members, and all others as they were.
use mathlib.Core.Path.{subst}
use grafhome_ca.Runtime.Claims.{is_value, reconcile_object}
use grafhome_ca.Runtime.Live.{get-inserted}
use grafhome_ca.External.{External}
use grafhome_ca.Base.{
  All, Bool-cases, List, Pairwise, Text, [], eq_text, false, inl, inr, refl, some, true, ◌∙◌, ◌∷◌,
  ◌≡◌, ap, Bool, sym,
}

module _ (x : External) where
  open x use {Value, value_eq_refl, is_object, get, insert, get-insert, is_object-insert}

  -- The keys of a map differ.
  abbrev pub Keyed : List (Text × Value) → Type 0
  Keyed = Pairwise (λ m n. eq_text n.0 m.0 ≡ false)

  -- The object has the member.
  abbrev pub Holds : Value → Text × Value → Type 0
  Holds o m = is_value x m.1 (get o m.0) ≡ true

  step-held :
      (o : Value) (m : Text × Value) (rest : List (Text × Value))
      → Holds o m
      → reconcile_object x o (m ∷ rest) ≡ reconcile_object x o rest
  unfolding reconcile_object
  step-held o (key, value) rest e = rw (e, reconcile_object) refl

  step-new :
      (o : Value) (key : Text) (value : Value) (rest : List (Text × Value))
      → is_value x value (get o key) ≡ false
      → reconcile_object x o ((key, value) ∷ rest)
        ≡ ((reconcile_object x (insert o key value) rest).0, true)
  unfolding reconcile_object
  step-new o key value rest e = rw (e, reconcile_object) refl

  kept-other :
      (o : Value) (desired : List (Text × Value)) (j : Text)
      → is_object o ≡ true
      → All (λ m. eq_text m.0 j ≡ false) desired
      → get (reconcile_object x o desired).0 j ≡ get o j
  unfolding reconcile_object
  kept-other o [] j h k = refl
  kept-other o ((key, value) ∷ rest) j h (a, k) = elim (Bool-cases (is_value x value (get o key))) [
    | inl e ↦ ap (λ r. get r.0 j) (step-held o (key, value) rest e) ∙ kept-other o rest j h k
    | inr e ↦
        let next = insert o key value in
        let moved : get next j ≡ get o j = get-insert o key value j h ∙ rw a refl in
        ap (λ r. get r.0 j) (step-new o key value rest e)
        ∙ (kept-other next rest j (is_object-insert o key value h) k ∙ moved)
  ]

  held :
      (o : Value) (desired : List (Text × Value))
      → is_object o ≡ true
      → Keyed desired
      → All (Holds (reconcile_object x o desired).0) desired
  held o [] h k = tt
  held o ((key, value) ∷ rest) h (a, k) =
      let P : Value × Bool → Type 0 = λ r. All (Holds r.0) ((key, value) ∷ rest) in
      elim (Bool-cases (is_value x value (get o key))) [
        | inl e ↦
            subst P (sym (step-held o (key, value) rest e))
              (ap (is_value x value) (kept-other o rest key h a) ∙ e, held o rest h k)
        | inr e ↦
            let next = insert o key value in
            let h' = is_object-insert o key value h in
            let here : get next key ≡ some value = get-inserted x o key value h in
            subst P (sym (step-new o key value rest e)) (
              ap (is_value x value) (kept-other next rest key h' a ∙ here) ∙ value_eq_refl value,
              held next rest h' k,
            )
      ]

  unchanged :
      (o : Value) (desired : List (Text × Value))
      → All (Holds o) desired
      → reconcile_object x o desired ≡ (o, false)
  unfolding reconcile_object
  unchanged o [] h = refl
  unchanged o ((key, value) ∷ rest) (a, h) = step-held o (key, value) rest a ∙ unchanged o rest h

  -- On an object, and with desired members whose keys differ, the reconciled object has every
  -- desired member, and any other key as before.
  pub reconcile_object-Holds :
      (o : Value) (desired : List (Text × Value)) (j : Text)
      → is_object o ≡ true
      → Keyed desired
      → All (λ m. eq_text m.0 j ≡ false) desired
      → All (Holds (reconcile_object x o desired).0) desired
        × (get (reconcile_object x o desired).0 j ≡ get o j)
  reconcile_object-Holds o desired j h k a = (held o desired h k, kept-other o desired j h a)

  -- On an object, and with desired members whose keys differ, a second reconciliation changes
  -- nothing and says so.
  pub reconcile_object_settles :
      (o : Value) (desired : List (Text × Value))
      → is_object o ≡ true
      → Keyed desired
      → reconcile_object x (reconcile_object x o desired).0 desired
        ≡ ((reconcile_object x o desired).0, false)
  reconcile_object_settles o desired h k =
      unchanged (reconcile_object x o desired).0 desired (held o desired h k)
