-- ===== src/Runtime/Installed.antt =====
-- What `upsert_renewal_provisioner` leaves behind.
use grafhome_ca.Policy.Panics.{>>=-some, lift-some}
use grafhome_ca.Runtime.Install.{
  is_named, same_value, indices_from, upsert_at, item_at, upsert_renewal_provisioner,
}
use grafhome_ca.Keys.{get_str}
use grafhome_ca.Runtime.Sole.{
  Sole, filter-rest, filter-sole, indices_from-none, indices_from-Sole, item_at-Sole, put_at-Sole,
}
use grafhome_ca.External.{External}
use grafhome_ca.Base.{
  All-map, List, Text, [], eq_text_refl, false, not, some, text, true, ◌++◌, ◌∷◌, ◌≡◌, All, filter,
  ℕ, ap, arith, ok, sym, ◌∙◌, All-append, ensure, none, ◌≢◌, Option-cases, inl, inr, ok_or, refl,
}
use mathlib.Core.Path.{subst}
use mathlib.Core.List.{append-nil}
use grafhome_ca.Policy.Checked.{>>=-accepted, expect, lift}

module _ (x : External) where
  open x use {Value, get}

  -- The provisioner stands alone under its name, the others are as before, and who had the name
  -- had the same key.
  pub record Installed (name : Text) (desired : Value) (items items' : List Value) : Type 0 where
    pub sole : filter (is_named x name) items' ≡ desired ∷ []
    pub kept :
        filter (λ v. not (is_named x name v)) items' ≡ filter (λ v. not (is_named x name v)) items
    pub same_key :
        All
          (λ v.
            is_named x name v ≡ true
            → same_value x (get v (text "key")) (get desired (text "key")) ≡ true)
          items

  module _ (path name : Text) (desired : Value)
      (own : get_str x desired (text "name") ≡ some name) where
    named : is_named x name desired ≡ true
    named = rw own (eq_text_refl name)

    appended :
        (items : List Value)
        → All (λ v. is_named x name v ≡ false) items
        → Installed name desired items (items ++ desired ∷ [])
    appended items h =
        let p = is_named x name in
        record {
          sole = filter-sole p items [] desired named h tt;
          kept = filter-rest p items [] desired named ∙ append-nil (filter (λ v. not (p v)) items);
          same_key = All-map (λ v a b. cc) items h;
        }

    replaced :
        (items : List Value) (index : ℕ) (s : Sole (is_named x name) items index)
        → same_value x (get s.sole (text "key")) (get desired (text "key")) ≡ true
        → Installed name desired items (s.front ++ desired ∷ s.back)
    replaced items index s h =
        let p = is_named x name in
        let Same : Value → Type 0 =
          λ v. p v ≡ true → same_value x (get v (text "key")) (get desired (text "key")) ≡ true in
        record {
          sole = filter-sole p s.front s.back desired named s.none_before s.none_behind;
          kept =
              filter-rest p s.front s.back desired named
              ∙ (sym (filter-rest p s.front s.back s.sole s.passes)
                  ∙ ap (filter (λ v. not (p v))) (sym s.parts));
          same_key = subst (All Same) (sym s.parts) (
              All-append Same s.front (s.sole ∷ s.back)
                (All-map (λ v a b. cc) s.front s.none_before)
                (λ _. h, All-map (λ v a b. cc) s.back s.none_behind));
        }

    upsert_at-Installed :
        (items items' : List Value) (indices : List ℕ)
        → indices_from (is_named x name) 0 items ≡ indices
        → upsert_at x path name items desired indices ≡ some (ok items')
        → Installed name desired items items'
    unfolding upsert_at
    upsert_at-Installed items items' [] e h =
        let k : items ++ desired ∷ [] ≡ items' = ground arith in
        subst (Installed name desired items) k
          (appended items (indices_from-none (is_named x name) 0 items e))
    upsert_at-Installed items items' (index ∷ []) e h =
        let s = indices_from-Sole (is_named x name) items index e in
        let (found, at, h1) = >>=-accepted (expect (item_at items index)) _ h in
        let (_, agree, h2) =
          >>=-accepted
            (lift (ensure (same_value x (get found (text "key")) (get desired (text "key"))) _)) _
            h1 in
        let at_sole = item_at-Sole s in
        let put = put_at-Sole s desired in
        let same : found ≡ s.sole = ground arith in
        let key : same_value x (get s.sole (text "key")) (get desired (text "key")) ≡ true =
          ground arith in
        let result : s.front ++ desired ∷ s.back ≡ items' = ground arith in
        subst (Installed name desired items) result (replaced items index s key)
    upsert_at-Installed items items' (index ∷ _ ∷ _) e h = cc

    upsert_at-some :
        (items : List Value) (indices : List ℕ)
        → indices_from (is_named x name) 0 items ≡ indices
        → upsert_at x path name items desired indices ≢ none
    unfolding upsert_at
    upsert_at-some items [] e = λ k. cc
    upsert_at-some items (index ∷ []) e =
        let at_sole = item_at-Sole (indices_from-Sole (is_named x name) items index e) in
        let there : expect (item_at items index) ≢ none = rw at_sole (λ k. cc) in
        search (>>=-some, lift-some)
    upsert_at-some items (index ∷ _ ∷ _) e = λ k. cc

  -- An installed renewal provisioner is the only one of its name, every provisioner of another name
  -- is as before and in order, and one that had the name before had the same key.
  pub upsert_renewal_provisioner-Installed :
      (path : Text) (items : List Value) (desired : Value) (items' : List Value)
      → upsert_renewal_provisioner x path items desired ≡ some (ok items')
      → (name : Text) × (get_str x desired (text "name") ≡ some name)
        × Installed name desired items items'
  unfolding upsert_renewal_provisioner
  upsert_renewal_provisioner-Installed path items desired items' h =
      let (name, e, k) = >>=-accepted (lift (ok_or (get_str x desired (text "name")) _)) _ h in
      let own : get_str x desired (text "name") ≡ some name = ground arith in
      (
        name,
        own,
        upsert_at-Installed path name desired own items items'
            (indices_from (is_named x name) 0 items) refl k,
      )

  -- The index that the search finds is never out of range.
  pub upsert_renewal_provisioner-some :
      (path : Text) (items : List Value) (desired : Value)
      → upsert_renewal_provisioner x path items desired ≢ none
  unfolding upsert_renewal_provisioner
  upsert_renewal_provisioner-some path items desired =
      elim (Option-cases (get_str x desired (text "name"))) [
        | inl e ↦ rw e (λ k. cc)
        | inr (name, e) ↦
            rw e (
              upsert_at-some path name desired e items (indices_from (is_named x name) 0 items)
                refl)
      ]
