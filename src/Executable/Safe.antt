-- ===== src/Executable/Safe.antt =====
-- What a program that executable.rs returns is protected from.
use grafhome_ca.Executable.Guarded.{
  trusted_place-IsSafe, IsInside-add, IsInside, not-false, or-false, IsSafe,
}
use grafhome_ca.Executable.{
  FileSystem, Place, is_beneath, trusted_place, Lookup, failed, find_boundary, first_trusted,
  found_at, not_found, trusted_executable, trusted_executable_for_uid_beneath, trusted_lookup,
  root_step_bin, user_step_bin_in, candidates, path_candidates_in,
}
use grafhome_ca.Base.{
  ◌>>=◌, subst, eq_texts_sound, eq_texts, >>=-eq-ok, Bool-cases, List, Option, [], inl, inr, ok,
  some, true, ◌∷◌, ◌≡◌, ℕ, Bool, Option-cases, Result, Text, ap, arith, false, if◌then◌else◌, none,
  not, ◌∙◌, Error, err, ok-injective, text, refl, ◌||◌,
}

module _ (fs : FileSystem) (uid : ℕ) where
  open fs use {metadata, canonicalize, lossy}

  module _ (boundary : Option Text) where
    -- The boundary is a canonical path that the place lies beneath, or none is given.
    abbrev pub Bounds : Option Text → Option Place → Place → Type 0
    Bounds none none p = Unit
    Bounds (some b) (some root) p = (canonicalize b ≡ found_at root) × IsInside fs uid (some root) p
    Bounds _ _ p = ⊥

    -- Safe up to the boundary, and up to the root where no boundary is given.
    abbrev pub IsTrusted : Place → Type 0
    IsTrusted p = (root : Option Place) × Bounds boundary root p × IsSafe fs uid root p

    is_beneath-IsInside :
        (root d : Place) → is_beneath root d ≡ true → IsInside fs uid (some root) d
    unfolding is_beneath
    is_beneath-IsInside root [] h = ([], eq_texts_sound root [] h)
    is_beneath-IsInside root (c ∷ d) h = elim (Bool-cases (eq_texts root (c ∷ d))) [
      | inl e ↦ ([], eq_texts_sound root (c ∷ d) e)
      | inr e ↦ IsInside-add fs uid (some root) c d (is_beneath-IsInside root d (rw e at h))
    ]

    Bounds-chosen :
        (place r : Place) (b : Text) (root : Option Place) (test : Bool)
        → (test ≡ false → IsInside fs uid (some r) place)
        → canonicalize b ≡ found_at r
        → ◌≡◌ {A = Result (Option (Option Place))}
            (ok (if test then none else some (some r)))
            (ok (some root))
        → Bounds (some b) root place
    Bounds-chosen place r b root true inside e h = cc
    Bounds-chosen place r b root false inside e h =
        let same : some r ≡ root = ground arith in
        subst (λ t. Bounds (some b) t place) same (e, inside refl)

    Bounds-lookup :
        (place : Place) (b : Text) (root : Option Place) (l : Lookup)
        → canonicalize b ≡ l
        → (elim l as (λ _. Result (Option (Option Place))) [
          | not_found ↦ ok none
          | failed why ↦ err why
          | found_at r ↦ metadata r >>= λ m. ok (
              if not m.is_directory || eq_texts place r || not (is_beneath r place)
              then none
              else some (some r))
        ])
          ≡ ok (some root)
        → Bounds (some b) root place
    Bounds-lookup place b root not_found e h = cc
    Bounds-lookup place b root (failed why) e h = cc
    Bounds-lookup place b root (found_at r) e h =
        let (m, _, k) = >>=-eq-ok (metadata r) _ h in
        let test = not m.is_directory || eq_texts place r || not (is_beneath r place) in
        Bounds-chosen place r b root test
          (λ no. is_beneath-IsInside r place (
            not-false fs uid (is_beneath r place)
              (or-false fs uid (not m.is_directory || eq_texts place r) (not (is_beneath r place))
                no).1))
          e k

    Bounds-find_boundary :
        (place : Place) (o : Option Text) (root : Option Place)
        → find_boundary fs place o ≡ ok (some root)
        → Bounds o root place
    unfolding find_boundary
    Bounds-find_boundary place none none h = tt
    Bounds-find_boundary place none (some r) h = cc
    Bounds-find_boundary place (some b) root h = Bounds-lookup place b root (canonicalize b) refl h

    bounded-IsTrusted :
        (place : Place) (p : Place) (b : Option (Option Place))
        → find_boundary fs place boundary ≡ ok b
        → (elim b as (λ _. Result (Option Place)) [
          | none ↦ ok none
          | some root ↦ trusted_place fs place uid root
        ])
          ≡ ok (some p)
        → IsTrusted p
    bounded-IsTrusted place p none e h = cc
    bounded-IsTrusted place p (some root) e h =
        let (same, safe) = trusted_place-IsSafe fs uid place root p h in
        (root, rw same (Bounds-find_boundary place boundary root e), rw same safe)

    lookup-IsTrusted :
        (l : Lookup) (p : Place) → trusted_lookup fs l uid boundary ≡ ok (some p) → IsTrusted p
    unfolding trusted_lookup
    lookup-IsTrusted not_found p h = cc
    lookup-IsTrusted (failed why) p h = cc
    lookup-IsTrusted (found_at place) p h =
        let (b, e, h1) = >>=-eq-ok (find_boundary fs place boundary) _ h in
        bounded-IsTrusted place p b e h1

    trusted_executable-IsTrusted :
        (path : Text) (p : Place)
        → trusted_executable fs uid boundary path ≡ ok (some p)
        → IsTrusted p
    unfolding trusted_executable trusted_executable_for_uid_beneath
    trusted_executable-IsTrusted path p h = lookup-IsTrusted (canonicalize path) p h

    first-IsTrusted :
        (candidates : List Text) (p : Place)
        → first_trusted fs uid boundary candidates ≡ ok (some p)
        → IsTrusted p
    unfolding first_trusted
    first-IsTrusted [] p h = cc
    first-IsTrusted (c ∷ rest) p h =
        let (found, e, h1) = >>=-eq-ok (trusted_executable fs uid boundary c) _ h in
        elim (Option-cases found) [
          | inl k ↦ first-IsTrusted rest p (rw k at h1)
          | inr (place, k) ↦
              let same : ok (some place) ≡ ok (some p) = rw k at h1 in
              trusted_executable-IsTrusted c p (e ∙ (ap ok k ∙ same))
        ]

    named-IsTrusted :
        (o : Option Place) (e : Error) (t : Text) (candidates : List Text)
        → first_trusted fs uid boundary candidates ≡ ok o
        → (elim o as (λ _. Result Text) [ some place ↦ ok (lossy place) | none ↦ err e ]) ≡ ok t
        → (p : Place) × (lossy p ≡ t) × IsTrusted p
    named-IsTrusted none e t candidates h k = cc
    named-IsTrusted (some p) e t candidates h k =
        (p, ok-injective (lossy p) t k, first-IsTrusted candidates p h)

    user_step_bin_in-IsTrusted :
        (path names : List Text) (t : Text)
        → user_step_bin_in fs uid boundary path names ≡ ok t
        → (p : Place) × (lossy p ≡ t) × IsTrusted p
    unfolding user_step_bin_in
    user_step_bin_in-IsTrusted path names t h =
        let (o, e, k) = >>=-eq-ok (first_trusted fs uid boundary (candidates fs path names)) _ h in
        named-IsTrusted o _ t (candidates fs path names) e k

    -- A step program that is found for root is named after a regular file that belongs to root or
    -- the invoking user, that neither group nor others can write, and whose owner can run it. Every
    -- directory above it belongs to root or the invoking user too, and neither group nor others can
    -- write to it, unless it belongs to root and is sticky. Where a boundary is given, this is said
    -- of the directories from the boundary down, which is a canonical path at or above the file, and otherwise
    -- of all up to the root.
    pub root_step_bin-IsTrusted :
        (configured : Text) (path : List Text) (guidance t : Text)
        → root_step_bin fs uid boundary configured path guidance ≡ ok t
        → (p : Place) × (lossy p ≡ t) × IsTrusted p
    unfolding root_step_bin
    root_step_bin-IsTrusted configured path guidance t h =
        let places =
          configured
          ∷ text "/usr/local/bin/step"
          ∷ text "/usr/bin/step"
          ∷ path_candidates_in fs (text "step") path in
        let (o, e, k) = >>=-eq-ok (first_trusted fs uid boundary places) _ h in
        named-IsTrusted o _ t places e k
