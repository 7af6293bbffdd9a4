-- ===== src/Executable/Guarded.antt =====
-- What the tests of executable.rs on a file and on the directories above it say.
use grafhome_ca.Executable.{
  FileSystem, Metadata, Place, ancestors, is_beneath, directories_are_trusted, directory_is_trusted,
  file_is_trusted, is_inside, take_while, trusted_place, has_bit, owner_is_trusted,
  writable_by_others,
}
use grafhome_ca.Base.{
  ◌++◌, subst, eq_texts_refl, >>=-eq-ok, All, Bool-cases, List, Option, [], if-eq-true, inl, inr,
  ok, some, true, ◌∷◌, ◌≡◌, ℕ, Bool, Text, ap, arith, false, if-false, if◌then◌else◌, none, not,
  sym, ◌∙◌, &&-eq-true, ==_iff, refl, ◌&&◌, ◌==◌, ◌||◌, ◌⊎◌,
}

module _ (fs : FileSystem) (uid : ℕ) where
  open fs use {metadata, canonicalize, lossy}

  -- The directory belongs to root or the invoking user, and others cannot write to it, or it
  -- belongs to root and is sticky.
  pub record IsGuarded (d : Place) : Type 0 where
    pub its : Metadata
    pub known : metadata d ≡ ok its
    pub owner : (its.uid ≡ uid) ⊎ (its.uid ≡ 0)
    pub closed :
        ((has_bit its.mode 16 ≡ false) × (has_bit its.mode 2 ≡ false))
        ⊎ ((its.uid ≡ 0) × (has_bit its.mode 512 ≡ true))

  -- The directory is the boundary or lies beneath it; without a boundary every directory counts.
  abbrev pub IsInside : Option Place → Place → Type 0
  IsInside none d = Unit
  IsInside (some root) d = (inner : Place) × (inner ++ root ≡ d)

  -- The file, and every directory above it that is inside the boundary.
  pub record IsSafe (root : Option Place) (place : Place) : Type 0 where
    pub file : Metadata
    pub file_known : metadata place ≡ ok file
    pub file_owner : (file.uid ≡ uid) ⊎ (file.uid ≡ 0)
    pub file_closed : (has_bit file.mode 16 ≡ false) × (has_bit file.mode 2 ≡ false)
    pub file_runs : (file.is_regular ≡ true) × (has_bit file.mode 64 ≡ true)
    pub above :
        (inner d : Place) → IsInside root d → (c : Text) → inner ++ c ∷ d ≡ place → IsGuarded d

  owner-trusted : (owner : ℕ) → owner_is_trusted owner uid ≡ true → (owner ≡ uid) ⊎ (owner ≡ 0)
  unfolding owner_is_trusted
  owner-trusted owner h = elim (Bool-cases (owner == uid)) [
    | inl e ↦ inl ((==_iff owner uid).0 e)
    | inr e ↦ inr (ground arith)
  ]

  pub or-false : (a b : Bool) → (a || b) ≡ false → (a ≡ false) × (b ≡ false)
  or-false a b k = (ground arith, ground arith)

  pub not-false : (b : Bool) → not b ≡ false → b ≡ true
  not-false true h = refl
  not-false false h = cc

  not-true : (b : Bool) → not b ≡ true → b ≡ false
  not-true true h = cc
  not-true false h = refl

  not-others :
      (mode : ℕ)
      → writable_by_others mode ≡ false
      → (has_bit mode 16 ≡ false) × (has_bit mode 2 ≡ false)
  unfolding writable_by_others
  not-others mode h = or-false (has_bit mode 16) (has_bit mode 2) h

  sticky :
      (m : Metadata) (w : Bool)
      → w ≡ true
      → (not w || m.uid == 0 && has_bit m.mode 512) ≡ true
      → (m.uid ≡ 0) × (has_bit m.mode 512 ≡ true)
  sticky m true e h =
      let (r, t) = &&-eq-true (m.uid == 0) (has_bit m.mode 512) h in ((==_iff m.uid 0).0 r, t)
  sticky m false e h = cc

  guarded :
      (d : Place) (m : Metadata)
      → metadata d ≡ ok m
      → directory_is_trusted m.uid m.mode uid ≡ true
      → IsGuarded d
  unfolding directory_is_trusted
  guarded d m e h =
      let (a, b) =
        &&-eq-true (owner_is_trusted m.uid uid)
          (not (writable_by_others m.mode) || m.uid == 0 && has_bit m.mode 512) h in
      record {
        its = m;
        known = e;
        owner = owner-trusted m.uid a;
        closed = elim (Bool-cases (writable_by_others m.mode)) [
          | inr k ↦ inl (not-others m.mode k)
          | inl k ↦ inr (sticky m (writable_by_others m.mode) k b)
        ];
      }

  directories-IsGuarded :
      (ds : List Place) → directories_are_trusted fs uid ds ≡ ok true → All IsGuarded ds
  unfolding directories_are_trusted
  directories-IsGuarded [] h = tt
  directories-IsGuarded (d ∷ ds) h =
      let (m, e, h1) = >>=-eq-ok (metadata d) _ h in
      elim (Bool-cases (directory_is_trusted m.uid m.mode uid)) [
        | inl k ↦ (
          guarded d m e k,
          directories-IsGuarded ds (if-eq-true (directory_is_trusted m.uid m.mode uid) _ _ k h1),
        )
        | inr k ↦
            let no =
              sym (
                if-false (directory_is_trusted m.uid m.mode uid) (directories_are_trusted fs uid ds)
                  (ok false) k)
              ∙ h1 in
            cc
      ]

  is_beneath-append : (root inner : Place) → is_beneath root (inner ++ root) ≡ true
  unfolding is_beneath
  is_beneath-append [] [] = eq_texts_refl []
  is_beneath-append (c ∷ root) [] = ground (arith, eq_texts_refl (c ∷ root))
  is_beneath-append root (c ∷ inner) = ground (arith, is_beneath-append root inner)

  is_inside-IsInside : (root : Option Place) (d : Place) → IsInside root d → is_inside root d ≡ true
  is_inside-IsInside none d h = refl
  is_inside-IsInside (some root) d (inner, e) =
      subst (λ t. is_beneath root t ≡ true) e (is_beneath-append root inner)

  pub IsInside-add :
      (root : Option Place) (c : Text) (d : Place) → IsInside root d → IsInside root (c ∷ d)
  IsInside-add none c d h = tt
  IsInside-add (some root) c d (inner, e) = (c ∷ inner, ap (λ t. c ∷ t) e)

  IsInside-append :
      (root : Option Place) (inner d : Place) → IsInside root d → IsInside root (inner ++ d)
  IsInside-append root [] d h = h
  IsInside-append root (c ∷ inner) d h =
      IsInside-add root c (inner ++ d) (IsInside-append root inner d h)

  taken_first :
      (P : Place → Type 0) (test : Place → Bool) (d : Place) (ds : List Place)
      → test d ≡ true
      → All P (take_while test (d ∷ ds))
      → P d × All P (take_while test ds)
  unfolding take_while
  taken_first P test d ds h all = rw h at all

  -- The loop sees every directory above the place that is inside the boundary.
  seen :
      (P : Place → Type 0) (root : Option Place) (inner d : Place) (c : Text)
      → IsInside root d
      → All P (take_while (is_inside root) (ancestors (inner ++ c ∷ d)))
      → P d
  unfolding ancestors
  seen P root [] d c h all =
      (taken_first P (is_inside root) d (ancestors d) (is_inside-IsInside root d h) all).0
  seen P root (b ∷ inner) d c h all =
      let place = inner ++ c ∷ d in
      let inside = IsInside-append root inner (c ∷ d) (IsInside-add root c d h) in
      seen P root inner d c h
        (taken_first P (is_inside root) place (ancestors place)
          (is_inside-IsInside root place inside) all).1

  file-IsSafe :
      (root : Option Place) (place : Place) (m : Metadata)
      → metadata place ≡ ok m
      → file_is_trusted uid m ≡ true
      → All IsGuarded (take_while (is_inside root) (ancestors place))
      → IsSafe root place
  unfolding file_is_trusted
  file-IsSafe root place m e k f =
      let (k1, runs) =
        &&-eq-true (m.is_regular && owner_is_trusted m.uid uid && not (writable_by_others m.mode))
          (has_bit m.mode 64) k in
      let (k2, shut) =
        &&-eq-true (m.is_regular && owner_is_trusted m.uid uid) (not (writable_by_others m.mode))
          k1 in
      let (regular, owned) = &&-eq-true m.is_regular (owner_is_trusted m.uid uid) k2 in
      record {
        file = m;
        file_known = e;
        file_owner = owner-trusted m.uid owned;
        file_closed = not-others m.mode (not-true (writable_by_others m.mode) shut);
        file_runs = (regular, runs);
        above = λ inner d h c same.
            seen IsGuarded root inner d c h
              (subst (λ t. All IsGuarded (take_while (is_inside root) (ancestors t))) (sym same) f);
      }

  trusted_result :
      (place : Place) (root : Option Place) (p : Place) (m : Metadata)
      → metadata place ≡ ok m
      → file_is_trusted uid m ≡ true
      → (t : Bool)
      → directories_are_trusted fs uid (take_while (is_inside root) (ancestors place)) ≡ ok t
      → ok (if t then some place else none) ≡ ok (some p)
      → (p ≡ place) × IsSafe root place
  trusted_result place root p m e k true f h = (
    ground arith,
    file-IsSafe root place m e k
        (directories-IsGuarded (take_while (is_inside root) (ancestors place)) f),
  )
  trusted_result place root p m e k false f h = cc

  pub trusted_place-IsSafe :
      (place : Place) (root : Option Place) (p : Place)
      → trusted_place fs place uid root ≡ ok (some p)
      → (p ≡ place) × IsSafe root place
  unfolding trusted_place
  trusted_place-IsSafe place root p h =
      let (m, e, h1) = >>=-eq-ok (metadata place) _ h in
      let above = take_while (is_inside root) (ancestors place) in
      elim (Bool-cases (file_is_trusted uid m)) [
        | inr k ↦
            let test : not (file_is_trusted uid m) ≡ true = ground arith in
            let no = if-eq-true (not (file_is_trusted uid m)) (ok none) _ test h1 in cc
        | inl k ↦
            let test : not (file_is_trusted uid m) ≡ false = ground arith in
            let checked = sym (if-false (not (file_is_trusted uid m)) (ok none) _ test) ∙ h1 in
            let (t, f, h2) = >>=-eq-ok (directories_are_trusted fs uid above) _ checked in
            trusted_result place root p m e k t f h2
      ]
