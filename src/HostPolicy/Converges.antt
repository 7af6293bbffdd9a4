-- ===== src/HostPolicy/Converges.antt =====
-- A successful application of the host policy leaves the desired files.
use grafhome_ca.Authority.Action.{modify, Action, pass, resume, ◌>>=◌, ◌>>◌}
use grafhome_ca.Authority.Machine.{Answer}
use grafhome_ca.Base.{
  eq_texts_sound, All, Bool, Bool-cases, Error, List, Option, Text, [], any, ap, arith, eq_texts,
  err, false, if◌then◌else◌, inl, inr, none, ok, refl, some, sym, true, ◌||◌, ◌∙◌, ◌∷◌, ◌≡◌,
}
use grafhome_ca.HostPolicy.Apply.{
  Changes, HostPolicyChange, Machine, Settings, apply_change, apply_changes, change_of, create,
  add_change, changes_at, read_host_policy_file, remove, remove_host_policy_file, update,
  write_desired,
}
use grafhome_ca.HostPolicy.Store.{
  Files, FilePath, HostPolicyFile, file_at, file_at-set_file, same_file, same_file_sound, set_file,
}
use grafhome_ca.Policy.Checked.{Checked}

-- The change is one for the desired file of the path.
abbrev pub Suits : Files → FilePath × HostPolicyChange → Type 0
Suits desired (path, create) = (file : HostPolicyFile) × (file_at path desired ≡ some file)
Suits desired (path, update) = (file : HostPolicyFile) × (file_at path desired ≡ some file)
Suits desired (path, remove) = file_at path desired ≡ none

-- The changes suit, and a managed path without a change has its desired file.
abbrev pub Listed : Files → List FilePath → Files → Checked Changes × Files → Type 0
Listed desired paths files (some (ok changes), after) =
    (after ≡ files)
    × All (Suits desired) changes
    × ((q : FilePath)
        → any (λ p. eq_texts p q) paths ≡ true
        → any (λ c. eq_texts c.0 q) changes ≡ false
        → file_at q files ≡ file_at q desired)
    × ((q : FilePath)
        → any (λ p. eq_texts p q) paths ≡ false
        → any (λ c. eq_texts c.0 q) changes ≡ false)
Listed desired paths files (some (err e), after) = Unit
Listed desired paths files (none, after) = ⊥

change_of-Suits :
    (desired : Files) (path : FilePath) (changes : Changes) (found wanted : Option HostPolicyFile)
    → wanted ≡ file_at path desired
    → All (Suits desired) changes
    → All (Suits desired) (add_change path (change_of found wanted) changes)
unfolding change_of add_change
change_of-Suits desired path changes none none e h = h
change_of-Suits desired path changes none (some w) e h = ((w, sym e), h)
change_of-Suits desired path changes (some f) none e h = (sym e, h)
change_of-Suits desired path changes (some f) (some w) e h = elim (Bool-cases (same_file f w)) [
  | inl k ↦ rw k h
  | inr k ↦ rw k ((w, sym e), h)
]

-- A path without a change is in none of the others, and has its desired file.
any_update :
    (path q : FilePath) (changes : Changes) (f w : HostPolicyFile) (b : Bool)
    → (b ≡ true → f ≡ w)
    → any (λ c. eq_texts c.0 q) (add_change path (if b then none else some update) changes) ≡ false
    → (any (λ c. eq_texts c.0 q) changes ≡ false) × (eq_texts path q ≡ true → some f ≡ some w)
unfolding add_change
any_update path q changes f w true e h = (h, λ _. ap some (e refl))
any_update path q changes f w false e h = (ground arith, λ k. ground arith)

change_of-any :
    (path q : FilePath) (changes : Changes) (found wanted : Option HostPolicyFile)
    → any (λ c. eq_texts c.0 q) (add_change path (change_of found wanted) changes) ≡ false
    → (any (λ c. eq_texts c.0 q) changes ≡ false) × (eq_texts path q ≡ true → found ≡ wanted)
unfolding change_of add_change
change_of-any path q changes none none h = (h, λ _. refl)
change_of-any path q changes none (some w) h = (ground arith, λ k. ground arith)
change_of-any path q changes (some f) none h = (ground arith, λ k. ground arith)
change_of-any path q changes (some f) (some w) h =
    any_update path q changes f w (same_file f w) (same_file_sound f w) h

-- A change is at its own path.
add_change-any :
    (path q : FilePath) (o : Option HostPolicyChange) (changes : Changes)
    → eq_texts path q ≡ false
    → any (λ c. eq_texts c.0 q) changes ≡ false
    → any (λ c. eq_texts c.0 q) (add_change path o changes) ≡ false
unfolding add_change
add_change-any path q none changes h k = k
add_change-any path q (some change) changes h k = ground arith

module _ (show : Error → Text) (settings : Settings) (machine : Machine) (desired : Files) where
  Listed-add_change :
      (path : FilePath) (paths : List FilePath) (files : Files) (r : Checked Changes × Files)
      → Listed desired paths files r
      → Listed desired (path ∷ paths) files (
          resume r (λ changes.
            pass (
              ok
                (add_change path (change_of (file_at path files) (file_at path desired)) changes))))
  Listed-add_change path paths files (none, after) h = h
  Listed-add_change path paths files (some (err e), after) h = tt
  Listed-add_change path paths files (some (ok changes), after) (same, suit, kept, others) = (
    same,
    change_of-Suits desired path changes (file_at path files) (file_at path desired) refl suit,
    λ q k none_here.
        let (later, here) =
          change_of-any path q changes (file_at path files) (file_at path desired) none_here in
        elim (Bool-cases (eq_texts path q)) [
          | inl e ↦
              let p : path ≡ q = eq_texts_sound path q e in
              ap (λ t. file_at t files) (sym p) ∙ here e ∙ ap (λ t. file_at t desired) p
          | inr e ↦ kept q (ground arith) later
        ],
    λ q k.
        let first : eq_texts path q ≡ false = ground arith in
        let rest : any (λ p. eq_texts p q) paths ≡ false = ground arith in
        add_change-any path q (change_of (file_at path files) (file_at path desired)) changes first
          (others q rest),
  )

  pub changes_at-Listed :
      (paths : List FilePath) (files : Files)
      → Listed desired paths files (changes_at show settings machine desired paths files)
  unfolding changes_at read_host_policy_file
  changes_at-Listed [] files = (refl, tt, (λ q h _. cc (h)), λ q h. refl)
  changes_at-Listed (path ∷ paths) files =
      read_first (machine.inspect path) (changes_at-Listed paths files)
    where
      read_first :
          (answer : Answer)
          → Listed desired paths files (changes_at show settings machine desired paths files)
          → Listed desired (path ∷ paths) files (
              ((pass answer >> (λ now. (some (ok (file_at path now)), now))) >>= λ found.
              changes_at show settings machine desired paths >>= λ changes.
              pass (ok (add_change path (change_of found (file_at path desired)) changes)))
                files)
      read_first (err e) h = tt
      read_first (ok _) h =
          Listed-add_change path paths files (changes_at show settings machine desired paths files)
            h

  placed :
      (q path : FilePath) (o : Option HostPolicyFile) (files : Files) (b : Bool)
      → o ≡ file_at path desired
      → (if b then file_at q desired else file_at q (set_file path o files))
        ≡ (if eq_texts path q || b then file_at q desired else file_at q files)
  placed q path o files true e = ground arith
  placed q path o files false e = elim (Bool-cases (eq_texts path q)) [
    | inl k ↦
        let same : path ≡ q = eq_texts_sound path q k in
        let wanted : o ≡ file_at q desired = e ∙ ap (λ p. file_at p desired) same in
        let set = file_at-set_file q path o files in ground arith
    | inr k ↦ let set = file_at-set_file q path o files in ground arith
  ]

  -- The paths of the changes have their desired files, and the others stay.
  abbrev pub Applied : Changes → Files → Checked (Unit {0}) × Files → Type 0
  Applied changes files (some (ok _), after) =
      (q : FilePath)
      → file_at q after
        ≡ (if any (λ c. eq_texts c.0 q) changes then file_at q desired else file_at q files)
  Applied changes files (some (err e), after) = Unit
  Applied changes files (none, after) = ⊥

  Applied-after :
      (path : FilePath) (change : HostPolicyChange) (changes : Changes) (files : Files)
      (o : Option HostPolicyFile) (r : Checked (Unit {0}) × Files)
      → o ≡ file_at path desired
      → Applied changes (set_file path o files) r
      → Applied ((path, change) ∷ changes) files r
  Applied-after path change changes files o (none, after) e h = h
  Applied-after path change changes files o (some (err why), after) e h = tt
  Applied-after path change changes files o (some (ok _), after) e h =
      λ q. h q ∙ placed q path o files (any (λ c. eq_texts c.0 q) changes) e

  -- A step that puts or takes the file of a path when it is answered.
  answered_then :
      (path : FilePath) (change : HostPolicyChange) (changes : Changes) (files : Files)
      (o : Option HostPolicyFile) (answer : Answer) (next : Action Files (Unit {0}))
      → o ≡ file_at path desired
      → Applied changes (set_file path o files) (next (set_file path o files))
      → Applied
          ((path, change) ∷ changes)
          files
          (resume ((pass answer >> modify (set_file path o)) files) (λ _. next))
  answered_then path change changes files o (err why) next e h = tt
  answered_then path change changes files o (ok _) next e h =
      Applied-after path change changes files o (next (set_file path o files)) e h

  write_desired-eq :
      (path : FilePath) (file : HostPolicyFile) (files : Files)
      → file_at path desired ≡ some file
      → write_desired show settings machine desired path files
        ≡ (pass (machine.write path) >> modify (set_file path (some file))) files
  unfolding write_desired
  write_desired-eq path file files h = rw h refl

  pub apply_changes-Applied :
      (changes : Changes) (files : Files)
      → All (Suits desired) changes
      → Applied changes files (apply_changes show settings machine desired changes files)
  unfolding apply_changes apply_change remove_host_policy_file
  apply_changes-Applied [] files h = λ q. refl
  apply_changes-Applied ((path, create) ∷ changes) files ((file, wanted), rest) =
      rw (write_desired-eq path file files wanted) (
        answered_then path create changes files (some file) (machine.write path) _ (sym wanted)
          (apply_changes-Applied changes (set_file path (some file) files) rest))
  apply_changes-Applied ((path, update) ∷ changes) files ((file, wanted), rest) =
      rw (write_desired-eq path file files wanted) (
        answered_then path update changes files (some file) (machine.write path) _ (sym wanted)
          (apply_changes-Applied changes (set_file path (some file) files) rest))
  apply_changes-Applied ((path, remove) ∷ changes) files (gone, rest) =
      answered_then path remove changes files none (machine.unlink path) _ (sym gone)
        (apply_changes-Applied changes (set_file path none files) rest)
