-- ===== src/Executable.antt =====
-- src/src/executable.rs on Unix: which programs the authority is willing to run. What the file
-- system answers is a record.
pub mod Guarded
pub mod Safe
mod Tests
use grafhome_ca.Base.{
  ◌>>=◌, ◌>>◌, Bool, Error, List, Option, Result, Text, [], eq_texts, err, false, filter,
  if◌then◌else◌, none, not, map, ok, ok_or, some, text, true, ◌%◌, ◌&&◌, ◌++◌, ◌/◌, ◌==◌, ◌||◌, ◌∷◌,
  ℕ, validation,
}

-- A canonical path as its components, the innermost first.
abbrev pub Place : Type 0
Place = List Text

pub data Lookup : Type 0 where
  not_found : Lookup
  failed : Error → Lookup
  found_at : Place → Lookup

pub record Metadata : Type 0 where
  pub uid : ℕ
  pub mode : ℕ
  pub is_regular : Bool
  pub is_directory : Bool

pub record FileSystem : Type 0 where
  pub canonicalize : Text → Lookup
  pub metadata : Place → Result Metadata
  pub join : Text → Text → Text
  -- `Path::is_file`
  pub is_file : Text → Bool
  -- `to_string_lossy`
  pub lossy : Place → Text

-- A bit of a mode.
abbrev pub has_bit : ℕ → ℕ → Bool
has_bit mode bit = (mode / bit) % 2 == 1

-- `mode & 0o022 != 0`
unfoldable pub writable_by_others : ℕ → Bool
writable_by_others mode = has_bit mode 16 || has_bit mode 2

unfoldable pub owner_is_trusted : ℕ → ℕ → Bool
owner_is_trusted owner invoking_uid = owner == invoking_uid || not (invoking_uid == 0) && owner == 0

unfoldable pub directory_is_trusted : ℕ → ℕ → ℕ → Bool
unfolding owner_is_trusted writable_by_others
directory_is_trusted owner mode invoking_uid =
    owner_is_trusted owner invoking_uid
    && (not (writable_by_others mode) || owner == 0 && has_bit mode 512)

unfoldable pub file_is_trusted : ℕ → Metadata → Bool
unfolding owner_is_trusted writable_by_others
file_is_trusted trusted_uid m =
    m.is_regular
    && owner_is_trusted m.uid trusted_uid
    && not (writable_by_others m.mode)
    && has_bit m.mode 64

-- `place.starts_with(root)`
unfoldable pub is_beneath : Place → Place → Bool
is_beneath root [] = eq_texts root []
is_beneath root (c ∷ place) = eq_texts root (c ∷ place) || is_beneath root place

-- `ancestors().skip(1)`
unfoldable pub ancestors : Place → List Place
ancestors [] = []
ancestors (c ∷ place) = place ∷ ancestors place

unfoldable pub take_while : (Place → Bool) → List Place → List Place
take_while test [] = []
take_while test (d ∷ ds) = let rest = take_while test ds in if test d then d ∷ rest else []

abbrev pub is_inside : Option Place → Place → Bool
is_inside none d = true
is_inside (some root) d = is_beneath root d

unfoldable pub user_step_bins : List Text
user_step_bins = text "step" ∷ text "step-cli" ∷ []

unfoldable pub android_user_step_bins : List Text
android_user_step_bins = text "step-cli" ∷ text "step" ∷ []

module _ (fs : FileSystem) where
  open fs use {canonicalize, metadata, join, is_file, lossy}

  -- Each name in each directory of PATH, as far as it is a file.
  unfoldable pub candidates : List Text → List Text → List Text
  candidates [] names = []
  candidates (directory ∷ path) names =
      filter is_file (map (λ name. join directory name) names) ++ candidates path names

  -- The path is the list of its directories, empty when the variable is not set.
  unfoldable pub path_candidates_in : Text → List Text → List Text
  path_candidates_in name path = filter is_file (map (λ directory. join directory name) path)

  -- The boundary; `none` inside is the early return of nothing.
  unfoldable pub find_boundary : Place → Option Text → Result (Option (Option Place))
  find_boundary place none = ok (some none)
  find_boundary place (some boundary) = elim (canonicalize boundary) [
    | not_found ↦ ok none
    | failed why ↦ err why
    | found_at root ↦ metadata root >>= λ m. ok (
        if not m.is_directory || eq_texts place root || not (is_beneath root place)
        then none
        else some (some root))
  ]

  -- The loop over the ancestors.
  unfoldable pub directories_are_trusted : ℕ → List Place → Result Bool
  directories_are_trusted trusted_uid [] = ok true
  directories_are_trusted trusted_uid (d ∷ ds) = metadata d >>= λ m.
      if directory_is_trusted m.uid m.mode trusted_uid
      then directories_are_trusted trusted_uid ds
      else ok false

  -- What is checked behind the boundary.
  unfoldable pub trusted_place : Place → ℕ → Option Place → Result (Option Place)
  unfolding directories_are_trusted
  trusted_place place trusted_uid root = do
    m ← metadata place
    if not (file_is_trusted trusted_uid m)
        then ok none
        else (directories_are_trusted trusted_uid (take_while (is_inside root) (ancestors place))
            >>= λ trusted. ok (if trusted then some place else none))

  -- What follows from the canonical path.
  unfoldable pub trusted_lookup : Lookup → ℕ → Option Text → Result (Option Place)
  trusted_lookup not_found trusted_uid boundary = ok none
  trusted_lookup (failed why) trusted_uid boundary = err why
  trusted_lookup (found_at place) trusted_uid boundary = find_boundary place boundary >>= λ bounded.
      elim bounded [ none ↦ ok none | some root ↦ trusted_place place trusted_uid root ]

  unfoldable pub trusted_executable_for_uid_beneath : Text → ℕ → Option Text → Result (Option Place)
  unfolding find_boundary trusted_place trusted_lookup
  trusted_executable_for_uid_beneath path trusted_uid boundary =
      trusted_lookup (canonicalize path) trusted_uid boundary

  module _ (euid : ℕ) (boundary : Option Text) where
    -- On Unix; the boundary is none but on Android.
    unfoldable pub trusted_executable : Text → Result (Option Place)
    trusted_executable path = trusted_executable_for_uid_beneath path euid boundary

    unfoldable pub trusted_program : Text → Result Place
    unfolding trusted_executable
    trusted_program path = trusted_executable path >>= λ found.
        ok_or found (validation path (text "program is missing, or writable by another user"))

    -- The first trusted candidate of a list.
    unfoldable pub first_trusted : List Text → Result (Option Place)
    unfolding trusted_executable
    first_trusted [] = ok none
    first_trusted (candidate ∷ rest) = trusted_executable candidate >>= λ found. elim found [
      | some place ↦ ok (some place)
      | none ↦ first_trusted rest
    ]

    unfoldable pub user_step_bin_in : List Text → List Text → Result Text
    unfolding candidates first_trusted
    user_step_bin_in path names = first_trusted (candidates path names) >>= λ found. elim found [
      | some place ↦ ok (lossy place)
      | none ↦ err (
          validation (text "step executable") (
            text
              "no Smallstep CLI is available on PATH; install `step` or Termux's `step-cli` package"))
    ]

    unfoldable pub root_step_bin : Text → List Text → Text → Result Text
    unfolding path_candidates_in first_trusted
    root_step_bin configured path guidance =
        first_trusted (
          configured
          ∷ text "/usr/local/bin/step"
          ∷ text "/usr/bin/step"
          ∷ path_candidates_in (text "step") path)
        >>= λ found. elim found [
          | some place ↦ ok (lossy place)
          | none ↦ err (
              validation (text "step executable") (
                text "no trusted step executable is available; configured path "
                ++ (configured ++ (text " is missing or unsafe. " ++ guidance))))
        ]
