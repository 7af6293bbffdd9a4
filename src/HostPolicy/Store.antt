-- ===== src/HostPolicy/Store.antt =====
-- The files of a managed host by their paths, and the order of paths.
use grafhome_ca.Base.{
  eq_texts_refl, eq_texts_sound, text_leb, &&-eq-true, ==_iff, Bool, Bool-cases, List, Option, Text,
  [], arith, eq_text, eq_text_sound, eq_texts, false, if◌then◌else◌, inl, inr, none, some, true,
  ◌&&◌, ◌==◌, ◌∙◌, ◌∷◌, ◌≡◌, ℕ, ap, sym,
}

-- An absolute path as its components, the outermost first.
abbrev pub FilePath : Type 0
FilePath = List Text

pub record HostPolicyFile : Type 0 where
  pub mode : ℕ
  pub content : Text

abbrev pub Files : Type 0
Files = List (FilePath × HostPolicyFile)

unfoldable pub same_file : HostPolicyFile → HostPolicyFile → Bool
same_file f g = f.mode == g.mode && eq_text f.content g.content

unfoldable pub file_at : FilePath → Files → Option HostPolicyFile
file_at path [] = none
file_at path ((p, f) ∷ files) = if eq_texts p path then some f else file_at path files

unfoldable pub drop_file : FilePath → Files → Files
drop_file path [] = []
drop_file path ((p, f) ∷ files) =
    let rest = drop_file path files in if eq_texts p path then rest else (p, f) ∷ rest

unfoldable pub put_file : FilePath → HostPolicyFile → Files → Files
unfolding drop_file
put_file path file files = (path, file) ∷ drop_file path files

-- `Ord` of `Path`
path_leb : FilePath → FilePath → Bool
path_leb [] q = true
path_leb (s ∷ p) [] = false
path_leb (s ∷ p) (t ∷ q) = if eq_text s t then path_leb p q else text_leb s t

-- `BTreeSet::insert`
insert_path : FilePath → List FilePath → List FilePath
unfolding path_leb
insert_path p [] = p ∷ []
insert_path p (q ∷ qs) =
    let rest = q ∷ insert_path p qs in
    if eq_texts p q then q ∷ qs else if path_leb p q then p ∷ q ∷ qs else rest

unfoldable pub path_set : List FilePath → List FilePath
unfolding insert_path
path_set [] = []
path_set (p ∷ ps) = insert_path p (path_set ps)

pub same_file_sound : (f g : HostPolicyFile) → same_file f g ≡ true → f ≡ g
unfolding same_file
same_file_sound f g h =
    let (p, q) = &&-eq-true (f.mode == g.mode) (eq_text f.content g.content) h in
    let mode = (==_iff f.mode g.mode).0 p in
    let content = eq_text_sound f.content g.content q in ground arith

-- A file that is put in place or taken away.
abbrev pub set_file : FilePath → Option HostPolicyFile → Files → Files
set_file path none files = drop_file path files
set_file path (some file) files = put_file path file files

eq_texts_apart :
    (p path q : FilePath) → eq_texts p path ≡ false → eq_texts p q ≡ true → eq_texts path q ≡ false
eq_texts_apart p path q h k = elim (Bool-cases (eq_texts path q)) [
  | inl e ↦
      let same : p ≡ path = eq_texts_sound p q k ∙ sym (eq_texts_sound path q e) in
      let clash : eq_texts p path ≡ true = rw same (eq_texts_refl path) in cc
  | inr e ↦ e
]

file_at-drop :
    (q path : FilePath) (files : Files)
    → file_at q (drop_file path files) ≡ (if eq_texts path q then none else file_at q files)
unfolding drop_file file_at
file_at-drop q path [] = ground arith
file_at-drop q path ((p, f) ∷ files) = elim (Bool-cases (eq_texts p path)) [
  | inl e ↦
      let same : p ≡ path = eq_texts_sound p path e in
      let here : eq_texts p q ≡ eq_texts path q = ap (λ t. eq_texts t q) same in
      ground (arith, file_at-drop q path files)
  | inr e ↦ elim (Bool-cases (eq_texts p q)) [
    | inl k ↦ let other = eq_texts_apart p path q e k in ground arith
    | inr k ↦ ground (arith, file_at-drop q path files)
  ]
]

pub file_at-set_file :
    (q path : FilePath) (o : Option HostPolicyFile) (files : Files)
    → file_at q (set_file path o files) ≡ (if eq_texts path q then o else file_at q files)
unfolding put_file file_at
file_at-set_file q path none files = file_at-drop q path files
file_at-set_file q path (some file) files = ground (arith, file_at-drop q path files)
