-- ===== src/Base/Space.antt =====
-- White space as `str::trim` and `str::split_whitespace` know it, on the bytes of a string.
use Prim.Native.Nat.{ℕ, zero, suc}
use mathlib.Core.Path.{◌≡◌, refl}
use mathlib.Core.Logic.{inl, inr}
use mathlib.Core.Bool.{false}
use native.Mathlib.Omega.{arith}
use grafhome_ca.Base.Tests.{Bool-cases, Option-cases, ◌==◌}
use mathlib.Core.Option.{Option, none, some}
use mathlib.Core.List.{List, [], ◌∷◌, reverse, map}
use grafhome_ca.Base.Lists.{length}
use grafhome_ca.Base.Strings.{Text, strip_prefix, contains_byte}

-- The UTF-8 encodings of the `White_Space` characters.
abbrev white_space : List Text
white_space =
    (9 ∷ [])
    ∷ (10 ∷ [])
    ∷ (11 ∷ [])
    ∷ (12 ∷ [])
    ∷ (13 ∷ [])
    ∷ (32 ∷ [])
    ∷ (0xc2 ∷ 0x85 ∷ [])
    ∷ (0xc2 ∷ 0xa0 ∷ [])
    ∷ (0xe1 ∷ 0x9a ∷ 0x80 ∷ [])
    ∷ (0xe2 ∷ 0x80 ∷ 0x80 ∷ [])
    ∷ (0xe2 ∷ 0x80 ∷ 0x81 ∷ [])
    ∷ (0xe2 ∷ 0x80 ∷ 0x82 ∷ [])
    ∷ (0xe2 ∷ 0x80 ∷ 0x83 ∷ [])
    ∷ (0xe2 ∷ 0x80 ∷ 0x84 ∷ [])
    ∷ (0xe2 ∷ 0x80 ∷ 0x85 ∷ [])
    ∷ (0xe2 ∷ 0x80 ∷ 0x86 ∷ [])
    ∷ (0xe2 ∷ 0x80 ∷ 0x87 ∷ [])
    ∷ (0xe2 ∷ 0x80 ∷ 0x88 ∷ [])
    ∷ (0xe2 ∷ 0x80 ∷ 0x89 ∷ [])
    ∷ (0xe2 ∷ 0x80 ∷ 0x8a ∷ [])
    ∷ (0xe2 ∷ 0x80 ∷ 0xa8 ∷ [])
    ∷ (0xe2 ∷ 0x80 ∷ 0xa9 ∷ [])
    ∷ (0xe2 ∷ 0x80 ∷ 0xaf ∷ [])
    ∷ (0xe2 ∷ 0x81 ∷ 0x9f ∷ [])
    ∷ (0xe3 ∷ 0x80 ∷ 0x80 ∷ [])
    ∷ []

-- What is left behind the one text of a list that a string begins with.
strip_any : List Text → Text → Option Text
strip_any [] s = none
strip_any (p ∷ ps) s = elim (strip_prefix p s) [ none ↦ strip_any ps s | some t ↦ some t ]

-- `str::trim_start` with the given encodings; each round takes a byte at least.
trim_from : List Text → ℕ → Text → Text
trim_from spaces zero s = s
trim_from spaces (suc fuel) s = elim (strip_any spaces s) [
  | none ↦ s
  | some t ↦ trim_from spaces fuel t
]

unfoldable pub trim_start : Text → Text
unfolding trim_from strip_any strip_prefix
trim_start s = trim_from white_space (length s) s

-- A white-space encoding at the end of well-formed UTF-8 is a whole character.
unfoldable pub trim_end : Text → Text
unfolding trim_from strip_any strip_prefix
trim_end s = reverse (trim_from (map reverse white_space) (length s) (reverse s))

unfoldable pub trim : Text → Text
unfolding trim_start trim_end
trim s = trim_end (trim_start s)

-- The bytes before the first white space.
word_from : ℕ → Text → Text
word_from zero s = []
word_from (suc fuel) [] = []
word_from (suc fuel) (c ∷ s) = elim (strip_any white_space (c ∷ s)) [
  | none ↦ c ∷ word_from fuel s
  | some t ↦ []
]

abbrev nonempty : Text → Option Text
nonempty [] = none
nonempty (c ∷ s) = some (c ∷ s)

-- `s.split_whitespace().next()`
unfoldable pub first_word : Text → Option Text
unfolding word_from strip_any strip_prefix trim_start
first_word s = nonempty (word_from (length s) (trim_start s))

-- What is behind the first white space.
after_word : ℕ → Text → Text
after_word zero s = s
after_word (suc fuel) [] = []
after_word (suc fuel) (c ∷ s) = elim (strip_any white_space (c ∷ s)) [
  | none ↦ after_word fuel s
  | some t ↦ t
]

-- `s.split_whitespace().nth(1)`
unfoldable pub second_word : Text → Option Text
unfolding after_word strip_any strip_prefix trim_start
second_word s = first_word (after_word (length s) (trim_start s))

-- `s.split_whitespace().collect::<String>()`
without_from : ℕ → Text → Text
without_from zero s = []
without_from (suc fuel) [] = []
without_from (suc fuel) (c ∷ s) = elim (strip_any white_space (c ∷ s)) [
  | none ↦ c ∷ without_from fuel s
  | some t ↦ without_from fuel t
]

unfoldable pub without_white_space : Text → Text
unfolding without_from strip_any strip_prefix
without_white_space s = without_from (length s) s

-- A byte that is white space by itself.
pub IsBlank : ℕ → Type 0
IsBlank w = (s : Text) → strip_any white_space (w ∷ s) ≡ some s

word_from-blank :
    (w : ℕ) → IsBlank w → (fuel : ℕ) (s : Text) → contains_byte w (word_from fuel s) ≡ false
unfolding word_from contains_byte IsBlank
word_from-blank w h zero s = refl
word_from-blank w h (suc fuel) [] = refl
word_from-blank w h (suc fuel) (c ∷ s) = elim (Option-cases (strip_any white_space (c ∷ s))) [
  | inr (t, e) ↦ rw (e, word_from) refl
  | inl e ↦
      rw (e, word_from)
        (elim (Bool-cases (c == w)) [
          | inl k ↦ let same : c ≡ w = ground arith in let found = h s in cc
          | inr k ↦ rw k (word_from-blank w h fuel s)
        ])
]

nonempty-blank :
    (w : ℕ) (s t : Text)
    → contains_byte w s ≡ false
    → nonempty s ≡ some t
    → contains_byte w t ≡ false
nonempty-blank w [] t h e = cc
nonempty-blank w (c ∷ s) t h e = let same : c ∷ s ≡ t = ground arith in rw (← same) h

first_word-blank :
    (w : ℕ) (s t : Text) → IsBlank w → first_word s ≡ some t → contains_byte w t ≡ false
unfolding first_word contains_byte
first_word-blank w s t h e =
    let k = word_from-blank w h (length s) (trim_start s) in
    nonempty-blank w (word_from (length s) (trim_start s)) t k e

pub second_word-blank :
    (w : ℕ) (s t : Text) → IsBlank w → second_word s ≡ some t → contains_byte w t ≡ false
unfolding second_word
second_word-blank w s t h e = first_word-blank w (after_word (length s) (trim_start s)) t h e

pub newline-IsBlank : IsBlank 10
unfolding strip_any strip_prefix IsBlank
newline-IsBlank s = refl

pub return-IsBlank : IsBlank 13
unfolding strip_any strip_prefix IsBlank
return-IsBlank s = refl
