-- ===== src/Base/Strings.antt =====
-- Rust strings as their bytes, and the methods of `str` that the program calls.
use Prim.Native.Nat.{ℕ, zero, suc, ◌+◌, ◌/◌, ◌%◌}
use Prim.Native.Char.{code}
use Prim.Native.String.{String}
use mathlib.Core.Path.{sym, ◌∙◌, ap, ◌≡◌, refl}
use mathlib.Core.Logic.{◌↔◌}
use mathlib.Core.Bool.{◌||◌, Bool, true, false, ◌&&◌}
use mathlib.Core.Option
use mathlib.Core.Option.{Option, none, some}
use mathlib.Core.List.{reverse-append, reverse-reverse, List, [], ◌∷◌, ◌++◌, reverse}
use native.Mathlib.Omega.{arith}
use mathlib.Core.Logic.{inl, inr}
use grafhome_ca.Base.Tests.{Bool-cases, Option-cases, ◌==◌, ==_iff, if◌then◌else◌, &&-eq-true}
use grafhome_ca.Base.Lists.{any}

-- The bytes of a string, each below 256.
abbrev pub Text : Type 0
Text = List ℕ

-- A literal of the source; all of them are ASCII.
unfoldable pub text : String → Text
text String.[] = []
text (String.◌∷◌ c s) = code c ∷ text s

unfoldable pub eq_text : Text → Text → Bool
eq_text [] [] = true
eq_text (a ∷ s) (b ∷ t) = a == b && eq_text s t
eq_text _ _ = false

pub eq_text_sound : (s t : Text) → eq_text s t ≡ true → s ≡ t
unfolding eq_text
eq_text_sound [] [] h = refl
eq_text_sound [] (b ∷ t) h = cc
eq_text_sound (a ∷ s) [] h = cc
eq_text_sound (a ∷ s) (b ∷ t) h =
    let (p, q) = &&-eq-true (a == b) (eq_text s t) h in cc ((==_iff a b).0 p, eq_text_sound s t q)

pub eq_text_refl : (s : Text) → eq_text s s ≡ true
unfolding eq_text
eq_text_refl [] = refl
eq_text_refl (a ∷ s) = ground (arith, eq_text_refl s)

pub eq_text_iff : (s t : Text) → (eq_text s t ≡ true) ↔ (s ≡ t)
eq_text_iff s t = (eq_text_sound s t, λ p. rw p (eq_text_refl t))

abbrev is_some {ℓ} : {A : Type ℓ} → Option A → Bool
is_some none = false
is_some (some a) = true

-- A byte put before the first part of a split.
abbrev extend : ℕ → List Text → List Text
extend c [] = (c ∷ []) ∷ []
extend c (p ∷ ps) = (c ∷ p) ∷ ps

unfoldable pub contains_text : List Text → Text → Bool
contains_text ts s = any (eq_text s) ts

-- `str::starts_with` and `str::strip_prefix`; the prefix comes first.
unfoldable pub strip_prefix : Text → Text → Option Text
strip_prefix [] s = some s
strip_prefix (a ∷ p) [] = none
strip_prefix (a ∷ p) (b ∷ s) = if a == b then strip_prefix p s else none

unfoldable pub starts_with : Text → Text → Bool
unfolding strip_prefix
starts_with p s = is_some (strip_prefix p s)

-- `str::strip_suffix` and `str::ends_with`; the suffix comes first.
unfoldable pub strip_suffix : Text → Text → Option Text
strip_suffix p s = Option.map reverse (strip_prefix (reverse p) (reverse s))

unfoldable pub ends_with : Text → Text → Bool
unfolding strip_suffix
ends_with p s = is_some (strip_suffix p s)

-- `str::split_once` at a byte.
unfoldable pub split_once : ℕ → Text → Option (Text × Text)
split_once sep [] = none
split_once sep (c ∷ s) =
    let rest = split_once sep s in
    if c == sep then some ([], s) else Option.map (λ (p : Text × Text). (c ∷ p.0, p.1)) rest

-- `str::split` at a byte.
unfoldable pub split : ℕ → Text → List Text
split sep [] = [] ∷ []
split sep (c ∷ s) = let rest = split sep s in if c == sep then [] ∷ rest else extend c rest

-- `str::contains` of a text; the part comes first.
unfoldable pub contains_part : Text → Text → Bool
contains_part p [] = starts_with p []
contains_part p (c ∷ s) = starts_with p (c ∷ s) || contains_part p s

unfoldable pub contains_byte : ℕ → Text → Bool
contains_byte b s = any (λ c. c == b) s

-- `[String]::join`; the separator comes first.
unfoldable pub join : Text → List Text → Text
join separator [] = []
join separator (s ∷ []) = s
join separator (s ∷ t ∷ ts) = s ++ (separator ++ join separator (t ∷ ts))

-- The decimal digits of a number, as `{}` prints it; the fuel is the number itself.
decimal_from : ℕ → ℕ → Text → Text
decimal_from zero n done = done
decimal_from (suc fuel) n done =
    let now = (48 + n % 10) ∷ done in
    let rest = decimal_from fuel (n / 10) now in if n / 10 == 0 then now else rest

unfoldable pub decimal : ℕ → Text
unfolding decimal_from
decimal n = decimal_from (suc n) n []

pub strip_prefix-append : (p s : Text) → strip_prefix p (p ++ s) ≡ some s
unfolding strip_prefix
strip_prefix-append [] s = refl
strip_prefix-append (a ∷ p) s = ground (arith, strip_prefix-append p s)

pub strip_prefix-eq-some : (p s t : Text) → strip_prefix p s ≡ some t → s ≡ p ++ t
unfolding strip_prefix
strip_prefix-eq-some [] s t h = cc
strip_prefix-eq-some (a ∷ p) [] t h = cc
strip_prefix-eq-some (a ∷ p) (b ∷ s) t h = ground (arith, strip_prefix-eq-some p s t)

pub split_once-append :
    (sep : ℕ) (a b : Text)
    → contains_byte sep a ≡ false
    → split_once sep (a ++ sep ∷ b) ≡ some (a, b)
unfolding split_once contains_byte
split_once-append sep [] b h = ground arith
split_once-append sep (c ∷ a) b h = ground (arith, split_once-append sep a b)

pub split_once-eq-some :
    (sep : ℕ) (s a b : Text) → split_once sep s ≡ some (a, b) → s ≡ a ++ sep ∷ b
unfolding split_once
split_once-eq-some sep [] a b h = cc
split_once-eq-some sep (c ∷ s) a b h = elim (Bool-cases (c == sep)) [
  | inl e ↦ ground arith
  | inr e ↦ elim (Option-cases (split_once sep s)) [
    | inl k ↦ cc (rw (e, k, split_once) at h)
    | inr ((x, y), k) ↦ ground (arith, split_once-eq-some sep s x y k)
  ]
]

pub contains_byte-append :
    (b : ℕ) (s t : Text)
    → contains_byte b s ≡ false
    → contains_byte b t ≡ false
    → contains_byte b (s ++ t) ≡ false
unfolding contains_byte
contains_byte-append b [] t p q = q
contains_byte-append b (c ∷ s) t p q = ground (arith, contains_byte-append b s t)

reverse_swap : (s t p : Text) → reverse s ≡ reverse p ++ t → s ≡ reverse t ++ p
reverse_swap s t p e =
    sym (reverse-reverse s)
    ∙ (ap reverse e ∙ (reverse-append (reverse p) t ∙ ap (λ w. reverse t ++ w) (reverse-reverse p)))

pub strip_suffix-eq-some : (p s t : Text) → strip_suffix p s ≡ some t → s ≡ t ++ p
unfolding strip_suffix
strip_suffix-eq-some p s t h = elim (Option-cases (strip_prefix (reverse p) (reverse s))) [
  | inl e ↦ cc (rw (e, strip_suffix) at h)
  | inr (w, e) ↦
      let same : reverse w ≡ t = ground (arith, h, e) in
      rw (← same) (reverse_swap s w p (strip_prefix-eq-some (reverse p) (reverse s) w e))
]
