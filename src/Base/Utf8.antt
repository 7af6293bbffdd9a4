-- ===== src/Base/Utf8.antt =====
-- Well-formed UTF-8, which `String::from_utf8` tests and every Rust string is.
use Prim.Native.Nat.{ℕ, zero, suc, ◌<◌}
use mathlib.Core.Logic.{inl, inr}
use mathlib.Core.Path.{◌≡◌}
use mathlib.Core.Bool.{Bool, true, false, ◌&&◌}
use mathlib.Core.Option.{Option, none, some}
use mathlib.Core.List.{[], ◌∷◌}
use native.Mathlib.Omega.{arith}
use grafhome_ca.Base.Tests.{ltb, ◌==◌, if◌then◌else◌, Option-cases, &&-eq-true}
use grafhome_ca.Base.Lists.{All}
use grafhome_ca.Base.Ascii.{in_range}
use grafhome_ca.Base.Strings.{Text}

-- After a first byte: how many bytes follow, and the range of the next one.
lead : ℕ → Option (ℕ × ℕ × ℕ)
lead b =
    if ltb b 0x80
    then some (0, 0, 0)
    else if in_range 0xc2 0xdf b
    then some (1, 0x80, 0xbf)
    else if b == 0xe0
    then some (2, 0xa0, 0xbf)
    else if b == 0xed
    then some (2, 0x80, 0x9f)
    else if in_range 0xe1 0xef b
    then some (2, 0x80, 0xbf)
    else if b == 0xf0
    then some (3, 0x90, 0xbf)
    else if in_range 0xf1 0xf3 b
    then some (3, 0x80, 0xbf)
    else if b == 0xf4
    then some (3, 0x80, 0x8f)
    else none

utf8_from : ℕ → ℕ → ℕ → Text → Bool
utf8_from zero lo hi [] = true
utf8_from (suc n) lo hi [] = false
utf8_from zero lo hi (b ∷ s) = elim (lead b) [
  | none ↦ false
  | some (n, lo', hi') ↦ utf8_from n lo' hi' s
]
utf8_from (suc n) lo hi (b ∷ s) = in_range lo hi b && utf8_from n 0x80 0xbf s

unfoldable pub is_utf8 : Text → Bool
unfolding utf8_from lead
is_utf8 s = utf8_from 0 0 0 s

abbrev pub IsByte : ℕ → Type 0
IsByte b = b < 256

lead_bounds : (b n lo hi : ℕ) → lead b ≡ some (n, lo, hi) → (b < 256) × (hi < 256)
unfolding lead
lead_bounds b n lo hi h = ground arith

utf8_from-IsByte : (n lo hi : ℕ) (s : Text) → hi < 256 → utf8_from n lo hi s ≡ true → All IsByte s
unfolding utf8_from
utf8_from-IsByte zero lo hi [] k h = tt
utf8_from-IsByte (suc n) lo hi [] k h = tt
utf8_from-IsByte zero lo hi (b ∷ s) k h = elim (Option-cases (lead b)) [
  | inl e ↦ cc (rw (e, utf8_from) at h)
  | inr ((n, lo', hi'), e) ↦
      let (p, q) = lead_bounds b n lo' hi' e in
      (p, utf8_from-IsByte n lo' hi' s q (rw (e, utf8_from) at h))
]
utf8_from-IsByte (suc n) lo hi (b ∷ s) k h =
    let (p, q) = &&-eq-true (in_range lo hi b) (utf8_from n 0x80 0xbf s) h in
    (ground arith, utf8_from-IsByte n 0x80 0xbf s (omega arith) q)

-- The bytes of well-formed UTF-8 are bytes.
pub is_utf8-IsByte : (s : Text) → is_utf8 s ≡ true → All IsByte s
unfolding is_utf8
is_utf8-IsByte s h = utf8_from-IsByte 0 0 0 s (omega arith) h
