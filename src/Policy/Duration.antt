-- ===== src/Policy/Duration.antt =====
-- The durations of policy/mod.rs: the Go-style grammar that step-ca reads, in nanoseconds.
pub mod Fuel
pub mod Value
pub mod Accepted
pub mod Panic
use grafhome_ca.Base.{
  Bool, Option, Result, Text, [], all, eq_text, false, if◌then◌else◌, in_range, is_ascii_digit,
  is_empty, leb, length, ltb, none, strip_prefix, suc, text, true, validation, zero, ℕ, ◌&&◌, ◌*◌,
  ◌++◌, ◌+◌, ◌-◌, ◌/◌, ◌==◌, ◌^◌, ◌||◌, ◌∷◌, some, ensure, not, refl, ◌≡◌, List,
}

-- The `?` operator on an `Option`.
abbrev pub and_then {ℓ κ} : {A : Type ℓ} {B : Type κ} → Option A → (A → Option B) → Option B
and_then none f = none
and_then (some a) f = f a

abbrev pub i64_max : ℕ
i64_max = 2 ^ 63 - 1

-- A `u128` value, or `none` if it does not fit: `checked_add`, `checked_mul` and `parse`.
abbrev pub in_u128 : ℕ → Option ℕ
in_u128 n = if ltb n (2 ^ 128) then some n else none

-- The digits in front, and what is behind them.
unfoldable pub span_digits : Text → Text × Text
span_digits [] = ([], [])
span_digits (b ∷ s) =
    let (digits, rest) = span_digits s in
    if is_ascii_digit b then (b ∷ digits, rest) else ([], b ∷ s)

-- The number that digits write, behind the digits read before.
unfoldable pub number_from : ℕ → Text → ℕ
number_from n [] = n
number_from n (b ∷ s) = number_from (n * 10 + (b - 48)) s

-- The digits behind a point; there is none without a point.
unfoldable pub fraction : Text → Option (Text × Text)
fraction [] = some ([], [])
fraction (b ∷ s) =
    let (digits, rest) = span_digits s in
    if b == b'.' then (if is_empty digits then none else some (digits, rest)) else some ([], b ∷ s)

-- The units in the order of the tests, in nanoseconds.
unfoldable pub units : List (Text × ℕ)
units =
    (text "ns", 1)
    ∷ (text "us", 1000)
    ∷ (text "ms", 1000000)
    ∷ (text "s", 1000000000)
    ∷ (text "m", 60000000000)
    ∷ (text "h", 3600000000000)
    ∷ []

-- The first unit of a table that stands in front, and what is behind it.
unfoldable pub unit_in : List (Text × ℕ) → Text → Option (ℕ × Text)
unit_in [] s = none
unit_in ((name, nanoseconds) ∷ table) s = elim (strip_prefix name s) [
  | some rest ↦ some (nanoseconds, rest)
  | none ↦ unit_in table s
]

unfoldable pub unit : Text → Option (ℕ × Text)
unit s = unit_in units s

-- The loop over the digits of a fraction.
unfoldable pub add_fraction : Text → ℕ → ℕ → Option ℕ
add_fraction [] place component = some component
add_fraction (b ∷ s) place component =
    if place / 10 == 0
    then some component
    else and_then (in_u128 (component + (b - 48) * (place / 10))) (add_fraction s (place / 10))

-- A component in nanoseconds, and what is behind it.
unfoldable pub component : Text → Option (ℕ × Text)
component s =
    let (digits, behind) = span_digits s in
    if is_empty digits
    then none
    else and_then (in_u128 (number_from 0 digits)) λ integer.
      and_then (fraction behind) λ (decimals, tail). and_then (unit tail) λ (nanoseconds, rest).
        and_then (in_u128 (integer * nanoseconds))
          λ whole. and_then (add_fraction decimals nanoseconds whole) λ value. some (value, rest)

-- One turn of the outer loop: the new total, and what is behind the component.
unfoldable pub add_component : ℕ → Text → Option (ℕ × Text)
add_component total s = and_then (component s) λ (value, rest).
    and_then (in_u128 (total + value)) λ sum. if ltb i64_max sum then none else some (sum, rest)

-- The outer loop; each turn takes fuel, and the length of the text is enough.
unfoldable pub components : ℕ → ℕ → Text → Option ℕ
components fuel total [] = some total
components zero total (b ∷ s) = none
components (suc fuel) total (b ∷ s) =
    and_then (add_component total (b ∷ s)) λ (sum, rest). components fuel sum rest

unfoldable pub duration_nanoseconds : Text → Option ℕ
duration_nanoseconds duration =
    if is_empty duration then none else components (length duration) 0 duration

unfoldable pub duration_at_most : Text → Text → Bool
duration_at_most duration maximum = elim (duration_nanoseconds duration) [
  | none ↦ false
  | some d ↦ elim (duration_nanoseconds maximum) [ none ↦ false | some m ↦ leb d m ]
]

-- `i64::try_from` refuses what does not fit.
unfoldable pub step_duration : Text → Option ℕ
step_duration duration =
    and_then (duration_nanoseconds duration) λ n. if leb n i64_max then some n else none

unfoldable pub valid_step_duration_expression : Text → Bool
valid_step_duration_expression duration = elim (duration_nanoseconds duration) [
  | none ↦ false
  | some n ↦ true
]

unfoldable pub step_max_ttl : Text → Text
step_max_ttl max_ttl = if eq_text max_ttl (text "unlimited") then text "2562047h" else max_ttl

-- `split_at` one byte before the end. `none` is its panic: the place is inside a character.
unfoldable pub split_last : Text → Option (Text × Text)
split_last [] = some ([], [])
split_last (b ∷ []) = if in_range 128 191 b then none else some ([], b ∷ [])
split_last (b ∷ c ∷ s) = and_then (split_last (c ∷ s)) λ (front, last). some (b ∷ front, last)

unfoldable pub leading_zero : Text → Bool
leading_zero [] = false
leading_zero (b ∷ s) = b == b'0'

-- The five tests on the two parts and the whole.
unfoldable pub is_valid_duration : Text → Text → Text → Bool
is_valid_duration duration digits suffix =
    not (is_empty digits)
    && not (leading_zero digits)
    && all is_ascii_digit digits
    && (eq_text suffix (text "s") || eq_text suffix (text "m") || eq_text suffix (text "h"))
    && valid_step_duration_expression duration

-- `none` where the code panics.
unfoldable pub validate_step_duration : Text → Text → Text → Text → Option (Result (Unit {0}))
unfolding is_valid_duration
validate_step_duration table row_id field duration =
    and_then (split_last duration) λ (digits, suffix). some (
      ensure (is_valid_duration duration digits suffix) (
        validation (table ++ (text ":" ++ (row_id ++ (text "." ++ field))))
          (text "step-ca durations must use Go-style s, m, or h units")))

pub and_then-eq-some {ℓ κ} :
    {A : Type ℓ} {B : Type κ} (o : Option A) (f : A → Option B) {b : B}
    → and_then o f ≡ some b
    → (a : A) × (o ≡ some a) × (f a ≡ some b)
and_then-eq-some none f h = cc
and_then-eq-some (some a) f h = (a, refl, h)
