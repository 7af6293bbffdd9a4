-- ===== src/Policy/Duration/Fuel.antt =====
-- The outer loop of `duration_nanoseconds` never runs out of fuel, and keeps below its bound.
use grafhome_ca.Policy.Duration.{
  component, fraction, span_digits, unit, add_fraction, and_then-eq-some, components,
  duration_nanoseconds, i64_max, in_u128, number_from, step_duration, unit_in, units, and_then,
  add_component,
}
use grafhome_ca.Base.{
  ◌≡◌, Text, [], ap, arith, length, length-append, some, strip_prefix, strip_prefix-eq-some, text,
  ◌+◌, ◌<◌, ◌∙◌, ◌∷◌, ◌≤◌, ℕ, All, Bool-cases, List, Option-cases, inl, inr, is_empty, ltb, refl,
  suc, zero, ◌*◌, ◌^◌, Option,
}

span_digits-shorter : (s : Text) → length (span_digits s).1 ≤ length s
unfolding span_digits
span_digits-shorter [] = omega arith
span_digits-shorter (b ∷ s) = ground (arith, span_digits-shorter s)

fraction-shorter :
    (s digits rest : Text) → fraction s ≡ some (digits, rest) → length rest ≤ length s
unfolding fraction
fraction-shorter [] digits rest h = ground arith
fraction-shorter (b ∷ s) digits rest h = ground (arith, span_digits-shorter s)

length-strip_prefix :
    (p s rest : Text) → strip_prefix p s ≡ some rest → length s ≡ length p + length rest
length-strip_prefix p s rest h = ap length (strip_prefix-eq-some p s rest h) ∙ length-append p rest

unit_in-shorter :
    (table : List (Text × ℕ)) (s rest : Text) (n : ℕ)
    → All (λ u. 0 < length u.0) table
    → unit_in table s ≡ some (n, rest)
    → length rest < length s
unfolding unit_in
unit_in-shorter [] s rest n a h = cc
unit_in-shorter ((name, k) ∷ table) s rest n (p, a) h = elim (Option-cases (strip_prefix name s)) [
  | inl e ↦ unit_in-shorter table s rest n a (rw (e, unit_in) at h)
  | inr (tail, e) ↦
      let size = length-strip_prefix name s tail e in
      let same : tail ≡ rest = ground arith in omega (arith, size, ap length same, p)
]

unit-shorter : (s rest : Text) (n : ℕ) → unit s ≡ some (n, rest) → length rest < length s
unfolding unit units text
unit-shorter s rest n h =
    unit_in-shorter units s rest n
      (omega arith, (omega arith, (omega arith, (omega arith, (omega arith, (omega arith, tt)))))) h

-- A component takes at least its unit from the text.
component-shorter : (s rest : Text) (n : ℕ) → component s ≡ some (n, rest) → length rest < length s
unfolding component
component-shorter s rest n h = elim (Bool-cases (is_empty (span_digits s).0)) [
  | inl e ↦ cc (rw (e, component) at h)
  | inr e ↦
      let (integer, _, h1) =
        and_then-eq-some (in_u128 (number_from 0 (span_digits s).0)) _ (rw (e, component) at h) in
      let ((decimals, tail), f, h2) = and_then-eq-some (fraction (span_digits s).1) _ h1 in
      let ((nanoseconds, rest'), u, h3) = and_then-eq-some (unit tail) _ h2 in
      let (whole, _, h4) = and_then-eq-some (in_u128 (integer * nanoseconds)) _ h3 in
      let (value, _, h5) = and_then-eq-some (add_fraction decimals nanoseconds whole) _ h4 in
      let same : rest' ≡ rest = ground arith in
      ground (
        arith,
        same,
        span_digits-shorter s,
        fraction-shorter (span_digits s).1 decimals tail f,
        unit-shorter tail rest' nanoseconds u,
      )
]

-- A turn of the loop takes some text and leaves a total below the bound.
add_component-bound :
    (total sum : ℕ) (s rest : Text)
    → add_component total s ≡ some (sum, rest)
    → (length rest < length s) × (sum ≤ i64_max)
unfolding add_component
add_component-bound total sum s rest h =
    let ((value, rest'), c, h1) = and_then-eq-some (component s) _ h in
    let (sum', _, h2) = and_then-eq-some (in_u128 (total + value)) _ h1 in
    elim (Bool-cases (ltb i64_max sum')) [
      | inl l ↦ cc (rw l at h2)
      | inr l ↦
          let same : ◌≡◌ {A = Option (ℕ × Text)} (some (sum', rest')) (some (sum, rest)) =
            rw l at h2 in
          let shorter = component-shorter s rest' value c in ground arith
    ]

-- Two runs of the loop with enough fuel agree.
components_agree :
    (f g total : ℕ) (s : Text)
    → length s ≤ f
    → length s ≤ g
    → components f total s ≡ components g total s
unfolding components
components_agree f g total [] p q = refl
components_agree zero g total (b ∷ s) p q = absurd (omega arith)
components_agree (suc f) zero total (b ∷ s) p q = absurd (omega arith)
components_agree (suc f) (suc g) total (b ∷ s) p q =
    elim (Option-cases (add_component total (b ∷ s))) [
      | inl e ↦ rw (e, components) refl
      | inr ((sum, rest), e) ↦
          let (shorter, _) = add_component-bound total sum (b ∷ s) rest e in
          rw (e, components) (components_agree f g sum rest (omega arith) (omega arith))
    ]

-- The loop, run with the length of the text as its fuel, satisfies the equation of the `while`
-- loop, in which there is no fuel.
pub components_unfold :
    (total b : ℕ) (s : Text)
    → components (length (b ∷ s)) total (b ∷ s)
      ≡ and_then (add_component total (b ∷ s)) λ (sum, rest). components (length rest) sum rest
unfolding components
components_unfold total b s = elim (Option-cases (add_component total (b ∷ s))) [
  | inl e ↦ rw (e, components) refl
  | inr ((sum, rest), e) ↦
      let (shorter, _) = add_component-bound total sum (b ∷ s) rest e in
      rw (e, components)
        (components_agree (length s) (length rest) sum rest (omega arith) (omega arith))
]

components-bound :
    (f total n : ℕ) (s : Text) → total ≤ i64_max → components f total s ≡ some n → n ≤ i64_max
unfolding components
components-bound f total n [] p h = ground arith
components-bound zero total n (b ∷ s) p h = cc
components-bound (suc f) total n (b ∷ s) p h =
    let ((sum, rest), e, h1) = and_then-eq-some (add_component total (b ∷ s)) _ h in
    let (_, bound) = add_component-bound total sum (b ∷ s) rest e in
    components-bound f sum n rest bound h1

-- Every duration that parses fits an `i64` of nanoseconds, which is what Go keeps.
pub duration_nanoseconds-bound : (d : Text) (n : ℕ) → duration_nanoseconds d ≡ some n → n < 2 ^ 63
unfolding duration_nanoseconds
duration_nanoseconds-bound d n h = elim (Bool-cases (is_empty d)) [
  | inl e ↦ cc (rw e at h)
  | inr e ↦ let bound = components-bound (length d) 0 n d (omega arith) (rw e at h) in omega arith
]

-- `step_duration` refuses only what `duration_nanoseconds` refuses: its conversion to `i64` never
-- fails.
pub step_duration-duration_nanoseconds : (d : Text) → step_duration d ≡ duration_nanoseconds d
unfolding step_duration
step_duration-duration_nanoseconds d = elim (Option-cases (duration_nanoseconds d)) [
  | inl e ↦ rw e refl
  | inr (n, e) ↦ let bound = duration_nanoseconds-bound d n e in rw e (ground arith)
]
