-- ===== src/Policy/Duration/Value.antt =====
-- What a duration of a policy is worth, and how durations compare.
use grafhome_ca.Policy.Duration.{
  and_then-eq-some, fraction, in_u128, span_digits, split_last, unit, unit_in, units, add_component,
  add_fraction, i64_max, number_from, component, and_then, components, duration_nanoseconds,
}
use grafhome_ca.Base.{
  ◌≡◌, &&-eq-true, Text, [], all, arith, false, is_ascii_digit, refl, some, strip_prefix, text,
  true, ◌++◌, ◌∷◌, ℕ, Bool-cases, inl, inr, is_empty, ltb, ◌*◌, ◌+◌, if◌then◌else◌, leb, none, suc,
  ◌^◌, ◌≤◌, length, length-append, zero, ◌<◌, ap,
}

span_digits-append :
    (digits : Text) (u : ℕ)
    → all is_ascii_digit digits ≡ true
    → is_ascii_digit u ≡ false
    → span_digits (digits ++ u ∷ []) ≡ (digits, u ∷ [])
unfolding span_digits
span_digits-append [] u a h = rw h refl
span_digits-append (b ∷ s) u a h =
    let (p, q) = &&-eq-true (is_ascii_digit b) (all is_ascii_digit s) a in
    rw (p, span_digits-append s u q h) refl

pub split_last-append :
    (d front last : Text) → split_last d ≡ some (front, last) → d ≡ front ++ last
unfolding split_last
split_last-append [] front last h = ground arith
split_last-append (b ∷ []) front last h = ground arith
split_last-append (b ∷ c ∷ s) front last h =
    let ((front', last'), e, h') = and_then-eq-some (split_last (c ∷ s)) _ h in
    let below = split_last-append (c ∷ s) front' last' e in ground arith

in_u128-eq-some : (n m : ℕ) → in_u128 n ≡ some m → n ≡ m
in_u128-eq-some n m h = ground arith

-- The units that a policy may use, in nanoseconds.
pub data IsUnit : Text → ℕ → Type 0 where
  seconds : IsUnit (b's' ∷ []) 1000000000
  minutes : IsUnit (b'm' ∷ []) 60000000000
  hours : IsUnit (b'h' ∷ []) 3600000000000

unit_value :
    (u : ℕ) (k : ℕ)
    → IsUnit (u ∷ []) k
    → (unit (u ∷ []) ≡ some (k, []))
      × (is_ascii_digit u ≡ false)
      × (fraction (u ∷ []) ≡ some ([], u ∷ []))
unfolding unit unit_in units text strip_prefix fraction
unit_value u k seconds = (refl, refl, refl)
unit_value u k minutes = (refl, refl, refl)
unit_value u k hours = (refl, refl, refl)

unit_grows : (u k : ℕ) → IsUnit (u ∷ []) k → (n : ℕ) → n ≤ n * k
unit_grows u k seconds n = omega arith
unit_grows u k minutes n = omega arith
unit_grows u k hours n = omega arith

in_u128-some : (n : ℕ) → n < 2 ^ 128 → in_u128 n ≡ some n
in_u128-some n h = ground arith

in_u128-none : (n : ℕ) → 2 ^ 128 ≤ n → in_u128 n ≡ none
in_u128-none n h = ground arith

no_more : (n : ℕ) → leb n i64_max ≡ true → ltb i64_max n ≡ false
no_more n h = ground arith

more : (n : ℕ) → leb n i64_max ≡ false → ltb i64_max n ≡ true
more n h = ground arith

-- The checks on one product, of which the last is the strictest.
bounded :
    (n k : ℕ)
    → n ≤ n * k
    → and_then {B = ℕ × Text}
        (and_then {B = ℕ × Text} (in_u128 n) λ i. and_then (in_u128 (i * k)) λ w. some (w, []))
        (λ (value, rest).
          and_then (in_u128 (0 + value)) λ sum. if ltb i64_max sum then none else some (sum, rest))
      ≡ (if leb (n * k) i64_max then some (n * k, []) else none)
bounded n k g = elim (Bool-cases (leb (n * k) i64_max)) [
  | inl q ↦
      let plus : 0 + n * k ≡ n * k = omega arith in
      rw (in_u128-some n (ground arith), in_u128-some (n * k) (ground arith))
        (rw (in_u128-some (0 + n * k) (ground arith))
          (rw (no_more (0 + n * k) (ground arith), q) (ap (λ m. some (m, [])) plus)))
  | inr q ↦ elim (Bool-cases (ltb (n * k) (2 ^ 128))) [
    | inl l ↦
        rw (in_u128-some n (ground arith), in_u128-some (n * k) (ground arith), q)
          (rw (in_u128-some (0 + n * k) (ground arith)) (rw (more (0 + n * k) (ground arith)) refl))
    | inr l ↦ elim (Bool-cases (ltb n (2 ^ 128))) [
      | inl m ↦ rw (in_u128-some n (ground arith), in_u128-none (n * k) (ground arith), q) refl
      | inr m ↦ rw (in_u128-none n (ground arith), q) refl
    ]
  ]
]

components_turn :
    (f total : ℕ) (s : Text)
    → is_empty s ≡ false
    → components (suc f) total s
      ≡ and_then (add_component total s) λ (sum, rest). components f sum rest
unfolding components
components_turn f total [] h = cc
components_turn f total (b ∷ s) h = refl

pub not_empty : (s : Text) (u : ℕ) → is_empty (s ++ u ∷ []) ≡ false
not_empty [] u = refl
not_empty (b ∷ s) u = refl

components-done : (f n : ℕ) → components f n [] ≡ some n
unfolding components
components-done zero n = refl
components-done (suc f) n = refl

suc_length : (n : ℕ) → n + 1 ≡ suc n
suc_length n = omega arith

module _ (digits : Text) (u k : ℕ) (v : IsUnit (u ∷ []) k) (some_digit : is_empty digits ≡ false)
    (a : all is_ascii_digit digits ≡ true) where
  component-single :
      component (digits ++ u ∷ [])
      ≡ and_then (in_u128 (number_from 0 digits)) λ i. and_then (in_u128 (i * k)) λ w. some (w, [])
  unfolding component add_fraction
  component-single =
      let (e, d, f) = unit_value u k v in
      rw (span_digits-append digits u a d, some_digit, f, e) refl

  add_component-single : add_component 0 (digits ++ u ∷ []) ≡ (
      if leb (number_from 0 digits * k) i64_max then some (number_from 0 digits * k, []) else none)
  unfolding add_component
  add_component-single =
      rw component-single
        (bounded (number_from 0 digits) k (unit_grows u k v (number_from 0 digits)))

  components-single :
      (f : ℕ)
      → components (suc f) 0 (digits ++ u ∷ [])
        ≡ (if leb (number_from 0 digits * k) i64_max then some (number_from 0 digits * k) else none)
  unfolding components
  components-single f =
      rw (components_turn f 0 (digits ++ u ∷ []) (not_empty digits u), add_component-single)
        (elim (Bool-cases (leb (number_from 0 digits * k) i64_max)) [
          | inl q ↦ rw q (components-done f _)
          | inr q ↦ rw q refl
        ])

  -- A duration of digits and one unit is worth their product, if that fits.
  pub duration_nanoseconds-single :
      duration_nanoseconds (digits ++ u ∷ [])
      ≡ (if leb (number_from 0 digits * k) i64_max then some (number_from 0 digits * k) else none)
  unfolding duration_nanoseconds
  duration_nanoseconds-single =
      rw (not_empty digits u, length-append digits (u ∷ []))
        (rw (suc_length (length digits)) (components-single (length digits)))
