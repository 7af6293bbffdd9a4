-- ===== src/Policy/Tests.antt =====
-- The theorems on durations at concrete durations.
use grafhome_ca.Policy.Duration.Value.{hours, minutes}
use grafhome_ca.Policy.Duration.Fuel.{components_unfold, step_duration-duration_nanoseconds}
use grafhome_ca.Policy.Duration.{
  add_component, and_then, components, duration_nanoseconds, number_from, step_duration,
  validate_step_duration, leading_zero,
}
use grafhome_ca.Policy.Duration.Accepted.{IsPlain, validate_step_duration_iff}
use grafhome_ca.Policy.Duration.Panic.{EndsInside, validate_step_duration_panics}
use grafhome_ca.Base.{
  ◌≡◌, Text, [], arith, length, none, ok, refl, some, text, ◌*◌, ◌<◌, ◌^◌, ◌↔◌, ◌∷◌, false,
}

abbrev a_day : Text
a_day = b'2' ∷ b'4' ∷ b'h' ∷ []

abbrev an_hour : Text
an_hour = b'6' ∷ b'0' ∷ b'm' ∷ []

abbrev accented : Text
accented = b'1' ∷ 195 ∷ 169 ∷ []

a_day_fits : number_from 0 (b'2' ∷ b'4' ∷ []) * 3600000000000 < 2 ^ 63
unfolding number_from
a_day_fits = omega arith

an_hour_fits : number_from 0 (b'6' ∷ b'0' ∷ []) * 60000000000 < 2 ^ 63
unfolding number_from
an_hour_fits = omega arith

a_day_no_zero : leading_zero (b'2' ∷ b'4' ∷ []) ≡ false
unfolding leading_zero
a_day_no_zero = refl

an_hour_no_zero : leading_zero (b'6' ∷ b'0' ∷ []) ≡ false
unfolding leading_zero
an_hour_no_zero = refl

abbrev a_day-IsPlain : IsPlain a_day
a_day-IsPlain = record {
  digits = b'2' ∷ b'4' ∷ [];
  suffix = b'h';
  nanoseconds = 3600000000000;
  its_unit = hours;
  written = refl;
  some_digit = refl;
  no_zero = a_day_no_zero;
  all_digits = refl;
  fits = a_day_fits;
}

abbrev an_hour-IsPlain : IsPlain an_hour
an_hour-IsPlain = record {
  digits = b'6' ∷ b'0' ∷ [];
  suffix = b'm';
  nanoseconds = 60000000000;
  its_unit = minutes;
  written = refl;
  some_digit = refl;
  no_zero = an_hour_no_zero;
  all_digits = refl;
  fits = an_hour_fits;
}

validate_step_duration_iff_example :
    (validate_step_duration (text "users") (text "alice") (text "cert_ttl") a_day ≡ some (ok tt))
    ↔ IsPlain a_day
validate_step_duration_iff_example =
    validate_step_duration_iff (text "users") (text "alice") (text "cert_ttl") a_day

step_duration-duration_nanoseconds_example : step_duration an_hour ≡ duration_nanoseconds an_hour
step_duration-duration_nanoseconds_example = step_duration-duration_nanoseconds an_hour

validate_step_duration_panics_example :
    (validate_step_duration (text "users") (text "alice") (text "cert_ttl") accented ≡ none)
    ↔ EndsInside accented
validate_step_duration_panics_example =
    validate_step_duration_panics (text "users") (text "alice") (text "cert_ttl") accented

components_unfold_example :
    components 3 0 a_day
    ≡ and_then (add_component 0 a_day) λ (sum, rest). components (length rest) sum rest
components_unfold_example = components_unfold 0 b'2' (b'4' ∷ b'h' ∷ [])
