-- ===== src/Policy/Duration/Accepted.antt =====
-- Which durations `validate_step_duration` accepts, and how accepted durations compare.
use grafhome_ca.Policy.Duration.{
  leading_zero, number_from, split_last, valid_step_duration_expression, validate_step_duration,
  and_then-eq-some, duration_at_most, duration_nanoseconds, i64_max, is_valid_duration,
}
use grafhome_ca.Policy.Duration.Value.{
  IsUnit, hours, minutes, seconds, duration_nanoseconds-single, split_last-append,
}
use grafhome_ca.Base.{
  ◌≡◌, Bool-cases, Text, [], all, arith, eq_text, eq_text_iff, false, inl, inr, is_ascii_digit,
  is_empty, ok, refl, some, text, true, ◌*◌, ◌++◌, ◌<◌, ◌^◌, ◌||◌, ◌∷◌, ℕ, Result, ap, ensure-eq-ok,
  leb, ◌↔◌, ◌∙◌, none, leb→le, ◌≤◌,
}

-- A duration that a policy may hold: digits without a leading zero, and one unit.
pub record IsPlain (d : Text) : Type 0 where
  pub digits : Text
  pub suffix : ℕ
  pub nanoseconds : ℕ
  pub its_unit : IsUnit (suffix ∷ []) nanoseconds
  pub written : d ≡ digits ++ suffix ∷ []
  pub some_digit : is_empty digits ≡ false
  pub no_zero : leading_zero digits ≡ false
  pub all_digits : all is_ascii_digit digits ≡ true
  pub fits : number_from 0 digits * nanoseconds < 2 ^ 63

some_inj : (a b : Result (Unit {0})) → some a ≡ some b → a ≡ b
some_inj a b h = ground arith

within : (n : ℕ) → n < 2 ^ 63 → leb n i64_max ≡ true
within n h = ground arith

-- A text that is one of the three units.
is_unit :
    (s : Text)
    → (eq_text s (text "s") || eq_text s (text "m") || eq_text s (text "h")) ≡ true
    → (u : ℕ) × (k : ℕ) × (s ≡ u ∷ []) × IsUnit (u ∷ []) k
unfolding text
is_unit s h = elim (Bool-cases (eq_text s (b's' ∷ []))) [
  | inl e ↦ (b's', 1000000000, (eq_text_iff s _).0 e, seconds)
  | inr e ↦ elim (Bool-cases (eq_text s (b'm' ∷ []))) [
    | inl f ↦ (b'm', 60000000000, (eq_text_iff s _).0 f, minutes)
    | inr f ↦ (b'h', 3600000000000, (eq_text_iff s _).0 (ground arith), hours)
  ]
]

unit_is :
    (u k : ℕ)
    → IsUnit (u ∷ []) k
    → (eq_text (u ∷ []) (text "s") || eq_text (u ∷ []) (text "m") || eq_text (u ∷ []) (text "h"))
      ≡ true
unfolding text eq_text
unit_is u k seconds = refl
unit_is u k minutes = refl
unit_is u k hours = refl

split_last-unit :
    (digits : Text) (u k : ℕ)
    → IsUnit (u ∷ []) k
    → split_last (digits ++ u ∷ []) ≡ some (digits, u ∷ [])
unfolding split_last
split_last-unit [] u k seconds = refl
split_last-unit [] u k minutes = refl
split_last-unit [] u k hours = refl
split_last-unit (b ∷ []) u k v = rw (split_last-unit [] u k v) refl
split_last-unit (b ∷ c ∷ s) u k v = rw (split_last-unit (c ∷ s) u k v) refl

valid-some :
    (d : Text) (n : ℕ) → duration_nanoseconds d ≡ some n → valid_step_duration_expression d ≡ true
unfolding valid_step_duration_expression
valid-some d n h = ground arith

valid-none : (d : Text) → duration_nanoseconds d ≡ none → valid_step_duration_expression d ≡ false
unfolding valid_step_duration_expression
valid-none d h = ground arith

expression-single :
    (digits : Text) (u k : ℕ)
    → IsUnit (u ∷ []) k
    → is_empty digits ≡ false
    → all is_ascii_digit digits ≡ true
    → (valid_step_duration_expression (digits ++ u ∷ []) ≡ true)
      ↔ (number_from 0 digits * k < 2 ^ 63)
unfolding valid_step_duration_expression
expression-single digits u k v some_digit a =
    let worth = duration_nanoseconds-single digits u k v some_digit a in
    elim (Bool-cases (leb (number_from 0 digits * k) i64_max)) [
      | inl q ↦ (
        λ _. ground arith,
        λ _. valid-some (digits ++ u ∷ []) (number_from 0 digits * k) (worth ∙ rw q refl),
      )
      | inr q ↦ (λ h. cc (valid-none (digits ++ u ∷ []) (worth ∙ rw q refl), h), λ h. ground arith)
    ]

valid_parts :
    (d digits suffix : Text)
    → is_valid_duration d digits suffix ≡ true
    → (is_empty digits ≡ false)
      × (leading_zero digits ≡ false)
      × (all is_ascii_digit digits ≡ true)
      × ((eq_text suffix (text "s") || eq_text suffix (text "m") || eq_text suffix (text "h"))
          ≡ true)
      × (valid_step_duration_expression d ≡ true)
unfolding is_valid_duration
valid_parts d digits suffix h = ground arith

module _ (table row_id field d : Text) where
  accepted-IsPlain : validate_step_duration table row_id field d ≡ some (ok tt) → IsPlain d
  unfolding validate_step_duration
  accepted-IsPlain h =
      let ((digits, suffix), s, h1) = and_then-eq-some (split_last d) _ h in
      let checks = (ensure-eq-ok (is_valid_duration d digits suffix) _).0 (some_inj _ _ h1) in
      let (n, z, a, t, e) = valid_parts d digits suffix checks in
      let (u, k, same, v) = is_unit suffix t in
      let whole : d ≡ digits ++ u ∷ [] =
        split_last-append d digits suffix s ∙ ap (λ w. digits ++ w) same in
      record {
        digits = digits;
        suffix = u;
        nanoseconds = k;
        its_unit = v;
        written = whole;
        some_digit = n;
        no_zero = z;
        all_digits = a;
        fits = (expression-single digits u k v n a).0 (rw whole at e);
      }

  IsPlain-accepted : IsPlain d → validate_step_duration table row_id field d ≡ some (ok tt)
  unfolding validate_step_duration is_valid_duration
  IsPlain-accepted p = rw p.written (
      rw
        (
          split_last-unit p.digits p.suffix p.nanoseconds p.its_unit,
          p.some_digit,
          p.no_zero,
          p.all_digits,
          unit_is p.suffix p.nanoseconds p.its_unit,
          (expression-single p.digits p.suffix p.nanoseconds p.its_unit p.some_digit p.all_digits).1
              p.fits,
        )
        refl)

  -- `validate_step_duration` accepts exactly the texts that are digits without a leading zero
  -- followed by one of `s`, `m` and `h`, and whose worth in nanoseconds is below 2^63.
  pub validate_step_duration_iff :
      (validate_step_duration table row_id field d ≡ some (ok tt)) ↔ IsPlain d
  validate_step_duration_iff = (accepted-IsPlain, IsPlain-accepted)

-- An accepted duration is worth its number times its unit.
pub duration_nanoseconds-IsPlain :
    (d : Text) (p : IsPlain d)
    → duration_nanoseconds d ≡ some (number_from 0 p.digits * p.nanoseconds)
duration_nanoseconds-IsPlain d p =
    ap duration_nanoseconds p.written
    ∙ duration_nanoseconds-single p.digits p.suffix p.nanoseconds p.its_unit p.some_digit
        p.all_digits
    ∙ rw (within (number_from 0 p.digits * p.nanoseconds) p.fits) refl

-- `duration_at_most` is transitive.
pub duration_at_most_trans :
    (a b c : Text)
    → duration_at_most a b ≡ true
    → duration_at_most b c ≡ true
    → duration_at_most a c ≡ true
unfolding duration_at_most
duration_at_most_trans a b c p q = ground arith

at_most_worth :
    (a b : Text) (m n : ℕ)
    → duration_nanoseconds a ≡ some m
    → duration_nanoseconds b ≡ some n
    → duration_at_most a b ≡ leb m n
unfolding duration_at_most
at_most_worth a b m n h k = rw (h, k, duration_at_most) refl

-- Between two accepted durations, `duration_at_most` is the order of their worths in nanoseconds.
pub duration_at_most-IsPlain :
    (a b : Text) (p : IsPlain a) (q : IsPlain b)
    → (duration_at_most a b ≡ true)
      ↔ (number_from 0 p.digits * p.nanoseconds ≤ number_from 0 q.digits * q.nanoseconds)
duration_at_most-IsPlain a b p q =
    rw
      (at_most_worth a b (number_from 0 p.digits * p.nanoseconds)
        (number_from 0 q.digits * q.nanoseconds) (duration_nanoseconds-IsPlain a p)
        (duration_nanoseconds-IsPlain b q))
      (
        leb→le (number_from 0 p.digits * p.nanoseconds) (number_from 0 q.digits * q.nanoseconds),
        λ l. ground arith,
      )
