-- ===== src/Policy/Duration/Panic.antt =====
-- When `validate_step_duration` panics: its `split_at` takes a place that may be inside a character.
use grafhome_ca.Policy.Duration.{split_last, validate_step_duration}
use grafhome_ca.Base.{
  ◌≡◌, Option-cases, Text, [], ap, arith, in_range, inl, inr, none, refl, true, ◌++◌, ◌↔◌, ◌∷◌, ℕ,
}

-- The last byte does not begin a character.
abbrev pub EndsInside : Text → Type 0
EndsInside d = (front : Text) × (b : ℕ) × (d ≡ front ++ b ∷ []) × (in_range 128 191 b ≡ true)

split_last-none : (d : Text) → split_last d ≡ none → EndsInside d
unfolding split_last
split_last-none [] h = cc
split_last-none (b ∷ []) h = ([], b, refl, ground arith)
split_last-none (b ∷ c ∷ s) h = elim (Option-cases (split_last (c ∷ s))) [
  | inl e ↦ let (front, l, w, r) = split_last-none (c ∷ s) e in (b ∷ front, l, ap (λ t. b ∷ t) w, r)
  | inr (p, e) ↦ cc (rw (e, split_last) at h)
]

split_last-inside :
    (front : Text) (b : ℕ) → in_range 128 191 b ≡ true → split_last (front ++ b ∷ []) ≡ none
unfolding split_last
split_last-inside [] b h = rw h refl
split_last-inside (a ∷ []) b h = rw (split_last-inside [] b h) refl
split_last-inside (a ∷ c ∷ s) b h = rw (split_last-inside (c ∷ s) b h) refl

-- `validate_step_duration` panics exactly on the texts whose last byte is a continuation byte of
-- UTF-8, which are those that end in a character outside ASCII.
pub validate_step_duration_panics :
    (table row_id field d : Text)
    → (validate_step_duration table row_id field d ≡ none) ↔ EndsInside d
unfolding validate_step_duration
validate_step_duration_panics table row_id field d = (
  λ h. elim (Option-cases (split_last d)) [
    | inl e ↦ split_last-none d e
    | inr (p, e) ↦ cc (rw (e, validate_step_duration) at h)
  ],
  λ (front, b, w, r). rw (w, split_last-inside front b r) refl,
)
