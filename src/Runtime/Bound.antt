-- ===== src/Runtime/Bound.antt =====
-- What `bind_ssh_template` returns: a template guarded for the key, on which it does nothing more.

use grafhome_ca.Keys.{canonical_ssh_public_key}
use grafhome_ca.External.{External}
use grafhome_ca.Policy.Checked.{>>=-accepted, expect, lift-accepted}
use mathlib.Core.List.{append_assoc}
use grafhome_ca.Runtime.Certificates.{first_line}
use grafhome_ca.Runtime.Binding.{
  bind_blob, guard, key_prefix, key_suffix, ssh_marker, guard_rest, bind_ssh_template,
  ssh_public_key_blob,
}
use grafhome_ca.Base.{
  Option-cases, Text, [], arith, contains_byte, contains_byte-append, false, inl, inr, none, ok,
  some, starts_with, strip_suffix, strip_suffix-eq-some, true, ◌++◌, ◌∷◌, ◌≡◌, ℕ, Bool-cases,
  eq_text, eq_text_refl, ok-injective, refl, split_once, split_once-append, strip_prefix-append,
  text, ◌&&◌, eq_text_iff, Option, newline-IsBlank, return-IsBlank, second_word, second_word-blank,
  ◌⊎◌,
}

single_line :
    (w : ℕ) (b : Text)
    → contains_byte w key_prefix ≡ false
    → contains_byte w key_suffix ≡ false
    → contains_byte w b ≡ false
    → contains_byte w (ssh_marker b) ≡ false
unfolding ssh_marker
single_line w b p s h =
    contains_byte-append w key_prefix (b ++ key_suffix) p (contains_byte-append w b key_suffix h s)

contains_byte-last : (w : ℕ) (s : Text) → contains_byte w (s ++ w ∷ []) ≡ true
unfolding contains_byte
contains_byte-last w [] = ground arith
contains_byte-last w (c ∷ s) = ground (arith, contains_byte-last w s)

strip_suffix-absent :
    (w : ℕ) (s : Text) → contains_byte w s ≡ false → strip_suffix (w ∷ []) s ≡ none
strip_suffix-absent w s h = elim (Option-cases (strip_suffix (w ∷ []) s)) [
  | inl e ↦ e
  | inr (t, e) ↦
      let parts = strip_suffix-eq-some (w ∷ []) s t e in let last = contains_byte-last w t in cc
]

-- A blob is one word.
abbrev pub IsLine : Text → Type 0
IsLine b = (contains_byte 10 b ≡ false) × (contains_byte 13 b ≡ false)

split_once-nil : split_once 10 [] ≡ none
unfolding split_once
split_once-nil = refl

first_line-split :
    (s l r : Text)
    → split_once 10 s ≡ some (l, r)
    → strip_suffix (13 ∷ []) l ≡ none
    → first_line s ≡ some l
unfolding first_line
first_line-split [] l r h k = let nothing = split_once-nil in cc
first_line-split (c ∷ s) l r h k = rw (h, first_line, k) refl

module _ (b : Text) (line : IsLine b) where
  prefix_line : (contains_byte 10 key_prefix ≡ false) × (contains_byte 13 key_prefix ≡ false)
  unfolding contains_byte text
  prefix_line = (refl, refl)

  suffix_line : (contains_byte 10 key_suffix ≡ false) × (contains_byte 13 key_suffix ≡ false)
  unfolding contains_byte text
  suffix_line = (refl, refl)

  first_line-guard : (t : Text) → first_line (guard b ++ t) ≡ some (ssh_marker b)
  unfolding guard
  first_line-guard t =
      let joined : guard b ++ t ≡ ssh_marker b ++ 10 ∷ (guard_rest b ++ t) =
        append_assoc (ssh_marker b) (10 ∷ guard_rest b) t in
      rw joined (
        first_line-split (ssh_marker b ++ 10 ∷ (guard_rest b ++ t)) (ssh_marker b)
          (guard_rest b ++ t)
          (split_once-append 10 (ssh_marker b) (guard_rest b ++ t)
            (single_line 10 b prefix_line.0 suffix_line.0 line.0))
          (strip_suffix-absent 13 (ssh_marker b)
            (single_line 13 b prefix_line.1 suffix_line.1 line.1)))

  marker_starts : starts_with key_prefix (ssh_marker b) ≡ true
  unfolding ssh_marker starts_with
  marker_starts = rw (strip_prefix-append key_prefix (b ++ key_suffix)) refl

  guard_starts : (t : Text) → starts_with (guard b) (guard b ++ t) ≡ true
  unfolding starts_with
  guard_starts t = rw (strip_prefix-append (guard b) t) refl

  kept_as_is :
      (s : Text)
      → first_line s ≡ some (ssh_marker b)
      → starts_with (guard b) s ≡ true
      → bind_blob s b ≡ ok s
  unfolding bind_blob
  kept_as_is s e k = rw (e, bind_blob, marker_starts, eq_text_refl (ssh_marker b), k) refl

  abbrev pub Settled : Text → Type 0
  Settled s = (starts_with (guard b) s ≡ true) × (bind_blob s b ≡ ok s)

  prepended : (t bound : Text) → guard b ++ t ≡ bound → Settled bound
  prepended t bound e =
      rw (← e) (guard_starts t, kept_as_is (guard b ++ t) (first_line-guard t) (guard_starts t))

  bind_blob-guard : (t bound : Text) → bind_blob t b ≡ ok bound → Settled bound
  unfolding bind_blob
  bind_blob-guard t bound h = elim (Option-cases (first_line t)) [
    | inl e ↦ prepended t bound (ok-injective _ bound (rw (e, bind_blob) at h))
    | inr (l, e) ↦ elim (Bool-cases (starts_with key_prefix l)) [
      | inr p ↦ prepended t bound (ok-injective (guard b ++ t) bound (rw (e, p, bind_blob) at h))
      | inl p ↦ elim (Bool-cases (eq_text l (ssh_marker b) && starts_with (guard b) t)) [
        | inl q ↦
            let same : t ≡ bound = ok-injective t bound (rw (e, p, q, bind_blob) at h) in
            let marked : l ≡ ssh_marker b = ground (arith, eq_text_iff l (ssh_marker b)) in
            let guarded : starts_with (guard b) t ≡ true = ground arith in
            rw (← same) (guarded, kept_as_is t (rw marked at e) guarded)
        | inr q ↦ cc (rw (e, p, q, bind_blob) at h)
      ]
    ]
  ]

Sum-cases {ℓ κ} :
    {A : Type ℓ} {B : Type κ} (s : A ⊎ B) → ((a : A) × (s ≡ inl a)) ⊎ ((b : B) × (s ≡ inr b))
Sum-cases (inl a) = inl (a, refl)
Sum-cases (inr b) = inr (b, refl)

expect-value {ℓ} : {A : Type ℓ} (o : Option A) (a : A) → expect o ≡ some (ok a) → o ≡ some a
expect-value none a h = cc
expect-value (some b) a h = ground arith

module _ (x : External) where
  blob-IsLine : (key b : Text) → ssh_public_key_blob x key ≡ some (ok b) → IsLine b
  unfolding ssh_public_key_blob
  blob-IsLine key b h = elim (Sum-cases (canonical_ssh_public_key x key)) [
    | inl ((canonical, fp), e) ↦
        let word : second_word canonical ≡ some b =
          expect-value (second_word canonical) b (rw (e, ssh_public_key_blob) at h) in
        (
          second_word-blank 10 canonical b newline-IsBlank word,
          second_word-blank 13 canonical b return-IsBlank word,
        )
    | inr (message, e) ↦ cc (rw (e, ssh_public_key_blob) at h)
  ]

  -- A template that binding returns begins with the guard for the blob of that very key, and
  -- binding it to the key once more returns it unchanged.
  pub bind_ssh_template-guard :
      (template key bound : Text)
      → bind_ssh_template x template key ≡ some (ok bound)
      → (b : Text) × (ssh_public_key_blob x key ≡ some (ok b))
        × (starts_with (guard b) bound ≡ true)
        × (bind_ssh_template x bound key ≡ some (ok bound))
  unfolding bind_ssh_template
  bind_ssh_template-guard template key bound h =
      let (b, e, h1) = >>=-accepted (ssh_public_key_blob x key) _ h in
      let (starts, again) =
        bind_blob-guard b (blob-IsLine key b e) template bound
          (lift-accepted (bind_blob template b) h1) in
      (b, e, starts, rw (e, bind_ssh_template, again) refl)
