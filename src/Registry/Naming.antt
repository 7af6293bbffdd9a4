-- ===== src/Registry/Naming.antt =====
-- The printed identity of a record with valid names tells its logical identity.
use grafhome_ca.Base.{
  ℕ, ◌≡◌, refl, ap, Bool, true, false, ◌&&◌, [], ◌∷◌, ◌++◌, ◌==◌, arith, all, Text, text, eq_text,
  eq_text_iff, eq_text_refl, contains_byte, split_once-append, strip_suffix, strip_prefix-append,
  ok, Bool-cases, Option-cases, inl, inr, &&-eq-true, strip_suffix-eq-some, ==_iff,
  contains_byte-append,
}
use grafhome_ca.External.{External}
use grafhome_ca.Names.{x509_identity}
use grafhome_ca.Identity.{
  is_host_byte, is_user_byte, is_user_base, valid_host_identity, valid_user_identity,
  validate_host_name, validate_user_name,
}
use grafhome_ca.Registry.Record.{EnrollmentRecord, host, user, x509, identity, same_identity}
use grafhome_ca.Registry.Pending.{validate_names}

all_no_at :
    (p : ℕ → Bool) → p b'@' ≡ false → (s : Text) → all p s ≡ true → contains_byte b'@' s ≡ false
unfolding contains_byte
all_no_at p at [] h = refl
all_no_at p at (c ∷ s) h = elim (Bool-cases (c == b'@')) [
  | inl e ↦ cc (at, (&&-eq-true (p c) (all p s) h).0, (==_iff c b'@').0 e)
  | inr e ↦ rw e (all_no_at p at s (&&-eq-true (p c) (all p s) h).1)
]

host_no_at : (h : Text) → valid_host_identity h ≡ true → contains_byte b'@' h ≡ false
unfolding valid_host_identity
host_no_at h v = all_no_at is_host_byte refl h (ground arith)

user_base_no_at : (s : Text) → is_user_base s ≡ true → contains_byte b'@' s ≡ false
unfolding contains_byte
user_base_no_at [] v = refl
user_base_no_at (c ∷ s) v = ground (arith, all_no_at is_user_byte refl s)

user_no_at : (u : Text) → valid_user_identity u ≡ true → contains_byte b'@' u ≡ false
unfolding valid_user_identity contains_byte
user_no_at u v = elim (Option-cases (strip_suffix (b'$' ∷ []) u)) [
  | inl e ↦ user_base_no_at u (ground (arith, v, e))
  | inr (base, e) ↦ rw (strip_suffix-eq-some (b'$' ∷ []) u base e) (
      contains_byte-append b'@' base (b'$' ∷ []) (user_base_no_at base (ground (arith, v, e))) refl)
]

-- The part behind the kind splits at its one `@`.
split_identity :
    (a h a' h' : Text)
    → contains_byte b'@' a ≡ false
    → contains_byte b'@' a' ≡ false
    → a ++ (text "@" ++ h) ≡ a' ++ (text "@" ++ h')
    → (a ≡ a') × (h ≡ h')
unfolding text
split_identity a h a' h' p p' e =
    ground (arith, split_once-append b'@' a h p, split_once-append b'@' a' h' p', e)

prefix_cancel : (p s t : Text) → p ++ s ≡ p ++ t → s ≡ t
prefix_cancel p s t e = ground (arith, strip_prefix-append p s, strip_prefix-append p t, e)

-- The first byte of a printed identity tells its kind.
abbrev kind_byte : Text → ℕ
kind_byte [] = 0
kind_byte (c ∷ s) = c

both_true : (a b a' b' : Text) → (a ≡ a') × (b ≡ b') → (eq_text a a' && eq_text b b') ≡ true
both_true a b a' b' (p, q) = simp (p, q, eq_text_refl)

module _ (x : External) where
  open x use {Value}

  -- Records with valid names that print the same identity have the same logical identity.
  pub identity_tells :
      (r s : EnrollmentRecord Value)
      → validate_names x [] r ≡ ok tt
      → validate_names x [] s ≡ ok tt
      → identity r ≡ identity s
      → same_identity r s ≡ true
  unfolding validate_names validate_host_name validate_user_name identity same_identity
      x509_identity
  identity_tells (host _ h _ _ _ _ _ _) (host _ h' _ _ _ _ _ _) v w e =
      (eq_text_iff h h').1 (prefix_cancel (text "host ") h h' e)
  identity_tells (user _ u h _ _ _ _ _ _) (user _ u' h' _ _ _ _ _ _) v w e = both_true u h u' h' (
      split_identity u h u' h' (user_no_at u (ground arith)) (user_no_at u' (ground arith))
        (prefix_cancel (text "user ") _ _ e))
  identity_tells (x509 _ h n _ _ _ _ _ _) (x509 _ h' n' _ _ _ _ _ _) v w e =
      let (p, q) =
        split_identity n h n' h' (host_no_at n (ground arith)) (host_no_at n' (ground arith))
          (prefix_cancel (text "x509 ") _ _ e) in
      both_true h n h' n' (q, p)
  identity_tells _ _ v w e = unfold text in absurd (omega (arith, ap kind_byte e))
