-- ===== src/Names/Select.antt =====
-- The prefix of a user and the suffix of a host select exactly the provisioners of that user and
-- that host; a name parses as an X.509 provisioner's only if it is the canonical one.
use mathlib.Core.Path.{subst}
use mathlib.Core.List.{append_assoc, reverse, reverse-append, reverse-cons, reverse-reverse}
use mathlib.Core.Option
use grafhome_ca.Base.{
  contains_byte-append, ends_with, strip_suffix, ℕ, ◌≡◌, ◌↔◌, refl, true, false, not, ◌&&◌, Option,
  none, some, [], ◌∷◌, ◌++◌, arith, if◌then◌else◌, Text, text, eq_text, eq_text_iff, strip_prefix,
  strip_prefix-append, strip_prefix-eq-some, starts_with, split_once, split_once-append,
  contains_byte, is_empty, is_utf8, is_utf8-IsByte, Option-cases, inl, inr,
}
use grafhome_ca.Names.{
  ◌>>=◌, encode_identity, decode_identity, user_provisioner_prefix, user_provisioner_name,
  user_provisioner_host_suffix, x509_provisioner_name, parse_x509_provisioner_name,
}
use grafhome_ca.Names.Hex.{decode-encode, no_dash-encode}
use grafhome_ca.Names.RoundTrip.{dash, user_name_parts, split-encoded}

encode-injective :
    (u v : Text)
    → is_utf8 u ≡ true
    → is_utf8 v ≡ true
    → encode_identity u ≡ encode_identity v
    → u ≡ v
encode-injective u v p q e = cc (decode-encode u p, decode-encode v q, e)

-- What follows the fixed part of a user name, split at its dash.
after_user : Text → Option (Option (Text × Text))
after_user name = Option.map (split_once b'-') (strip_prefix (text "grafhome-user-") name)

after_user-name :
    (u h : Text)
    → is_utf8 u ≡ true
    → after_user (user_provisioner_name u h) ≡ some (some (encode_identity u, encode_identity h))
unfolding after_user
after_user-name u h p = simp (user_name_parts, strip_prefix-append, split-encoded u h p)

after_user-prefix :
    (u t : Text)
    → is_utf8 u ≡ true
    → after_user (user_provisioner_prefix u ++ t) ≡ some (some (encode_identity u, t))
unfolding after_user user_provisioner_prefix
after_user-prefix u t p = simp (
  append_assoc,
  dash,
  strip_prefix-append,
  split_once-append b'-' (encode_identity u) t (no_dash-encode u (is_utf8-IsByte u p)),
)

module _ (u v h : Text) (pu : is_utf8 u ≡ true) (pv : is_utf8 v ≡ true) where
  prefix_sound :
      (t : Text)
      → strip_prefix (user_provisioner_prefix u) (user_provisioner_name v h) ≡ some t
      → u ≡ v
  prefix_sound t e = encode-injective u v pu pv (
      ground (
        arith,
        after_user-name v h pv,
        after_user-prefix u t pu,
        strip_prefix-eq-some (user_provisioner_prefix u) (user_provisioner_name v h) t e,
      ))

  prefix_complete :
      u ≡ v
      → strip_prefix (user_provisioner_prefix u) (user_provisioner_name v h)
        ≡ some (encode_identity h)
  unfolding user_provisioner_name
  prefix_complete e = rw e (strip_prefix-append (user_provisioner_prefix v) (encode_identity h))

  found : starts_with (user_provisioner_prefix u) (user_provisioner_name v h) ≡ true → u ≡ v
  unfolding starts_with
  found e =
      elim (Option-cases (strip_prefix (user_provisioner_prefix u) (user_provisioner_name v h))) [
        | inl k ↦ cc (rw (k, starts_with) at e)
        | inr (t, k) ↦ prefix_sound t k
      ]

  always : u ≡ v → starts_with (user_provisioner_prefix u) (user_provisioner_name v h) ≡ true
  unfolding starts_with
  always e = rw (prefix_complete e)

  -- For any Rust strings as users, a user's prefix starts the name of another user's provisioner
  -- never, and of an own one always.
  pub starts_with-user_provisioner_prefix :
      (starts_with (user_provisioner_prefix u) (user_provisioner_name v h) ≡ true) ↔ (u ≡ v)
  unfolding starts_with
  starts_with-user_provisioner_prefix = (found, always)

contains_byte-reverse :
    (b : ℕ) (s : Text) → contains_byte b s ≡ false → contains_byte b (reverse s) ≡ false
unfolding contains_byte
contains_byte-reverse b [] p = refl
contains_byte-reverse b (c ∷ s) p = rw reverse-cons (
    contains_byte-append b (reverse s) (c ∷ []) (contains_byte-reverse b s (ground arith))
      (ground arith))

reverse_suffix :
    (h : Text) → reverse (user_provisioner_host_suffix h) ≡ reverse (encode_identity h) ++ b'-' ∷ []
unfolding user_provisioner_host_suffix
reverse_suffix h = simp (dash, reverse-cons)

reverse_name :
    (v k : Text)
    → reverse (user_provisioner_name v k)
      ≡ reverse (encode_identity k) ++ b'-' ∷ reverse (text "grafhome-user-" ++ encode_identity v)
reverse_name v k = simp (user_name_parts, reverse-append, reverse-cons, append_assoc)

split_reversed :
    (k rest : Text)
    → is_utf8 k ≡ true
    → split_once b'-' (reverse (encode_identity k) ++ b'-' ∷ rest)
      ≡ some (reverse (encode_identity k), rest)
split_reversed k rest p =
    split_once-append b'-' (reverse (encode_identity k)) rest
      (contains_byte-reverse b'-' (encode_identity k) (no_dash-encode k (is_utf8-IsByte k p)))

cut_at_dash : (r rest : Text) → strip_prefix (r ++ b'-' ∷ []) (r ++ b'-' ∷ rest) ≡ some rest
cut_at_dash r rest =
    subst (λ w. strip_prefix (r ++ b'-' ∷ []) w ≡ some rest) (append_assoc r (b'-' ∷ []) rest)
      (strip_prefix-append (r ++ b'-' ∷ []) rest)

module _ (h v k : Text) (ph : is_utf8 h ≡ true) (pk : is_utf8 k ≡ true) where
  suffix_sound :
      (t : Text)
      → strip_prefix
          (reverse (user_provisioner_host_suffix h))
          (reverse (user_provisioner_name v k))
        ≡ some t
      → h ≡ k
  suffix_sound t e =
      let whole = strip_prefix-eq-some _ _ t e in
      let joined = append_assoc (reverse (encode_identity h)) (b'-' ∷ []) t in
      let codes : reverse (encode_identity h) ≡ reverse (encode_identity k) = ground (
        arith,
        split_reversed k (reverse (text "grafhome-user-" ++ encode_identity v)) pk,
        split_reversed h t ph,
        reverse_name v k,
        reverse_suffix h,
        joined,
        whole,
      ) in
      encode-injective h k ph pk
        (cc (codes, reverse-reverse (encode_identity h), reverse-reverse (encode_identity k)))

  suffix_stripped :
      h ≡ k
      → strip_prefix
          (reverse (user_provisioner_host_suffix h))
          (reverse (user_provisioner_name v k))
        ≡ some (reverse (text "grafhome-user-" ++ encode_identity v))
  suffix_stripped e =
      rw (e, reverse_suffix, reverse_name)
        (cut_at_dash (reverse (encode_identity k))
          (reverse (text "grafhome-user-" ++ encode_identity v)))

  host_found : ends_with (user_provisioner_host_suffix h) (user_provisioner_name v k) ≡ true → h ≡ k
  unfolding ends_with
  host_found e =
      elim (Option-cases (
        strip_prefix (reverse (user_provisioner_host_suffix h))
          (reverse (user_provisioner_name v k)))) [
            | inl m ↦ cc (rw (m, ends_with, strip_suffix) at e)
            | inr (t, m) ↦ suffix_sound t m
          ]

  host_always :
      h ≡ k → ends_with (user_provisioner_host_suffix h) (user_provisioner_name v k) ≡ true
  unfolding ends_with
  host_always e = rw (suffix_stripped e)

  -- For any Rust strings as hosts, a host's suffix ends the user provisioner names of that host,
  -- whoever the user is, and no others.
  pub ends_with-user_provisioner_host_suffix :
      (ends_with (user_provisioner_host_suffix h) (user_provisioner_name v k) ≡ true) ↔ (h ≡ k)
  unfolding ends_with
  ends_with-user_provisioner_host_suffix = (host_found, host_always)

>>=-eq-some {ℓ κ} :
    {A : Type ℓ} {B : Type κ} (m : Option A) (f : A → Option B) {b : B}
    → (m >>= f) ≡ some b
    → (a : A) × (m ≡ some a) × (f a ≡ some b)
>>=-eq-some none f h = cc
>>=-eq-some (some a) f h = (a, refl, h)

kept :
    (name h c h' c' : Text)
    → ◌≡◌ {A = Option (Text × Text)}
        (if not (is_empty h') && not (is_empty c') && eq_text (x509_provisioner_name h' c') name
          then some (h', c')
          else none)
        (some (h, c))
    → (name ≡ x509_provisioner_name h c) × (is_empty h ≡ false) × (is_empty c ≡ false)
kept name h c h' c' e = ground (arith, eq_text_iff (x509_provisioner_name h' c') name)

-- A name parses as an X.509 provisioner's only in the exact form that `x509_provisioner_name` gives,
-- and only to a host and a name that are not empty.
pub parse_x509_provisioner_name-eq-some :
    (name h c : Text)
    → parse_x509_provisioner_name name ≡ some (h, c)
    → (name ≡ x509_provisioner_name h c) × (is_empty h ≡ false) × (is_empty c ≡ false)
unfolding parse_x509_provisioner_name
parse_x509_provisioner_name-eq-some name h c e =
    let (encoded, _, e1) = >>=-eq-some (strip_prefix (text "grafhome-x509-") name) _ e in
    let ((x, y), _, e2) = >>=-eq-some (split_once b'-' encoded) _ e1 in
    let (h', _, e3) = >>=-eq-some (decode_identity x) _ e2 in
    let (c', _, e4) = >>=-eq-some (decode_identity y) _ e3 in kept name h c h' c' e4
