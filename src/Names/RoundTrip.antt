-- ===== src/Names/RoundTrip.antt =====
-- Provisioner names decode to the identities that they were made of, and no two identities share
-- a name, a user prefix or a host suffix.
use mathlib.Core.List.{append_assoc}
use grafhome_ca.Base.{
  ◌≡◌, refl, true, false, some, ◌∷◌, ◌++◌, arith, Text, text, eq_text_refl, strip_prefix,
  strip_prefix-append, split_once, split_once-append, is_empty, is_utf8, is_utf8-IsByte, sym, ap,
  ◌∙◌,
}
use grafhome_ca.Names.{
  encode_identity, user_provisioner_name, host_provisioner_name, parse_user_provisioner_name,
  parse_host_provisioner_name, x509_provisioner_name, parse_x509_provisioner_name,
}
use grafhome_ca.Names.Hex.{decode-encode, no_dash-encode}

pub dash : (s : Text) → text "-" ++ s ≡ b'-' ∷ s
unfolding text
dash s = refl

module _ (u h : Text) where
  -- The name with the dash in the form that `split_once` reads.
  pub user_name_parts :
      user_provisioner_name u h
      ≡ text "grafhome-user-" ++ (encode_identity u ++ b'-' ∷ encode_identity h)
  unfolding user_provisioner_name
  user_name_parts = simp (append_assoc, dash)

  strip-x509_provisioner_name :
      strip_prefix (text "grafhome-x509-") (x509_provisioner_name u h)
      ≡ some (encode_identity u ++ b'-' ∷ encode_identity h)
  unfolding x509_provisioner_name
  strip-x509_provisioner_name = simp (dash, strip_prefix-append)

  pub split-encoded :
      is_utf8 u ≡ true
      → split_once b'-' (encode_identity u ++ b'-' ∷ encode_identity h)
        ≡ some (encode_identity u, encode_identity h)
  split-encoded p =
      split_once-append b'-' (encode_identity u) (encode_identity h)
        (no_dash-encode u (is_utf8-IsByte u p))

  -- The name of one user's provisioner on one host parses to that user and host, for any two
  -- Rust strings.
  pub parse-user_provisioner_name :
      is_utf8 u ≡ true
      → is_utf8 h ≡ true
      → parse_user_provisioner_name (user_provisioner_name u h) ≡ some (u, h)
  unfolding parse_user_provisioner_name
  parse-user_provisioner_name p q =
      simp (
        user_name_parts,
        strip_prefix-append,
        split-encoded p,
        decode-encode u p,
        decode-encode h q,
      )

  -- The name of a certificate's provisioner parses to its host and its name, for any two Rust
  -- strings that are not empty.
  pub parse-x509_provisioner_name :
      is_utf8 u ≡ true
      → is_utf8 h ≡ true
      → is_empty u ≡ false
      → is_empty h ≡ false
      → parse_x509_provisioner_name (x509_provisioner_name u h) ≡ some (u, h)
  unfolding parse_x509_provisioner_name
  parse-x509_provisioner_name p q r s = simp (
    strip-x509_provisioner_name,
    split-encoded p,
    decode-encode u p,
    decode-encode h q,
    r,
    s,
    eq_text_refl,
  )

-- The name of a host's provisioner parses to the host, for any Rust string.
pub parse-host_provisioner_name :
    (h : Text) → is_utf8 h ≡ true → parse_host_provisioner_name (host_provisioner_name h) ≡ some h
unfolding parse_host_provisioner_name host_provisioner_name
parse-host_provisioner_name h q = simp (strip_prefix-append, decode-encode h q)

-- Two users or two hosts never share a provisioner name.
pub user_provisioner_name-injective :
    (u h v k : Text)
    → is_utf8 u ≡ true
    → is_utf8 h ≡ true
    → is_utf8 v ≡ true
    → is_utf8 k ≡ true
    → user_provisioner_name u h ≡ user_provisioner_name v k
    → (u ≡ v) × (h ≡ k)
user_provisioner_name-injective u h v k pu ph pv pk e =
    let same =
      sym (parse-user_provisioner_name u h pu ph)
      ∙ (ap parse_user_provisioner_name e ∙ parse-user_provisioner_name v k pv pk) in
    ground arith
