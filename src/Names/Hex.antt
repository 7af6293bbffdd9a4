-- ===== src/Names/Hex.antt =====
-- The hexadecimal coding of identities, and what its texts look like.
use grafhome_ca.Base.{
  ℕ, ◌/◌, ◌%◌, ◌<◌, ◌≡◌, refl, Bool, true, false, none, some, [], ◌∷◌, arith, ◌==◌, Text,
  contains_byte, holds_below, holds_below_sound, All, IsByte, length, is_utf8, is_utf8-IsByte,
}
use grafhome_ca.Names.{hex_char, encode_identity, decode_pair, decode_pairs, decode_identity}

-- What one byte of an identity decodes to.
decodes_to : ℕ → Bool
decodes_to b = elim (decode_pair (hex_char (b / 16)) (hex_char (b % 16))) [
  | none ↦ false
  | some byte ↦ byte == b
]

hex_table : holds_below decodes_to 256 ≡ true
unfolding holds_below decodes_to decode_pair hex_char is_utf8
hex_table = refl

decode_pair-hex_char :
    (b : ℕ) → b < 256 → decode_pair (hex_char (b / 16)) (hex_char (b % 16)) ≡ some b
unfolding decodes_to
decode_pair-hex_char b h = ground (arith, holds_below_sound decodes_to 256 b h hex_table)

decode_pairs-encode_identity : (s : Text) → All IsByte s → decode_pairs (encode_identity s) ≡ some s
unfolding decode_pairs encode_identity
decode_pairs-encode_identity [] h = refl
decode_pairs-encode_identity (b ∷ s) (p, h) =
    ground (arith, decode_pair-hex_char b p, decode_pairs-encode_identity s h)

length-encode_identity : (s : Text) → length (encode_identity s) % 2 ≡ 0
unfolding encode_identity
length-encode_identity [] = refl
length-encode_identity (b ∷ s) = omega (arith, length-encode_identity s)

-- Decoding inverts encoding on every Rust string.
pub decode-encode : (s : Text) → is_utf8 s ≡ true → decode_identity (encode_identity s) ≡ some s
unfolding decode_identity
decode-encode s h =
    ground (arith, h, length-encode_identity s, decode_pairs-encode_identity s (is_utf8-IsByte s h))

-- No dash stands in an encoded identity, so the first dash of a name ends the first identity.
pub no_dash-encode : (s : Text) → All IsByte s → contains_byte b'-' (encode_identity s) ≡ false
unfolding encode_identity contains_byte
no_dash-encode [] h = refl
no_dash-encode (b ∷ s) (p, h) = ground (arith, no_dash-encode s h)
