-- ===== src/External.antt =====
-- What the program takes from other crates: serde_json's `Value`, the ssh-key, base64, sha2 and
-- time crates. The laws are those crates' documented behaviour.
pub mod Sample
use grafhome_ca.Base.{◌≡◌, Bool, true, if◌then◌else◌, Option, none, some, Text, eq_text, ◌⊎◌, List}

pub record External : Type 1 where
  -- serde_json
  pub Value : Type 0
  pub value_eq : Value → Value → Bool
  pub value_eq_refl : (v : Value) → value_eq v v ≡ true
  pub is_object : Value → Bool
  -- `Map::get` on an object; `none` on any other value
  pub get : Value → Text → Option Value
  pub as_str : Value → Option Text
  pub string : Text → Value
  -- `Value::Object(Map::new())`
  pub empty_object : Value
  -- `Map::insert` on an object
  pub insert : Value → Text → Value → Value
  pub to_vec : Value → Text
  pub bool : Bool → Value
  pub array : List Value → Value
  pub as_array : Value → Option (List Value)
  pub as_array-array : (vs : List Value) → as_array (array vs) ≡ some vs
  pub as_str-string : (t : Text) → as_str (string t) ≡ some t
  pub is_object-empty : is_object empty_object ≡ true
  pub get-empty : (k : Text) → get empty_object k ≡ none
  pub is_object-insert :
      (o : Value) (k : Text) (v : Value) → is_object o ≡ true → is_object (insert o k v) ≡ true
  pub get-is_object : (o : Value) (k : Text) (v : Value) → get o k ≡ some v → is_object o ≡ true
  pub get-insert :
      (o : Value) (k : Text) (v : Value) (j : Text)
      → is_object o ≡ true
      → get (insert o k v) j ≡ (if eq_text k j then some v else get o j)
  -- sha2
  pub sha256 : Text → Text
  -- base64: `URL_SAFE_NO_PAD`, `STANDARD` and `STANDARD_NO_PAD`
  pub encode_url_safe : Text → Text
  pub encode_standard : Text → Text
  pub encode_standard_no_pad : Text → Text
  pub decode_standard : Text → Option Text
  -- ssh-key: an error carries its printed text
  pub PublicKey : Type 0
  pub from_openssh : Text → PublicKey ⊎ Text
  pub set_comment : PublicKey → Text → PublicKey
  pub to_openssh : PublicKey → Text ⊎ Text
  pub ssh_fingerprint : PublicKey → Text
  -- time: RFC 3339
  pub Time : Type 0
  pub parse_rfc3339 : Text → Option Time
  pub offset_is_utc : Time → Bool
