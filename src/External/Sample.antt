-- ===== src/External/Sample.antt =====
-- An `External` to run the program with: JSON of strings, Booleans, arrays and objects, codings that are the identity.
use grafhome_ca.External.{External}
use grafhome_ca.Base.{
  ◌≡◌, Bool, Option, Text, [], eq_text, eq_text_refl, false, if◌then◌else◌, inl, is_ascii_digit,
  none, refl, some, true, ◌&&◌, ◌∷◌, List, ap, not,
}

mutual
  pub data Json : Type 0 where
    string : Text → Json
    boolean : Bool → Json
    array : Items → Json
    object : Members → Json

  pub data Items : Type 0 where
    no_items : Items
    an_item : Json → Items → Items

  pub data Members : Type 0 where
    no_members : Members
    member : Text → Json → Members → Members

abbrev same_bool : Bool → Bool → Bool
same_bool true b = b
same_bool false b = not b

abbrev mutual
  pub json_eq : Json → Json → Bool
  json_eq (string s) (string t) = eq_text s t
  json_eq (boolean a) (boolean b) = same_bool a b
  json_eq (array v) (array w) = items_eq v w
  json_eq (object m) (object n) = members_eq m n
  json_eq _ _ = false

  pub items_eq : Items → Items → Bool
  items_eq no_items no_items = true
  items_eq (an_item v m) (an_item w n) = json_eq v w && items_eq m n
  items_eq _ _ = false

  pub members_eq : Members → Members → Bool
  members_eq no_members no_members = true
  members_eq (member k v m) (member j w n) = eq_text k j && json_eq v w && members_eq m n
  members_eq _ _ = false

mutual
  pub json_eq_refl : (v : Json) → json_eq v v ≡ true
  json_eq_refl (string s) = eq_text_refl s
  json_eq_refl (boolean true) = refl
  json_eq_refl (boolean false) = refl
  json_eq_refl (array v) = items_eq_refl v
  json_eq_refl (object m) = members_eq_refl m

  pub items_eq_refl : (v : Items) → items_eq v v ≡ true
  items_eq_refl no_items = refl
  items_eq_refl (an_item v m) = rw (json_eq_refl v, items_eq_refl m) refl

  pub members_eq_refl : (m : Members) → members_eq m m ≡ true
  members_eq_refl no_members = refl
  members_eq_refl (member k v m) = rw (eq_text_refl k, json_eq_refl v, members_eq_refl m) refl

abbrev pub to_items : List Json → Items
to_items [] = no_items
to_items (v ∷ vs) = an_item v (to_items vs)

abbrev pub listed : Items → List Json
listed no_items = []
listed (an_item v m) = v ∷ listed m

pub listed-to_items : (vs : List Json) → listed (to_items vs) ≡ vs
listed-to_items [] = refl
listed-to_items (v ∷ vs) = ap (λ m. v ∷ m) (listed-to_items vs)

abbrev pub array_of : Json → Option (List Json)
array_of (array m) = some (listed m)
array_of _ = none

abbrev pub lookup : Members → Text → Option Json
lookup no_members k = none
lookup (member j v m) k = if eq_text j k then some v else lookup m k

abbrev pub is_an_object : Json → Bool
is_an_object (object m) = true
is_an_object _ = false

abbrev pub get_member : Json → Text → Option Json
get_member (object m) k = lookup m k
get_member _ k = none

abbrev pub insert_member : Json → Text → Json → Json
insert_member (object m) k v = object (member k v m)
insert_member o k v = o

abbrev pub string_of : Json → Option Text
string_of (string s) = some s
string_of _ = none

pub get_inserted :
    (o : Json) (k : Text) (v : Json) (j : Text)
    → is_an_object o ≡ true
    → get_member (insert_member o k v) j ≡ (if eq_text k j then some v else get_member o j)
get_inserted (object m) k v j h = refl
get_inserted (string s) k v j h = cc
get_inserted (boolean b) k v j h = cc
get_inserted (array m) k v j h = cc

pub object_inserted :
    (o : Json) (k : Text) (v : Json)
    → is_an_object o ≡ true
    → is_an_object (insert_member o k v) ≡ true
object_inserted (object m) k v h = refl
object_inserted (string s) k v h = cc
object_inserted (boolean b) k v h = cc
object_inserted (array m) k v h = cc

pub object_with : (o : Json) (k : Text) (v : Json) → get_member o k ≡ some v → is_an_object o ≡ true
object_with (object m) k v h = refl
object_with (string s) k v h = cc
object_with (boolean b) k v h = cc
object_with (array m) k v h = cc

abbrev pub starts_with_digit : Text → Option (Unit {0})
starts_with_digit [] = none
starts_with_digit (b ∷ s) = if is_ascii_digit b then some tt else none

abbrev pub sample : External
sample = record {
  Value = Json;
  value_eq = json_eq;
  value_eq_refl = json_eq_refl;
  is_object = is_an_object;
  get = get_member;
  as_str = string_of;
  string = string;
  empty_object = object no_members;
  insert = insert_member;
  to_vec = λ v. [];
  bool = boolean;
  array = λ vs. array (to_items vs);
  as_array = array_of;
  as_array-array = λ vs. ap (λ l. some l) (listed-to_items vs);
  as_str-string = λ t. refl;
  is_object-empty = refl;
  get-empty = λ k. refl;
  is_object-insert = object_inserted;
  get-is_object = object_with;
  get-insert = get_inserted;
  sha256 = λ t. t;
  encode_url_safe = λ t. t;
  encode_standard = λ t. t;
  encode_standard_no_pad = λ t. t;
  decode_standard = λ t. some t;
  PublicKey = Text;
  from_openssh = λ t. inl t;
  set_comment = λ k c. k;
  to_openssh = λ k. inl k;
  ssh_fingerprint = λ k. k;
  Time = Unit {0};
  parse_rfc3339 = starts_with_digit;
  offset_is_utc = λ t. true;
}
