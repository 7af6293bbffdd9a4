-- ===== src/Names/Tests.antt =====
-- The theorems on provisioner names at concrete names.
use grafhome_ca.Names.RoundTrip.{
  parse-host_provisioner_name, parse-user_provisioner_name, parse-x509_provisioner_name,
}
use grafhome_ca.Names.{
  host_provisioner_name, user_provisioner_name, user_provisioner_prefix, x509_provisioner_name,
  parse_host_provisioner_name, parse_user_provisioner_name, parse_x509_provisioner_name,
}
use grafhome_ca.Names.Select.{starts_with-user_provisioner_prefix}
use grafhome_ca.Base.{◌≡◌, Text, [], is_utf8, refl, some, starts_with, true, ◌↔◌, ◌∷◌}

abbrev alice : Text
alice = b'a' ∷ b'l' ∷ b'i' ∷ b'c' ∷ b'e' ∷ []

abbrev laptop : Text
laptop = b'l' ∷ b'a' ∷ b'p' ∷ []

parse-user_provisioner_name_example :
    parse_user_provisioner_name (user_provisioner_name alice laptop) ≡ some (alice, laptop)
unfolding is_utf8
parse-user_provisioner_name_example = parse-user_provisioner_name alice laptop refl refl

parse-host_provisioner_name_example :
    parse_host_provisioner_name (host_provisioner_name laptop) ≡ some laptop
unfolding is_utf8
parse-host_provisioner_name_example = parse-host_provisioner_name laptop refl

parse-x509_provisioner_name_example :
    parse_x509_provisioner_name (x509_provisioner_name laptop alice) ≡ some (laptop, alice)
unfolding is_utf8
parse-x509_provisioner_name_example = parse-x509_provisioner_name laptop alice refl refl refl refl

starts_with-user_provisioner_prefix_example :
    (starts_with (user_provisioner_prefix alice) (user_provisioner_name laptop alice) ≡ true)
    ↔ (alice ≡ laptop)
unfolding is_utf8
starts_with-user_provisioner_prefix_example =
    starts_with-user_provisioner_prefix alice laptop alice refl refl
