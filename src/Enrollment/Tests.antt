-- ===== src/Enrollment/Tests.antt =====
-- The theorems on enrollment documents at concrete documents.
use grafhome_ca.Enrollment.Laws.{validate_user_request-public}
use grafhome_ca.Keys.{contains_key, get_str}
use grafhome_ca.Enrollment.{
  UserGrant, UserRequest, user_grant_kind, user_request_kind, validate_user_grant,
  validate_user_request, nonempty, validate_header, validate_public_material, validate_fingerprint,
}
use grafhome_ca.External.Sample.{Json, member, no_members, object, sample, string}
use grafhome_ca.Base.{◌≡◌, [], false, ok, refl, text, ◌∷◌, All, eq_text, starts_with, trim}

abbrev public_jwk : Json
public_jwk = object (member (text "kty") (string (text "OKP")) no_members)

abbrev request : UserRequest Json
request = record {
  version = 1;
  kind = user_request_kind;
  user = b'a' ∷ [];
  host = b'l' ∷ [];
  ssh_public_key = text "ssh-k";
  renewal_public_jwk = public_jwk;
}

request_valid : validate_user_request sample request ≡ ok tt
unfolding validate_user_request validate_header eq_text text nonempty trim validate_public_material
    starts_with get_str
request_valid = refl

abbrev grant : UserGrant (Unit {0})
grant = record {
  version = 1;
  kind = user_grant_kind;
  user = b'a' ∷ [];
  host = b'l' ∷ [];
  ssh_public_key = text "ssh-k";
  renewal_public_jwk = tt;
  ca_url = text "https://ca";
  root_fingerprint = text "0123456789abcdef0123456789abcdef0123456789abcdef0123456789abcdef";
  token = text "t";
}

grant_valid : validate_user_grant grant ≡ ok tt
unfolding validate_user_grant eq_text text nonempty trim validate_fingerprint
grant_valid = refl

validate_user_request-public_example :
    All
      (λ f. contains_key sample request.renewal_public_jwk f ≡ false)
      (text "d"
        ∷ text "k"
        ∷ text "p"
        ∷ text "q"
        ∷ text "dp"
        ∷ text "dq"
        ∷ text "qi"
        ∷ text "oth"
        ∷ [])
validate_user_request-public_example = validate_user_request-public sample request request_valid
