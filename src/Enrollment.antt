-- ===== src/Enrollment.antt =====
-- The enrollment documents of enrollment.rs, and `X509Request` of x509.rs: requests and grants,
-- how they are built and how each side validates them. `u32` versions are numbers.
pub mod Laws
mod Tests
use grafhome_ca.Base.{
  ℕ, Bool, true, false, not, ◌&&◌, ◌||◌, Option, none, some, List, [], ◌∷◌, ◌++◌, length, ◌==◌, all,
  find, decimal, Text, text, eq_text, trim, starts_with, is_empty, is_ascii_hexdigit, Result, ok,
  err, Error, validation, ok_or, ensure, refuse, ◌>>=◌, ◌>>◌, if◌then◌else◌,
}
use grafhome_ca.External.{External}
use grafhome_ca.Keys.{parse_pem, validate_public_jwk, get_str, contains_key, private_jwk_fields}

abbrev pub document_version : ℕ
document_version = 1

abbrev pub effectively_infinite_version : ℕ
effectively_infinite_version = 2

abbrev pub user_request_kind : Text
user_request_kind = text "grafhome-user-enrollment-request"

abbrev pub user_grant_kind : Text
user_grant_kind = text "grafhome-user-enrollment-grant"

abbrev pub host_request_kind : Text
host_request_kind = text "grafhome-host-enrollment-request"

abbrev pub host_grant_kind : Text
host_grant_kind = text "grafhome-host-enrollment-grant"

abbrev pub x509_request_kind : Text
x509_request_kind = text "grafhome-x509-enrollment-request"

unfoldable pub validate_header : ℕ → Text → Text → Result (Unit {0})
validate_header version kind expected_kind = do
  ensure (version == document_version) (
      validation (text "enrollment document version")
        (text "unsupported version " ++ decimal version))
  ensure (eq_text kind expected_kind) (
      validation (text "enrollment document kind")
        (text "expected " ++ (expected_kind ++ (text ", got " ++ kind))))

unfoldable pub nonempty : Text → Text → Result (Unit {0})
nonempty field value =
    refuse (is_empty (trim value)) (validation field (text "value must not be empty"))

-- The root fingerprint of a grant: 64 hexadecimal digits.
unfoldable pub validate_fingerprint : Text → Text → Result (Unit {0})
validate_fingerprint field value =
    ensure (length value == 64 && all is_ascii_hexdigit value)
      (validation field (text "expected a 64-character SHA-256 hexadecimal fingerprint"))

pub record HostRequest (V : Type 0) : Type 0 where
  pub version : ℕ
  pub kind : Text
  pub host : Text
  pub ssh_public_key : Text
  pub renewal_public_jwk : V

pub record UserRequest (V : Type 0) : Type 0 where
  pub version : ℕ
  pub kind : Text
  pub user : Text
  pub host : Text
  pub ssh_public_key : Text
  pub renewal_public_jwk : V

pub record X509Request (V : Type 0) : Type 0 where
  pub version : ℕ
  pub kind : Text
  pub host : Text
  pub name : Text
  pub names : List Text
  pub certificate_public_key : Text
  pub renewal_public_jwk : V

pub record UserGrant (V : Type 0) : Type 0 where
  pub version : ℕ
  pub kind : Text
  pub user : Text
  pub host : Text
  pub ssh_public_key : Text
  pub renewal_public_jwk : V
  pub ca_url : Text
  pub root_fingerprint : Text
  pub token : Text

pub record HostGrant (V : Type 0) : Type 0 where
  pub version : ℕ
  pub kind : Text
  pub host : Text
  pub ssh_public_key : Text
  pub renewal_public_jwk : V
  pub ca_url : Text
  pub root_fingerprint : Text
  pub token : Text

module _ {V : Type 0} where
  unfoldable pub host_request : Text → Text → V → HostRequest V
  host_request host key jwk = record {
    version = document_version;
    kind = host_request_kind;
    host = host;
    ssh_public_key = key;
    renewal_public_jwk = jwk;
  }

  unfoldable pub user_request : Text → Text → Text → V → UserRequest V
  user_request user host key jwk = record {
    version = document_version;
    kind = user_request_kind;
    user = user;
    host = host;
    ssh_public_key = key;
    renewal_public_jwk = jwk;
  }

  unfoldable pub x509_request : Text → Text → List Text → Text → V → X509Request V
  x509_request host name names key jwk = record {
    version = document_version;
    kind = x509_request_kind;
    host = host;
    name = name;
    names = names;
    certificate_public_key = key;
    renewal_public_jwk = jwk;
  }

  unfoldable pub user_grant : UserRequest V → Text → Text → Text → UserGrant V
  user_grant request ca_url root_fingerprint token = record {
    version = document_version;
    kind = user_grant_kind;
    user = request.user;
    host = request.host;
    ssh_public_key = request.ssh_public_key;
    renewal_public_jwk = request.renewal_public_jwk;
    ca_url = ca_url;
    root_fingerprint = root_fingerprint;
    token = token;
  }

  unfoldable pub mark_effectively_infinite_certificate : UserGrant V → UserGrant V
  mark_effectively_infinite_certificate grant = record grant {
    version = effectively_infinite_version;
  }

  unfoldable pub preserves_initial_certificate : UserGrant V → Bool
  preserves_initial_certificate grant = grant.version == effectively_infinite_version

  unfoldable pub host_grant : HostRequest V → Text → Text → Text → HostGrant V
  host_grant request ca_url root_fingerprint token = record {
    version = document_version;
    kind = host_grant_kind;
    host = request.host;
    ssh_public_key = request.ssh_public_key;
    renewal_public_jwk = request.renewal_public_jwk;
    ca_url = ca_url;
    root_fingerprint = root_fingerprint;
    token = token;
  }

  unfoldable pub validate_user_grant : UserGrant V → Result (Unit {0})
  validate_user_grant grant = do
    ensure (grant.version == document_version || grant.version == effectively_infinite_version) (
        validation (text "enrollment document version")
          (text "unsupported version " ++ decimal grant.version))
    ensure (eq_text grant.kind user_grant_kind) (
        validation (text "enrollment document kind")
          (text "expected " ++ (user_grant_kind ++ (text ", got " ++ grant.kind))))
    nonempty (text "user enrollment grant CA URL") grant.ca_url
    nonempty (text "user enrollment grant root fingerprint") grant.root_fingerprint
    validate_fingerprint (text "user enrollment grant root fingerprint") grant.root_fingerprint
    nonempty (text "user enrollment grant token") grant.token

  unfoldable pub validate_host_grant : HostGrant V → Result (Unit {0})
  validate_host_grant grant = do
    validate_header grant.version grant.kind host_grant_kind
    nonempty (text "host enrollment grant host") grant.host
    nonempty (text "host enrollment grant CA URL") grant.ca_url
    nonempty (text "host enrollment grant root fingerprint") grant.root_fingerprint
    validate_fingerprint (text "host enrollment grant root fingerprint") grant.root_fingerprint
    nonempty (text "host enrollment grant token") grant.token

module _ (x : External) where
  open x use {Value, is_object, get}

  -- `find` over the private fields, and the refusal that names the first one found.
  unfoldable pub private_field : Value → Option Text
  private_field jwk = find (contains_key x jwk) private_jwk_fields

  unfoldable pub no_private_field : Option Text → Result (Unit {0})
  no_private_field none = ok tt
  no_private_field (some field) = err (
      validation (text "enrollment request renewal key")
        (text "request must not contain private JWK material (" ++ (field ++ text ")")))

  abbrev is_oct : Option Text → Bool
  is_oct none = false
  is_oct (some kty) = eq_text kty (text "oct")

  unfoldable pub validate_public_material : Text → Value → Result (Unit {0})
  unfolding private_field no_private_field
  validate_public_material ssh_public_key renewal_public_jwk = do
    ensure (starts_with (text "ssh-") ssh_public_key)
        (validation (text "enrollment request SSH key") (text "expected an OpenSSH public key"))
    ensure (is_object renewal_public_jwk)
        (validation (text "enrollment request renewal key") (text "public JWK must be an object"))
    no_private_field (private_field renewal_public_jwk)
    refuse (is_oct (get_str x renewal_public_jwk (text "kty"))) (
        validation (text "enrollment request renewal key")
          (text "symmetric JWKs are not valid public renewal keys"))

  unfoldable pub validate_host_request : HostRequest Value → Result (Unit {0})
  validate_host_request request = do
    validate_header request.version request.kind host_request_kind
    nonempty (text "host enrollment request host") request.host
    validate_public_material request.ssh_public_key request.renewal_public_jwk

  unfoldable pub validate_user_request : UserRequest Value → Result (Unit {0})
  validate_user_request request = do
    validate_header request.version request.kind user_request_kind
    nonempty (text "enrollment request user") request.user
    nonempty (text "enrollment request host") request.host
    validate_public_material request.ssh_public_key request.renewal_public_jwk

  unfoldable pub validate_x509_request : X509Request Value → Result (Unit {0})
  validate_x509_request request = do
    validate_header request.version request.kind x509_request_kind
    nonempty (text "x509 enrollment request host") request.host
    nonempty (text "x509 enrollment request name") request.name
    refuse (is_empty request.names)
        (validation (text "x509 enrollment request names") (text "must list at least one name"))
    _ ← parse_pem x request.certificate_public_key
    _ ←
        validate_public_jwk x request.renewal_public_jwk
          (text "x509 enrollment request renewal key")
    ok tt
