-- ===== src/Runtime/Certificates.antt =====
-- The provisioners of x509.rs: built from a declaration, rebuilt from policy, and tombstoned.
use grafhome_ca.Policy.Duration.{and_then}
use grafhome_ca.Policy.Revoked.{public_key}
use grafhome_ca.Runtime.Claims.{object, template_options}
use grafhome_ca.Names.{
  encode_identity, parse_x509_provisioner_name, x509_identity, x509_provisioner_name,
}
use grafhome_ca.Renewal.Issue.{common_name}
use grafhome_ca.External.{External}
use grafhome_ca.Keys.{
  CertificateKey, canonical_jwk, certificate_fingerprint, from_der, get_str, parse_pem, to_pem,
}
use grafhome_ca.Policy.Model.{
  is_active, server, client, Policy, X509Cert, X509Role, x509_certs_for_host,
}
use grafhome_ca.Base.{
  ◌>>=◌, ◌>>◌, Bool, List, Option, Result, Text, [], eq_text, err, false, find, if◌then◌else◌,
  is_empty, map, none, some, split_once, strip_prefix, strip_suffix, suc, text, true, zero, ◌*◌,
  ◌++◌, ◌+◌, ◌==◌, ◌||◌, ◌∷◌, ok, ok_or, validation, ℕ, any, ensure,
}

abbrev take : ℕ → Text → Text
take zero s = []
take (suc n) [] = []
take (suc n) (b ∷ s) = b ∷ take n s

abbrev drop : ℕ → Text → Text
drop zero s = s
drop (suc n) [] = []
drop (suc n) (b ∷ s) = drop n s

-- `trim_start_matches('0')`
unfoldable pub trim_zeros : Text → Text
trim_zeros [] = []
trim_zeros (b ∷ s) = let rest = trim_zeros s in if b == b'0' then rest else b ∷ s

-- `CertificateKey::coordinate`; a key has its whole length.
unfoldable pub coordinate : CertificateKey → ℕ → Text
unfolding trim_zeros encode_identity
coordinate key index =
    let trimmed = trim_zeros (encode_identity (take 32 (drop (27 + index * 32) key.der))) in
    if is_empty trimmed then text "0" else trimmed

-- The first of `lines()`
unfoldable pub first_line : Text → Option Text
first_line [] = none
first_line s = elim (split_once 10 s) [
  | none ↦ some s
  | some (line, rest) ↦ elim (strip_suffix (13 ∷ []) line) [ none ↦ some line | some l ↦ some l ]
]

abbrev pub key_marker_prefix : Text
key_marker_prefix = text "{{/* grafhome-ca-x509-key:"

abbrev pub key_marker_suffix : Text
key_marker_suffix = text " */}}"

abbrev pub ssh_deny_template : Text
ssh_deny_template = text "{{ fail \"ssh issuance disabled for Grafhome X.509 provisioner\" }}"

abbrev key_usage : X509Role → Text
key_usage server = text "serverAuth"
key_usage client = text "clientAuth"

unfoldable pub active_cert : Policy → Text → Text → Result X509Cert
active_cert policy host name = do
  cert ← ok_or (find (λ c. eq_text c.name name) (x509_certs_for_host policy host)) (
      validation (text "x509 certificate")
        (x509_identity host name ++ text " is not declared in policy"))
  ensure (is_active cert.status) (
      validation (text "x509 certificate")
        (x509_identity host name ++ text " is not active in policy"))
  ok cert

module _ (x : External) where
  open x use {Value, get, string, array, bool, to_vec, encode_standard, decode_standard, as_str}

  -- `CertificateKey::marker`
  unfoldable pub marker : CertificateKey → Text
  marker key = key_marker_prefix ++ (encode_standard key.der ++ key_marker_suffix)

  -- `CertificateKey::from_template`
  unfoldable pub from_template : Text → Option CertificateKey
  unfolding first_line from_der
  from_template template = and_then (first_line template) λ line.
      and_then (strip_prefix key_marker_prefix line) λ marked.
        and_then (strip_suffix key_marker_suffix marked) λ encoded.
          and_then (decode_standard encoded)
            λ der. elim (from_der der) [ err e ↦ none | ok key ↦ some key ]

  -- The JSON object behind the guard.
  template_body : X509Cert → Text → Value
  template_body cert common_name = object x (
      (text "subject", object x ((text "commonName", string common_name) ∷ []))
      ∷ (
        text "sans",
        array (
            map (λ n. object x ((text "type", string (text "dns")) ∷ (text "value", string n) ∷ []))
              cert.names),
      )
      ∷ (text "keyUsage", array (string (text "digitalSignature") ∷ []))
      ∷ (text "extKeyUsage", array (string (key_usage cert.role) ∷ []))
      ∷ [])

  unfoldable pub x509_template : X509Cert → CertificateKey → Result Text
  unfolding template_body marker coordinate
  x509_template cert key = elim cert.names [
    | [] ↦ err (
        validation (x509_identity cert.host cert.name)
          (text "a certificate needs at least one name"))
    | common_name ∷ names ↦ ok (
        marker key
        ++ (text
              "\n{{- $key := .Insecure.CR.PublicKey }}\n{{- if or (ne $key.Curve.Params.Name \"P-256\") (ne ($key.X.Text 16) \""
            ++ (coordinate key 0
                ++ (text "\") (ne ($key.Y.Text 16) \""
                    ++ (coordinate key 1
                        ++ (text
                              "\") }}{{ fail \"certificate public key does not match enrollment\" }}{{ end }}\n"
                            ++ (to_vec (template_body cert common_name) ++ 10 ∷ [])))))))
  ]

  unfoldable pub x509_claims : X509Cert → List (Text × Value)
  x509_claims cert =
      (text "defaultTLSCertDuration", string cert.ttl)
      ∷ (text "maxTLSCertDuration", string cert.ttl)
      ∷ (text "disableRenewal", bool true)
      ∷ (text "enableSSHCA", bool false)
      ∷ []

  -- The members behind `type`.
  abbrev pub x509_members : Value → X509Cert → Text → List (Text × Value)
  x509_members key cert template =
      (text "name", string (x509_provisioner_name cert.host cert.name))
      ∷ (text "key", key)
      ∷ (text "claims", object x (x509_claims cert))
      ∷ (text "options", template_options x template ssh_deny_template)
      ∷ []

  unfoldable pub x509_provisioner : Value → X509Cert → Text → Result Value
  unfolding x509_template
  x509_provisioner key cert public_key = do
    certificate_key ← parse_pem x public_key
    template ← x509_template cert certificate_key
    ok (object x ((text "type", string (text "JWK")) ∷ x509_members key cert template))

  -- `unwrap_or_default`
  unfoldable pub live_name : Value → Text
  live_name live = elim (get_str x live (text "name")) [ none ↦ [] | some name ↦ name ]

  -- `pointer("/options/x509/template")` as a string
  unfoldable pub template_of : Value → Option Text
  template_of live = and_then (get live (text "options")) λ options.
      and_then (get options (text "x509")) λ x509_options. get_str x x509_options (text "template")

  unfoldable pub pinned_key : Value → Result CertificateKey
  unfolding live_name template_of from_template
  pinned_key live = ok_or (and_then (template_of live) from_template) (
      validation (text "live provisioner " ++ live_name live)
        (text "X.509 provisioner has no pinned public key"))

  unfoldable pub live_key : Value → Result Value
  unfolding live_name
  live_key live = ok_or (get live (text "key")) (
      validation (text "live provisioner " ++ live_name live)
        (text "X.509 provisioner has no public JWK"))

  -- `map_err` of the lookup
  unfoldable pub declared : Policy → Text → Text → Text → Result X509Cert
  declared policy name host certificate = elim (active_cert policy host certificate) [
    | ok cert ↦ ok cert
    | err e ↦ err (
        validation (text "live provisioner " ++ name) (
          x509_identity host certificate
          ++ (text
                " has no active policy declaration; restore it or run `grafhome-ca x509 revoke --host "
              ++ (host ++ (text " " ++ (certificate ++ text "`"))))))
  ]

  unfoldable pub reconcile_live : Policy → Value → Result Value
  unfolding declared live_key pinned_key x509_provisioner
  reconcile_live policy live = do
    (host, certificate) ← ok_or (parse_x509_provisioner_name (live_name live)) (
        validation (text "live provisioner " ++ live_name live)
          (text "not an X.509 provisioner name"))
    cert ← declared policy (live_name live) host certificate
    key ← live_key live
    pinned ← pinned_key live
    x509_provisioner key cert (to_pem x pinned)

  unfoldable pub is_revoked : Policy → Value → Result Bool
  unfolding live_key pinned_key
  is_revoked policy live = do
    key ← live_key live
    (_, renewal) ← canonical_jwk x key
    pinned ← pinned_key live
    ok (
        any
          (λ k.
            eq_text k.renewal_fingerprint renewal
            || eq_text k.public_key_fingerprint (certificate_fingerprint x pinned))
          policy.revoked_x509_keys)
