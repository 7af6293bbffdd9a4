-- ===== src/Policy/Model.antt =====
-- The records of policy/mod.rs, `Policy` itself, and what it tells the rest of the program.
use grafhome_ca.Policy.Duration.{duration_nanoseconds}
use grafhome_ca.Policy.Revoked.{RevokedSshKey, RevokedX509Key}
use grafhome_ca.Base.{
  ℕ, Bool, List, Option, Text, [], any, decimal, eq_text, false, find, if◌then◌else◌, leb, none,
  not, some, text, true, ◌&&◌, ◌++◌, ◌==◌, ◌∷◌, dedup, filter, map, sort_texts,
}

pub data Status : Type 0 where
  active planned disabled : Status

abbrev pub is_active : Status → Bool
is_active active = true
is_active _ = false

pub data SshRole : Type 0 where
  ssh_server ssh_client : SshRole

pub data X509Role : Type 0 where
  server client : X509Role

pub record Endpoint : Type 0 where
  pub role : Text
  pub dns_name : Text
  pub target : Text
  pub address : Text
  pub port : ℕ
  pub scheme : Text

-- The set of roles as its two members.
pub record Host : Type 0 where
  pub host : Text
  pub is_ssh_server : Bool
  pub is_ssh_client : Bool
  pub principals : List Text

pub record X509Cert : Type 0 where
  pub host : Text
  pub name : Text
  pub role : X509Role
  pub names : List Text
  pub ttl : Text
  pub ca_endpoint : Text
  pub after_renew : List Text
  pub status : Status

pub record User : Type 0 where
  pub user : Text
  pub principal : Text
  pub provisioner : Text
  pub cert_ttl : Text
  pub ssh_admin : Bool
  pub status : Status

-- `type` is `provisioner_type`.
pub record Provisioner : Type 0 where
  pub role : Text
  pub name : Text
  pub provisioner_type : Text
  pub default_ttl : Text
  pub max_ttl : Text
  pub renewal_default : Option Text
  pub renewal_max : Option Text
  pub status : Status

pub record UserClient : Type 0 where
  pub host : Text
  pub user : Text
  pub allow_effectively_infinite_cert : Bool
  pub status : Status

pub record UserRemote : Type 0 where
  pub user : Text
  pub host : Text
  pub unix_account : Text
  pub allow_ssh : Bool
  pub status : Status

-- `root`, the path that it was read from, is left out.
pub record Policy : Type 0 where
  pub endpoints : List Endpoint
  pub hosts : List Host
  pub users : List User
  pub require_ssh_admin_access : Bool
  pub provisioners : List Provisioner
  pub user_clients : List UserClient
  pub user_remotes : List UserRemote
  pub revoked_ssh_keys : List RevokedSshKey
  pub x509_certs : List X509Cert
  pub revoked_x509_keys : List RevokedX509Key

-- `Endpoint::url`
unfoldable pub url : Endpoint → Text
url e =
    if eq_text e.scheme (text "https") && e.port == 443
    then e.scheme ++ (text "://" ++ e.dns_name)
    else e.scheme ++ (text "://" ++ (e.dns_name ++ (text ":" ++ decimal e.port)))

abbrev pub has_ssh_role : Host → SshRole → Bool
has_ssh_role h ssh_server = h.is_ssh_server
has_ssh_role h ssh_client = h.is_ssh_client

unfoldable pub renewal_default_ttl : Provisioner → Text
renewal_default_ttl p = elim p.renewal_default [ none ↦ p.default_ttl | some ttl ↦ ttl ]

unfoldable pub x509_certs_for_host : Policy → Text → List X509Cert
x509_certs_for_host policy h = filter (λ c. eq_text c.host h) policy.x509_certs

abbrev concat : List (List Text) → List Text
concat [] = []
concat (s ∷ ss) = s ++ concat ss

-- `sort_unstable` on strings is `sort`, as equal strings are the same.
unfoldable pub x509_allowed_dns : Policy → List Text
x509_allowed_dns policy = dedup (
    sort_texts (
      map (λ e. e.dns_name) policy.endpoints
      ++ concat (map (λ c. c.names) (filter (λ c. is_active c.status) policy.x509_certs))))

-- `unwrap_or_default` of the parsed duration
unfoldable pub duration_or_zero : Text → ℕ
duration_or_zero d = elim (duration_nanoseconds d) [ none ↦ 0 | some n ↦ n ]

-- `max_by_key`, which takes the last of the longest, behind the best so far.
unfoldable pub longest : Text → List Text → Text
unfolding duration_or_zero
longest best [] = best
longest best (d ∷ ds) =
    longest (if leb (duration_or_zero best) (duration_or_zero d) then d else best) ds

-- The list is never empty, as the default ends it.
unfoldable pub longest_with : List Text → Text → Text
unfolding longest
longest_with [] default = default
longest_with (d ∷ ds) default = longest d (ds ++ default ∷ [])

unfoldable pub inferred_renewal_max_ttl : Policy → Provisioner → Text
unfolding longest_with
inferred_renewal_max_ttl policy p =
    if not (eq_text p.max_ttl (text "unlimited"))
    then p.max_ttl
    else longest_with
        (map (λ u. u.cert_ttl)
          (filter (λ u. is_active u.status && eq_text u.provisioner p.name) policy.users))
        (renewal_default_ttl p)

unfoldable pub renewal_max_ttl : Policy → Provisioner → Text
unfolding inferred_renewal_max_ttl
renewal_max_ttl policy p = elim p.renewal_max [
  | some maximum ↦ maximum
  | none ↦ inferred_renewal_max_ttl policy p
]

unfoldable pub endpoint : Policy → Text → Option Endpoint
endpoint policy r = find (λ e. eq_text e.role r) policy.endpoints

unfoldable pub find_host : Policy → Text → Option Host
find_host policy n = find (λ h. eq_text h.host n) policy.hosts

unfoldable pub find_user : Policy → Text → Option User
find_user policy n = find (λ u. eq_text u.user n) policy.users

abbrev pub is_active_user : Option User → Bool
is_active_user none = false
is_active_user (some u) = is_active u.status

unfoldable pub active_ssh_access : Policy → List UserRemote
unfolding find_user
active_ssh_access policy =
    filter (λ a. is_active a.status && a.allow_ssh && is_active_user (find_user policy a.user))
      policy.user_remotes

unfoldable pub active_user_clients : Policy → Text → List UserClient
active_user_clients policy u =
    filter (λ c. is_active c.status && eq_text c.user u) policy.user_clients

unfoldable pub user_enrollment_enabled : Policy → Text → Text → Bool
unfolding active_user_clients find_user
user_enrollment_enabled policy u h =
    is_active_user (find_user policy u)
    && any (λ c. eq_text c.host h) (active_user_clients policy u)
