-- ===== src/Policy/Revoked.antt =====
-- The tombstones of policy/revocations.toml: `RevokedSshKey` and `RevokedX509Key` of policy/mod.rs.
use grafhome_ca.Base.{Bool, true, false, Option, Text}

pub data RevokedSshKey : Type 0 where
  -- host, public_key, fingerprint, renewal_fingerprint, revoked_at, reason
  host : Text → Text → Text → Text → Text → Option Text → RevokedSshKey
  -- user, client_host, public_key, fingerprint, renewal_fingerprint, revoked_at, reason
  user : Text → Text → Text → Text → Text → Text → Option Text → RevokedSshKey

pub record RevokedX509Key : Type 0 where
  pub host : Text
  pub name : Text
  pub public_key_fingerprint : Text
  pub renewal_fingerprint : Text
  pub revoked_at : Text
  pub reason : Option Text

-- `RevokedSshKey::host`
abbrev pub policy_host : RevokedSshKey → Text
policy_host (host h key fp rfp at why) = h
policy_host (user u h key fp rfp at why) = h

abbrev pub is_user : RevokedSshKey → Bool
is_user (host h key fp rfp at why) = false
is_user (user u h key fp rfp at why) = true

abbrev pub public_key : RevokedSshKey → Text
public_key (host h key fp rfp at why) = key
public_key (user u h key fp rfp at why) = key

abbrev pub fingerprint : RevokedSshKey → Text
fingerprint (host h key fp rfp at why) = fp
fingerprint (user u h key fp rfp at why) = fp

abbrev pub renewal_fingerprint : RevokedSshKey → Text
renewal_fingerprint (host h key fp rfp at why) = rfp
renewal_fingerprint (user u h key fp rfp at why) = rfp

abbrev pub revoked_at : RevokedSshKey → Text
revoked_at (host h key fp rfp at why) = at
revoked_at (user u h key fp rfp at why) = at

-- The `reason` that `validate_revocations` matches out.
abbrev pub reason : RevokedSshKey → Option Text
reason (host h key fp rfp at why) = why
reason (user u h key fp rfp at why) = why
