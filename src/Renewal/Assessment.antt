-- ===== src/Renewal/Assessment.antt =====
-- The state of the live certificate: `Condition`, `Assessment`, `read_chain` and `assess` of
-- x509.rs. A file is its contents, so a file that a rename moves is read as before.
use grafhome_ca.Names.{encode_identity}
use grafhome_ca.Renewal.Times.{alert_due, renewal_due, ℤ}
use grafhome_ca.External.{External}
use grafhome_ca.Keys.{CertificateKey, parse_pem}
use grafhome_ca.Base.{
  ℕ, Bool, List, Option, Result, Text, [], eq_text, false, if◌then◌else◌, leb, length, ltb, none,
  some, true, ◌>>=◌, ◌||◌, ◌∷◌, not, ok,
}

-- `InspectedCertificate`, with the keys of its extended key usage in their order.
pub record InspectedCertificate : Type 0 where
  pub names : List Text
  pub end : Text
  pub fingerprint_sha256 : Text
  pub extended_key_usage : List Text

pub data InspectedBundle : Type 0 where
  chain : List InspectedCertificate → InspectedBundle
  single : InspectedCertificate → InspectedBundle

pub record Chain : Type 0 where
  pub leaf : InspectedCertificate
  pub not_after : ℕ
  pub size : ℕ

-- What `step` and the crates make of a file's contents.
pub record Tools : Type 0 where
  -- `step certificate inspect`: whether it succeeded, and its output
  pub inspect : Text → Result (Bool × Text)
  -- `serde_json::from_slice` at `InspectedBundle`
  pub bundle_from_slice : Text → Option InspectedBundle
  -- `OffsetDateTime::parse`
  pub parse_time : Text → Option ℕ
  -- `step crypto key public`: its output
  pub public_key : Text → Result Text

-- The files at `cert`, `key` and `pending_key` of `X509Paths`.
pub record Files : Type 0 where
  pub cert : Option Text
  pub key : Option Text
  pub pending_key : Option Text

pub data Condition : Type 0 where
  valid missing unreadable no_intermediate key_mismatch expired : Condition

abbrev is_valid : Condition → Bool
is_valid valid = true
is_valid _ = false

pub record Assessment : Type 0 where
  pub condition : Condition
  pub not_after : Option ℕ
  pub pending_key : Bool

abbrev pub exists : Option Text → Bool
exists none = false
exists (some file) = true

unfoldable pub is_complete : Chain → Bool
is_complete c = ltb 1 c.size

unfoldable pub usable : Assessment → Bool
usable a = is_valid a.condition

-- `Option::is_none_or`
abbrev pub none_or : Option ℕ → (ℕ → Bool) → Bool
none_or none p = true
none_or (some n) p = p n

unfoldable pub renewal_needed : Assessment → ℤ → ℕ → Bool
unfolding usable
renewal_needed a ttl now =
    not (usable a) || a.pending_key || none_or a.not_after (λ end. renewal_due end ttl now)

unfoldable pub alert : Assessment → ℤ → ℕ → Bool
unfolding usable
alert a ttl now = not (usable a) || none_or a.not_after (λ end. alert_due end ttl now)

-- The leaf of what was parsed, and how many certificates there are.
unfoldable pub leaf_of : Option InspectedBundle → Option (InspectedCertificate × ℕ)
leaf_of none = none
leaf_of (some (single leaf)) = some (leaf, 1)
leaf_of (some (chain [])) = none
leaf_of (some (chain (leaf ∷ rest))) = some (leaf, length (leaf ∷ rest))

module _ (x : External) (tools : Tools) where
  -- The output of `step`, read.
  unfoldable pub chain_of : Text → Option Chain
  unfolding leaf_of
  chain_of stdout = elim (leaf_of (tools.bundle_from_slice stdout)) [
    | none ↦ none
    | some (leaf, size) ↦ elim (tools.parse_time leaf.end) [
      | none ↦ none
      | some end ↦ some (record { leaf = leaf; not_after = end; size = size })
    ]
  ]

  unfoldable pub read_chain : Text → Result (Option Chain)
  unfolding chain_of
  read_chain file = do
    (success, stdout) ← tools.inspect file
    if success then ok (chain_of stdout) else ok none

  unfoldable pub public_key_of : Text → Result CertificateKey
  public_key_of private_key = do output ← tools.public_key private_key; parse_pem x output

  -- `CertificateKey::spki_hex`
  unfoldable pub spki_hex : CertificateKey → Text
  spki_hex key = encode_identity (x.sha256 key.der)

  -- Whether the live key is that of the leaf.
  unfoldable pub matches_key : Option Text → Chain → Result Bool
  matches_key none c = ok false
  matches_key (some private_key) c = do
    key ← public_key_of private_key
    ok (eq_text (spki_hex key) c.leaf.fingerprint_sha256)

  unfoldable pub condition_of : Bool → Chain → ℕ → Condition
  unfolding is_complete
  condition_of matches c now =
      if not matches
      then key_mismatch
      else if not (is_complete c)
      then no_intermediate
      else if leb c.not_after now
      then expired
      else valid

  -- The state of a chain that was read, or of one that was not.
  unfoldable pub assess_chain : Files → ℕ → Option Chain → Result Assessment
  unfolding matches_key condition_of
  assess_chain files now none =
      ok (record {
        condition = unreadable;
        not_after = none;
        pending_key = exists files.pending_key;
      })
  assess_chain files now (some c) = do
    matches ← matches_key files.key c
    ok (record {
      condition = condition_of matches c now;
      not_after = some c.not_after;
      pending_key = exists files.pending_key;
    })

  unfoldable pub assess : Files → ℕ → Result Assessment
  unfolding assess_chain
  assess files now = elim files.cert [
    | none ↦
        ok
          (record { condition = missing; not_after = none; pending_key = exists files.pending_key })
    | some file ↦ read_chain file >>= assess_chain files now
  ]
