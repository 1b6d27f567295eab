-- ===== src/Auth/Certificates.antt =====
-- internal/auth/cert.go and cert_cache.go: the checks of a certificate, and the cache that trusts the
-- first certificate of a node until it expires or a newer one comes.
-- Ed25519, base64, the hashes, `strconv` and `encoding/json` are parameters.
use chord_dht.Base.{
  ℕ, ◌+◌, ◌*◌, Bool, true, false, not, ◌&&◌, Option, none, some, List, [], ◌∷◌, ◌++◌, Bytes, codes,
  same, length, ltb, ◌==◌, if◌then◌else◌,
}
pub mod FirstUse
use chord_dht.Auth.Int64.{less, times, second, before_unix, after_unix}
use chord_dht.Store.{find, delete}
use chord_dht.Types.{VnodeProof}
use chord_dht.Uri.{Platform, normalize_uri}

-- The times are `int64`.
pub record Certificate : Type 0 where
  pub version : ℕ
  pub node_id : Bytes
  pub uri : Bytes
  pub public_key : Bytes
  pub issued_at : ℕ
  pub expires_at : ℕ
  pub signature : Bytes

-- `RawURLEncoding` and `StdEncoding` of base64, `hex` of a hash, `ed25519.Verify` of a key, a message
-- and a signature, `%d`, `ParseInt` and the decoding of JSON.
pub record Crypto : Type 0 where
  pub base64url : Bytes → Option Bytes
  pub base64 : Bytes → Option Bytes
  pub sha256_hex : Bytes → Bytes
  pub verify : Bytes → Bytes → Bytes → Bool
  pub decimal : ℕ → Bytes
  pub parse_int : Bytes → Option ℕ
  pub parse_certificate : Bytes → Option Certificate
  pub parse_proof : Bytes → Option VnodeProof

-- Decoded bytes of the wanted length
abbrev pub sized : ℕ → Option Bytes → Option Bytes
sized n none = none
sized n (some b) = if length b == n then some b else none

module _ (os : Platform) (cr : Crypto) where
  unfoldable pub cert_signed_message : Certificate → Bytes
  cert_signed_message c =
      codes "chord-cert-v1\nnode_id="
      ++ c.node_id
      ++ codes "\nuri="
      ++ c.uri
      ++ codes "\npublic_key="
      ++ c.public_key
      ++ codes "\nissued_at="
      ++ cr.decimal c.issued_at
      ++ codes "\nexpires_at="
      ++ cr.decimal c.expires_at

  -- The test of the certificate's name against its URI.
  unfoldable pub named_by_uri : Certificate → Bool
  named_by_uri c = elim (normalize_uri os c.uri) [
    | none ↦ false
    | some normalized ↦ same c.node_id (os.sha1_hex normalized)
  ]

  unfoldable pub signed_by : Bytes → Certificate → Bool
  signed_by ca c = elim (sized 64 (cr.base64url c.signature)) [
    | none ↦ false
    | some sig ↦ cr.verify ca (cert_signed_message c) sig
  ]

  unfoldable pub node_public_key : Certificate → Option Bytes
  node_public_key c = sized 32 (cr.base64url c.public_key)

  abbrev has_key : Certificate → Bool
  has_key c = elim (sized 32 (cr.base64url c.public_key)) [ none ↦ false | some _ ↦ true ]

  -- `true` for a `nil` error. The tolerance is a number of seconds, an `int`, whose product wraps.
  unfoldable pub verify_certificate : Certificate → Bytes → ℕ → ℕ → Bool
  verify_certificate c ca now tolerance =
      if not (c.version == 1)
      then false
      else if not (length c.node_id == 40)
      then false
      else if not (has_key c)
      then false
      else if not (less c.issued_at c.expires_at)
      then false
      else if not (named_by_uri c)
      then false
      else if not (signed_by ca c)
      then false
      else if before_unix now c.issued_at (times tolerance second)
      then false
      else if after_unix now c.expires_at (times tolerance second)
      then false
      else true

pub record CertCacheEntry : Type 0 where
  pub cert : Certificate
  pub stored_at : ℕ

pub record CertCache : Type 0 where
  pub entries : List (Bytes × CertCacheEntry)
  pub ttl : ℕ

unfoldable pub new_cert_cache : ℕ → CertCache
new_cert_cache ttl = record { entries = []; ttl = ttl }

-- A write into the map.
unfoldable pub write :
    Bytes → CertCacheEntry → List (Bytes × CertCacheEntry) → List (Bytes × CertCacheEntry)
write k e l = (k, e) ∷ delete k l

-- A live entry with a certificate that is not older: `newCert.IssuedAt <= existing.IssuedAt`.
unfoldable pub is_kept : CertCache → ℕ → Certificate → Bool
is_kept c now cert = elim (find cert.node_id c.entries) [
  | none ↦ false
  | some e ↦ ltb now (e.stored_at + c.ttl) && not (less e.cert.issued_at cert.issued_at)
]

unfoldable pub store_verified : Certificate → ℕ → CertCache → CertCache
unfolding is_kept write
store_verified cert now c = if is_kept c now cert then c else record c {
  entries = write cert.node_id (record { cert = cert; stored_at = now }) c.entries;
}

-- `Store`: an error, or the cache after it.
unfoldable pub store :
    Platform → Crypto → Certificate → Bytes → ℕ → ℕ → CertCache → Option CertCache
unfolding is_kept write
store os cr cert ca now tolerance c =
    if not (verify_certificate os cr cert ca now tolerance)
    then none
    else if is_kept c now cert
    then some c
    else some (record c {
      entries = write cert.node_id (record { cert = cert; stored_at = now }) c.entries;
    })

unfoldable pub get : Bytes → ℕ → CertCache → Option Certificate
get id now c = elim (find id c.entries) [
  | none ↦ none
  | some e ↦ if ltb (e.stored_at + c.ttl) now then none else some e.cert
]
