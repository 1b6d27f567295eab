-- ===== src/Auth/Verifier.antt =====
-- internal/auth/verifier.go: the checks of a request, in the order of `Middleware`.
pub mod Window
pub mod Trust
pub mod Admitted
pub mod Vnodes
use chord_dht.Base.{
  ℕ, suc, ◌+◌, ◌*◌, ◌/◌, ◌%◌, Bool, true, false, not, ◌&&◌, ◌||◌, Option, none, some, List, [], ◌∷◌,
  ◌++◌, Bytes, codes, same, is_empty, length, take, ltb, leb, ◌==◌, if◌then◌else◌,
}
use chord_dht.Auth.Int64.{whole, second, less, minus, negate, times, is_negative, unix}
use chord_dht.Auth.Nonces.{NonceCache, add}
use chord_dht.Auth.Certificates.{
  Certificate, Crypto, CertCache, sized, verify_certificate, node_public_key, store_verified, get,
}
use chord_dht.Auth.Crl.{Crl, is_revoked}
use chord_dht.Types.{
  VnodeProof, Code, missing_auth_headers, timestamp_out_of_window, nonce_reused,
  invalid_certificate, certificate_required, certificate_revoked, invalid_signature,
  invalid_vnode_proof, proof_expired,
}
use chord_dht.Uri.{Platform}

-- The configuration and the state. A zero `BootGracePeriodEnd` is `none`.
pub record Verifier : Type 0 where
  pub ca_public_key : Bytes
  pub timestamp_tolerance : ℕ
  pub tolerance_secs : ℕ
  pub boot_grace_period_end : Option ℕ
  pub clock_skew_tolerance : ℕ
  pub nonce_cache : NonceCache
  pub cert_cache : CertCache
  pub crl : Option Crl

-- The headers, empty if they are missing, and the body, `none` if it cannot be read.
pub record Request : Type 0 where
  pub method : Bytes
  pub path : Bytes
  pub request_uri : Bytes
  pub node_id : Bytes
  pub timestamp : Bytes
  pub nonce : Bytes
  pub signature : Bytes
  pub certificate : Bytes
  pub anchor_id : Bytes
  pub vnode_proof : Bytes
  pub body : Option Bytes

-- The request goes on to the handler, or it is refused with a status and a code.
pub data Decision : Type 0 where
  admitted : Decision
  refused : ℕ → Code → Decision

pub data Acquired : Type 0 where
  acquired : Certificate → Acquired
  rejected : Code → Acquired

unfoldable pub set_crl : Option Crl → Verifier → Verifier
set_crl crl v = record v { crl = crl }

unfoldable pub crl_version : Verifier → ℕ
crl_version v = elim v.crl [ none ↦ 0 | some c ↦ c.version ]

unfoldable pub cache_incoming_cert : Certificate → ℕ → Verifier → Verifier
unfolding store_verified
cache_incoming_cert cert now v = record v { cert_cache = store_verified cert now v.cert_cache }

abbrev pub max_body_size : ℕ
max_body_size = 1_048_576

-- `time.Duration(diff) * time.Second > tolerance` for the distance of two Unix times
unfoldable pub outside_window : ℕ → ℕ → ℕ → Bool
outside_window tolerance now_unix timestamp =
    let diff = minus now_unix timestamp in
    let size = if is_negative diff then negate diff else diff in less tolerance (times size second)

abbrev pub lacks_headers : Request → Bool
lacks_headers r =
    is_empty r.node_id || (is_empty r.timestamp || (is_empty r.nonce || is_empty r.signature))

unfoldable pub in_grace : Verifier → ℕ → Bool
in_grace v now = elim v.boot_grace_period_end [ none ↦ false | some t ↦ ltb now t ]

module _ (os : Platform) (cr : Crypto) where
  unfoldable pub timely : Verifier → Request → ℕ → Bool
  timely v r now = elim (cr.parse_int r.timestamp) [
    | none ↦ false
    | some t ↦ not (outside_window v.timestamp_tolerance (unix now) t)
  ]

  unfoldable pub parse_certificate_base64url : Bytes → Option Certificate
  parse_certificate_base64url s =
      let parsed : Option Certificate = elim (cr.base64url s) [
        | none ↦ none
        | some json ↦ cr.parse_certificate json
      ] in
      if ltb 4096 (length s) then none else parsed

  -- A certificate from the header.
  unfoldable pub present : Verifier → Request → ℕ → Acquired × CertCache
  present v r now = elim (parse_certificate_base64url r.certificate) [
    | none ↦ (rejected invalid_certificate, v.cert_cache)
    | some parsed ↦
        if not (verify_certificate os cr parsed v.ca_public_key now v.tolerance_secs)
        then (rejected invalid_certificate, v.cert_cache)
        else if not (same parsed.node_id r.node_id)
        then (rejected invalid_certificate, v.cert_cache)
        else (acquired parsed, store_verified parsed now v.cert_cache)
  ]

  unfoldable pub acquire : Verifier → Request → ℕ → Acquired × CertCache
  acquire v r now =
      let cached : Acquired × CertCache = elim (get r.node_id now v.cert_cache) [
        | none ↦ (rejected certificate_required, v.cert_cache)
        | some c ↦ (acquired c, v.cert_cache)
      ] in
      if is_empty r.certificate then cached else present v r now

  unfoldable pub request_message : Request → Bytes → Bytes
  request_message r body =
      codes "chord-request-v1\n"
      ++ r.method
      ++ codes "\n"
      ++ r.request_uri
      ++ codes "\n"
      ++ r.node_id
      ++ codes "\n"
      ++ r.timestamp
      ++ codes "\n"
      ++ r.nonce
      ++ codes "\n"
      ++ cr.sha256_hex (take max_body_size body)

  -- The signature of the request: `none` for a good one, or the code of the error.
  unfoldable pub signature_error : Request → Certificate → Bytes → Option Code
  signature_error r cert body = elim (sized 64 (cr.base64url r.signature)) [
    | none ↦ some invalid_signature
    | some sig ↦ elim (node_public_key os cr cert) [
      | none ↦ some invalid_certificate
      | some key ↦
          if cr.verify key (request_message r body) sig then none else some invalid_signature
    ]
  ]

  unfoldable pub derive_vnode_id : Bytes → ℕ → Bytes
  derive_vnode_id anchor index =
      os.sha1_hex (codes "chord-vnode-v4\n" ++ anchor ++ codes "\n" ++ cr.decimal index)

  unfoldable pub proof_canonical : VnodeProof → Bytes
  proof_canonical p =
      codes "chord-vnode-proof-v4\n"
      ++ p.vnode_id
      ++ codes "\n"
      ++ p.anchor_id
      ++ codes "\n"
      ++ cr.decimal p.index
      ++ codes "\n"
      ++ cr.decimal p.issued_at
      ++ codes "\n"
      ++ cr.decimal p.expires_at

  -- `ClockSkewTolerance`, or 30 seconds, in whole seconds.
  abbrev skew_seconds : Verifier → ℕ
  skew_seconds v =
      if is_negative v.clock_skew_tolerance || v.clock_skew_tolerance == 0
      then 30
      else v.clock_skew_tolerance / second

  unfoldable pub proof_is_expired : Verifier → VnodeProof → ℕ → Bool
  proof_is_expired v p now = less ((p.expires_at + skew_seconds v) % whole) (unix now)

  unfoldable pub signed_by_anchor : VnodeProof → Certificate → Bool
  signed_by_anchor p anchor = elim (node_public_key os cr anchor) [
    | none ↦ false
    | some key ↦ elim (sized 64 (cr.base64 p.signature)) [
      | none ↦ false
      | some sig ↦ cr.verify key (proof_canonical p) sig
    ]
  ]

  unfoldable pub check_proof : Verifier → CertCache → Request → VnodeProof → ℕ → Decision
  check_proof v certs r p now =
      let anchored : Decision = elim (get r.anchor_id now certs) [
        | none ↦ refused 403 invalid_vnode_proof
        | some anchor ↦
            if signed_by_anchor p anchor then admitted else refused 403 invalid_vnode_proof
      ] in
      if proof_is_expired v p now
      then refused 403 proof_expired
      else if not (same (derive_vnode_id p.anchor_id p.index) p.vnode_id)
          || not (same p.vnode_id r.node_id)
      then refused 403 invalid_vnode_proof
      else anchored

  -- The request claims to come from a virtual node.
  abbrev pub claims_vnode : Request → Bool
  claims_vnode r =
      not (is_empty r.vnode_proof)
      && (not (is_empty r.anchor_id) && not (same r.anchor_id r.node_id))

  abbrev pub proof_of : Request → Option VnodeProof
  proof_of r = elim (cr.base64 r.vnode_proof) [ none ↦ none | some b ↦ cr.parse_proof b ]

  unfoldable pub check_vnode : Verifier → CertCache → Request → ℕ → Decision
  check_vnode v certs r now =
      let checked : Decision = elim (proof_of r) [
        | none ↦ refused 403 invalid_vnode_proof
        | some p ↦ check_proof v certs r p now
      ] in
      if claims_vnode r then checked else admitted

  -- The steps after the certificate.
  unfoldable pub check_signed : Verifier → CertCache → Request → Certificate → ℕ → Decision
  check_signed v certs r cert now =
      let read : Decision = elim r.body [
        | none ↦ refused 401 invalid_signature
        | some body ↦ elim (signature_error r cert body) [
          | some code ↦ refused 401 code
          | none ↦ check_vnode v certs r now
        ]
      ] in
      if is_revoked cert.node_id v.crl then refused 401 certificate_revoked else read

  -- The steps after the nonce.
  unfoldable pub check_certified : Verifier → Request → ℕ → Decision × Verifier
  check_certified v r now =
      let (got, certs) = acquire v r now in
      let v' = record v { cert_cache = certs } in
      elim got [
        | rejected code ↦ (refused 401 code, v')
        | acquired cert ↦ (check_signed v certs r cert now, v')
      ]

  unfoldable pub middleware : (Bytes → Bool) → Verifier → Request → ℕ → Decision × Verifier
  middleware exempt v r now =
      let (unseen, nonces) = add r.nonce now v.nonce_cache in
      let v' = record v { nonce_cache = nonces } in
      let certified = check_certified v' r now in
      if exempt r.path
      then (admitted, v)
      else if in_grace v now
      then (admitted, v)
      else if lacks_headers r
      then (refused 401 missing_auth_headers, v)
      else if not (timely v r now)
      then (refused 401 timestamp_out_of_window, v)
      else if not unseen
      then (refused 401 nonce_reused, v')
      else certified
