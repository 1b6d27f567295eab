-- ===== src/Auth/Signer.antt =====
-- internal/auth/signer.go: the headers of an outgoing request.
pub mod Accepted
pub mod RoundTrip
use chord_dht.Base.{ℕ, Option, none, some, ◌++◌, Bytes, codes, is_empty, if◌then◌else◌}
use chord_dht.Auth.Certificates.{Certificate, Crypto}
use chord_dht.Auth.Int64.{unix}
use chord_dht.Auth.Verifier.{Request}

-- The encoders: `RawURLEncoding` of base64, `hex.EncodeToString`, `json.Marshal` of a certificate and
-- `ed25519.Sign` of a key and a message.
pub record Encoder : Type 0 where
  pub encode64url : Bytes → Bytes
  pub hex : Bytes → Bytes
  pub marshal_certificate : Certificate → Option Bytes
  pub ed_sign : Bytes → Bytes → Bytes

pub record RequestSigner : Type 0 where
  pub node_id : Bytes
  pub priv_key : Bytes
  pub cert : Option Certificate
  pub anchor_id : Bytes
  pub vnode_proof : Bytes

unfoldable pub new_request_signer : Bytes → Bytes → Option Certificate → RequestSigner
new_request_signer node_id priv_key cert = record {
  node_id = node_id;
  priv_key = priv_key;
  cert = cert;
  anchor_id = codes "";
  vnode_proof = codes "";
}

unfoldable pub set_vnode_info : Bytes → Bytes → RequestSigner → RequestSigner
set_vnode_info anchor_id proof s = record s { anchor_id = anchor_id; vnode_proof = proof }

unfoldable pub cert_expires_at : RequestSigner → Option ℕ
cert_expires_at s = elim s.cert [ none ↦ none | some c ↦ some c.expires_at ]

module _ (cr : Crypto) (en : Encoder) where
  -- The text that is signed, of the method, the path, the timestamp and the nonce.
  unfoldable pub message : RequestSigner → Bytes → Bytes → Bytes → Bytes → Bytes → Bytes
  message s method path timestamp nonce body =
      codes "chord-request-v1\n"
      ++ method
      ++ codes "\n"
      ++ path
      ++ codes "\n"
      ++ s.node_id
      ++ codes "\n"
      ++ timestamp
      ++ codes "\n"
      ++ nonce
      ++ codes "\n"
      ++ cr.sha256_hex body

  -- A virtual node names its anchor.
  abbrev with_anchor : RequestSigner → Request → Request
  with_anchor s r =
      if is_empty s.anchor_id
      then r
      else record r { anchor_id = s.anchor_id; vnode_proof = s.vnode_proof }

  -- `random` is what `rand.Read` yields: an error, or the bytes of the nonce.
  unfoldable pub sign : RequestSigner → Option Bytes → ℕ → Bytes → Request → Option Request
  sign s random now body r = elim random [
    | none ↦ none
    | some bytes ↦
        let timestamp = cr.decimal (unix now) in
        let nonce = en.hex bytes in
        let text = message s r.method r.request_uri timestamp nonce body in
        some (
          with_anchor s (record r {
            node_id = s.node_id;
            timestamp = timestamp;
            nonce = nonce;
            signature = en.encode64url (en.ed_sign s.priv_key text);
          }))
  ]

  unfoldable pub marshal_base64url : Certificate → Option Bytes
  marshal_base64url c = elim (en.marshal_certificate c) [
    | none ↦ none
    | some json ↦ some (en.encode64url json)
  ]

  unfoldable pub add_cert_header : RequestSigner → Request → Option Request
  add_cert_header s r = elim s.cert [
    | none ↦ some r
    | some c ↦ elim (marshal_base64url c) [
      | none ↦ none
      | some encoded ↦ some (record r { certificate = encoded })
    ]
  ]
