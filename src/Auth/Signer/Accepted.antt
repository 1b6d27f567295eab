-- ===== src/Auth/Signer/Accepted.antt =====
-- What a verifier makes of headers that were written well.
use chord_dht.Base.{
  ℕ, zero, suc, ◌==◌, ◌∷◌, ◌<◌, ◌≤◌, ◌≡◌, refl, ap, ◌∙◌, Bool, true, false, none, some, [], Bytes,
  same, same_iff, is_empty, length, take, ltb, arith, if_cases,
}
use chord_dht.Auth.Certificates.{
  Certificate, Crypto, verify_certificate, node_public_key, sized, CertCache,
}
use chord_dht.Auth.Crl.{is_revoked}
use chord_dht.Auth.Int64.{unix, whole}
use chord_dht.Auth.Nonces.{add}
use chord_dht.Auth.Signer.{Encoder}
use chord_dht.Auth.Verifier.{
  Verifier, Request, admitted, outside_window, in_grace, timely, parse_certificate_base64url,
  Decision, present, acquire, acquired, lacks_headers, request_message, signature_error,
  check_vnode, check_signed, check_certified, middleware,
}
use chord_dht.Uri.{Platform}

-- The decoders undo the encoders, that of JSON for the certificate `c`, and no text they write is
-- empty.
pub record IsCodec (cr : Crypto) (en : Encoder) (c : Certificate) : Type 0 where
  pub decoded : (b : Bytes) → cr.base64url (en.encode64url b) ≡ some b
  pub parsed : (n : ℕ) → n < whole → cr.parse_int (cr.decimal n) ≡ some n
  pub unmarshalled :
      (json : Bytes) → en.marshal_certificate c ≡ some json → cr.parse_certificate json ≡ some c
  pub marshalled : (json : Bytes) → en.marshal_certificate c ≡ some json → is_empty json ≡ false
  pub signature_length : (key text : Bytes) → length (en.ed_sign key text) ≡ 64
  pub written : (n : ℕ) → is_empty (cr.decimal n) ≡ false
  pub hex_written : (b : Bytes) → is_empty b ≡ false → is_empty (en.hex b) ≡ false
  pub encoded : (b : Bytes) → is_empty b ≡ false → is_empty (en.encode64url b) ≡ false

pub take_all : (n : ℕ) (b : Bytes) → length b ≤ n → take n b ≡ b
take_all zero [] h = refl
take_all zero (x ∷ b) h = ground (arith, h)
take_all (suc n) [] h = refl
take_all (suc n) (x ∷ b) h = ap (λ l. x ∷ l) (take_all n b (omega (arith, h)))

sized_lem : (n : ℕ) (b : Bytes) → length b ≡ n → sized n (some b) ≡ some b
sized_lem n b h =
    if_cases (λ o. o ≡ some b) (length b == n) (λ _. refl) (λ no. ground (arith, h, no))

pub filled : (n : ℕ) (b : Bytes) → length b ≡ suc n → is_empty b ≡ false
filled n [] h = ground (arith, h)
filled n (x ∷ b) h = refl

module _ (os : Platform) (cr : Crypto) (en : Encoder) (cert : Certificate)
    (codec : IsCodec cr en cert) where
  pub timely_lem :
      (v : Verifier) (r : Request) (sent now : ℕ)
      → r.timestamp ≡ cr.decimal (unix sent)
      → unix sent < whole
      → outside_window v.timestamp_tolerance (unix now) (unix sent) ≡ false
      → timely os cr v r now ≡ true
  unfolding timely
  timely_lem v r sent now stamp bound window =
      let read : cr.parse_int r.timestamp ≡ some (unix sent) =
        ap cr.parse_int stamp ∙ codec.parsed (unix sent) bound in
      rw (read, timely, window) refl

  pub signature_error_lem :
      (key priv body : Bytes) (r : Request)
      → node_public_key os cr cert ≡ some key
      → ((text : Bytes) → cr.verify key text (en.ed_sign priv text) ≡ true)
      → r.signature ≡ en.encode64url (en.ed_sign priv (request_message os cr r body))
      → signature_error os cr r cert body ≡ none
  unfolding signature_error
  signature_error_lem key priv body r public pair signed =
      let text = request_message os cr r body in
      let sig = en.ed_sign priv text in
      let read : sized 64 (cr.base64url r.signature) ≡ some sig =
        ap (λ b. sized 64 (cr.base64url b)) signed
        ∙ (ap (sized 64) (codec.decoded sig)
            ∙ sized_lem 64 sig (codec.signature_length priv text)) in
      rw (read, signature_error, public, pair text) refl

  pub acquire-present :
      (v : Verifier) (r : Request) (json : Bytes) (now : ℕ)
      → en.marshal_certificate cert ≡ some json
      → r.certificate ≡ en.encode64url json
      → r.node_id ≡ cert.node_id
      → length r.certificate ≤ 4096
      → verify_certificate os cr cert v.ca_public_key now v.tolerance_secs ≡ true
      → (acquire os cr v r now).0 ≡ acquired cert
  unfolding acquire present parse_certificate_base64url
  acquire-present v r json now marshal header named size good =
      let full : is_empty r.certificate ≡ false =
        ap is_empty header ∙ codec.encoded json (codec.marshalled json marshal) in
      let read : cr.base64url r.certificate ≡ some json =
        ap cr.base64url header ∙ codec.decoded json in
      let fits : ltb 4096 (length r.certificate) ≡ false = ground (arith, size) in
      let parsed : parse_certificate_base64url os cr r.certificate ≡ some cert =
        rw (read, parse_certificate_base64url, fits, codec.unmarshalled json marshal) refl in
      let same_id : same cert.node_id r.node_id ≡ true =
        ground (arith, same_iff cert.node_id r.node_id, named) in
      rw (full, acquire, present, parsed, good, same_id) refl

  pub check_signed-admitted :
      (v : Verifier) (certs : CertCache) (r : Request) (body : Bytes) (now : ℕ)
      → is_revoked cert.node_id v.crl ≡ false
      → r.body ≡ some body
      → signature_error os cr r cert body ≡ none
      → r.vnode_proof ≡ []
      → check_signed os cr v certs r cert now ≡ admitted
  unfolding check_signed check_vnode
  check_signed-admitted v certs r body now kept read signed alone =
      rw (kept, check_signed, read, signed, check_vnode, alone) refl

  pub check_certified-admitted :
      (v : Verifier) (r : Request) (now : ℕ)
      → (acquire os cr v r now).0 ≡ acquired cert
      → ((certs : CertCache) → check_signed os cr v certs r cert now ≡ admitted)
      → (check_certified os cr v r now).0 ≡ admitted
  unfolding check_certified
  check_certified-admitted v r now got good =
      (rw (got, check_certified) (good (acquire os cr v r now).1))

  -- A request that is complete, timely and new, whose certificate is acquired and whose checks after
  -- it succeed.
  pub middleware-admitted :
      (exempt : Bytes → Bool) (v : Verifier) (r : Request) (now : ℕ)
      → lacks_headers r ≡ false
      → timely os cr v r now ≡ true
      → (add r.nonce now v.nonce_cache).0 ≡ true
      → ((v' : Verifier)
          → v'.cert_cache ≡ v.cert_cache
          → v'.crl ≡ v.crl
          → v'.ca_public_key ≡ v.ca_public_key
          → v'.tolerance_secs ≡ v.tolerance_secs
          → (check_certified os cr v' r now).0 ≡ admitted)
      → (middleware os cr exempt v r now).0 ≡ admitted
  unfolding middleware
  middleware-admitted exempt v r now complete in_time unseen good =
      let P : Decision × Verifier → Type 0 = λ d. d.0 ≡ admitted in
      let v' = record v { nonce_cache = (add r.nonce now v.nonce_cache).1 } in
      if_cases P (exempt r.path) (λ _. refl)
        (λ _.
          if_cases P (in_grace v now) (λ _. refl)
            (λ _. rw (complete, middleware, in_time, unseen) (good v' refl refl refl refl)))
