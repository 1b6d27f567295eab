-- ===== src/Auth/Signer/RoundTrip.antt =====
-- A request that a node signs, read by the verifier of another node.
use mathlib.Core.Option.{none-ne-some}
use chord_dht.Base.{
  some_inj, ℕ, ◌==◌, ◌<◌, ◌≤◌, ◌≡◌, refl, sym, ap, ◌∙◌, Bool, true, false, not, some, [], Bytes,
  is_empty, length, arith, if_cases, option_cases,
}
use chord_dht.Auth.Certificates.{Certificate, Crypto, verify_certificate, node_public_key}
use chord_dht.Auth.Crl.{is_revoked}
use chord_dht.Auth.Int64.{unix, whole}
use chord_dht.Auth.Nonces.{add}
use chord_dht.Auth.Signer.{
  Encoder, RequestSigner, new_request_signer, sign, message, add_cert_header, marshal_base64url,
}
use chord_dht.Auth.Verifier.{
  Verifier, Request, admitted, outside_window, lacks_headers, request_message, middleware,
  max_body_size,
}
use chord_dht.Uri.{Platform}
use chord_dht.Auth.Signer.Accepted.{
  IsCodec, take_all, filled, timely_lem, signature_error_lem, acquire-present,
  check_signed-admitted, check_certified-admitted, middleware-admitted,
}

module _ (os : Platform) (cr : Crypto) (en : Encoder) (cert : Certificate)
    (codec : IsCodec cr en cert) where
  encoded_json :
      (c : Certificate) (encoded : Bytes)
      → marshal_base64url cr en c ≡ some encoded
      → (json : Bytes) × (en.marshal_certificate c ≡ some json) × (encoded ≡ en.encode64url json)
  unfolding marshal_base64url
  encoded_json c encoded =
      option_cases
        (λ o.
          o ≡ some encoded
          → (json : Bytes) × (en.marshal_certificate c ≡ some json)
            × (encoded ≡ en.encode64url json))
        (en.marshal_certificate c) (λ _ e. absurd (none-ne-some _ e))
        (λ json found e. (json, found, sym (some_inj e)))

  header_added :
      (id priv : Bytes) (signed full : Request)
      → add_cert_header cr en (new_request_signer id priv (some cert)) signed ≡ some full
      → (json : Bytes) × (en.marshal_certificate cert ≡ some json)
        × (full ≡ record signed { certificate = en.encode64url json })
  unfolding add_cert_header new_request_signer
  header_added id priv signed full =
      option_cases
        (λ o.
          o ≡ some full
          → (json : Bytes) × (en.marshal_certificate cert ≡ some json)
            × (full ≡ record signed { certificate = en.encode64url json }))
        (marshal_base64url cr en cert) (λ _ e. absurd (none-ne-some _ e))
        (λ encoded found e.
          let (json, marshal, same_text) = encoded_json cert encoded found in
          (json, marshal, sym (some_inj e) ∙ ap (λ b. record signed { certificate = b }) same_text))

  message_lem :
      (r : Request) (method uri id stamp nonce sig text body : Bytes) (s : RequestSigner)
      → s.node_id ≡ id
      → length body ≤ max_body_size
      → request_message os cr
          (record r {
            method = method;
            request_uri = uri;
            node_id = id;
            timestamp = stamp;
            nonce = nonce;
            signature = sig;
            certificate = text;
          })
          body
        ≡ message cr en s method uri stamp nonce body
  unfolding request_message message
  message_lem r method uri id stamp nonce sig text body s own fits =
      rw (take_all max_body_size body fits, own) refl

  node_id-filled :
      (c : Certificate) (ca : Bytes) (now tolerance : ℕ)
      → verify_certificate os cr c ca now tolerance ≡ true
      → is_empty c.node_id ≡ false
  unfolding verify_certificate
  node_id-filled c ca now tolerance =
      let P : Bool → Type 0 = λ b. b ≡ true → is_empty c.node_id ≡ false in
      if_cases P (not (c.version == 1)) (λ _ e. ground arith)
        (λ _.
          if_cases P (not (length c.node_id == 40)) (λ _ e. ground arith)
            (λ full e. filled 39 c.node_id (ground (arith, full))))

  -- A request that an anchor signs, to which it adds its certificate, is admitted by a verifier for
  -- which the certificate is valid and not revoked, if the key that signs is that of the certificate, the
  -- encoders and decoders fit, the request carries no headers of a virtual node, its body is within the
  -- limit and the encoded certificate not longer than 4096 bytes, it arrives within the window of the
  -- time it was signed, which is below 2 ^ 64 seconds, and its nonce, of at least one random byte, is
  -- accepted.
  pub sign-admitted :
      (exempt : Bytes → Bool) (v : Verifier) (key priv random body : Bytes)
      (r signed full : Request) (sent now : ℕ)
      → node_public_key os cr cert ≡ some key
      → ((text : Bytes) → cr.verify key text (en.ed_sign priv text) ≡ true)
      → sign cr en (new_request_signer cert.node_id priv (some cert)) (some random) sent body r
        ≡ some signed
      → add_cert_header cr en (new_request_signer cert.node_id priv (some cert)) signed ≡ some full
      → is_empty random ≡ false
      → r.vnode_proof ≡ []
      → r.body ≡ some body
      → length body ≤ max_body_size
      → length full.certificate ≤ 4096
      → unix sent < whole
      → outside_window v.timestamp_tolerance (unix now) (unix sent) ≡ false
      → verify_certificate os cr cert v.ca_public_key now v.tolerance_secs ≡ true
      → is_revoked cert.node_id v.crl ≡ false
      → (add full.nonce now v.nonce_cache).0 ≡ true
      → (middleware os cr exempt v full now).0 ≡ admitted
  unfolding sign add_cert_header new_request_signer
  sign-admitted exempt v key priv random body r signed full sent now public pair h k nonempty alone
        read fits small bound window good kept unseen =
      let s = new_request_signer cert.node_id priv (some cert) in
      let (json, marshal, added) = header_added cert.node_id priv signed full k in
      let made =
        added
        ∙ ap {A = Request} (λ q. record q { certificate = en.encode64url json })
            (sym (some_inj h)) in
      let text =
        message cr en s r.method r.request_uri (cr.decimal (unix sent)) (en.hex random) body in
      let asked : request_message os cr full body ≡ text =
        ap (λ q. request_message os cr q body) made
        ∙ message_lem r r.method r.request_uri cert.node_id (cr.decimal (unix sent)) (en.hex random)
            (en.encode64url (en.ed_sign priv text)) (en.encode64url json) body s refl fits in
      let id : full.node_id ≡ cert.node_id = ap (λ q. q.node_id) made in
      let stamp : full.timestamp ≡ cr.decimal (unix sent) = ap (λ q. q.timestamp) made in
      let nonce : full.nonce ≡ en.hex random = ap (λ q. q.nonce) made in
      let sig : full.signature
          ≡ en.encode64url (en.ed_sign priv (request_message os cr full body)) =
        ap (λ q. q.signature) made ∙ ap (λ t. en.encode64url (en.ed_sign priv t)) (sym asked) in
      let complete : lacks_headers full ≡ false =
        rw
          (
            ap is_empty id ∙ node_id-filled cert v.ca_public_key now v.tolerance_secs good,
            ap is_empty stamp ∙ codec.written (unix sent),
            ap is_empty nonce ∙ codec.hex_written random nonempty,
            ap is_empty sig
                ∙ codec.encoded (en.ed_sign priv (request_message os cr full body)) (
                    filled 63 (en.ed_sign priv (request_message os cr full body))
                      (codec.signature_length priv (request_message os cr full body))),
          )
          refl in
      let in_time = timely_lem os cr en cert codec v full sent now stamp bound window in
      middleware-admitted os cr en cert codec exempt v full now complete in_time unseen
        (λ v' certs crl ca tol.
          check_certified-admitted os cr en cert codec v' full now
            (acquire-present os cr en cert codec v' full json now marshal
              (ap (λ q. q.certificate) made) id small (rw (ca, tol) good))
            (λ stored.
              check_signed-admitted os cr en cert codec v' stored full body now
                (ap (is_revoked cert.node_id) crl ∙ kept) (ap (λ q. q.body) made ∙ read)
                (signature_error_lem os cr en cert codec key priv body full public pair sig)
                (ap (λ q. q.vnode_proof) made ∙ alone)))
