-- ===== src/Auth/Verifier/Admitted.antt =====
-- What an admitted request has passed.
use chord_dht.Base.{
  ℕ, ◌≡◌, refl, Bool, true, false, not, ◌||◌, none, some, Bytes, same, arith, if_cases,
  option_cases, same_iff,
}
use chord_dht.Auth.Certificates.{Certificate, Crypto, CertCache, get}
use chord_dht.Auth.Crl.{is_revoked}
use chord_dht.Auth.Nonces.{add}
use chord_dht.Auth.Verifier.{
  Verifier, Request, Decision, admitted, Acquired, acquired, rejected, in_grace, lacks_headers,
  timely, acquire, signature_error, derive_vnode_id, proof_is_expired, signed_by_anchor,
  check_proof, claims_vnode, proof_of, check_vnode, check_signed, check_certified, middleware,
}
use chord_dht.Auth.Verifier.Trust.{IsSound, IsTrusted, get-IsTrusted, acquire-Vouched}
use chord_dht.Types.{VnodeProof, Code}
use chord_dht.Uri.{Platform}

module _ (os : Platform) (cr : Crypto) where
  -- The proof of a virtual node: its name is derived from the anchor that the proof names, the proof
  -- has not expired, and a node of which there is a trusted certificate signed it.
  pub record IsProven (v : Verifier) (r : Request) (now : ℕ) : Type 0 where
    pub proof : VnodeProof
    pub parsed : proof_of os cr r ≡ some proof
    pub named : proof.vnode_id ≡ r.node_id
    pub derived : derive_vnode_id os cr proof.anchor_id proof.index ≡ proof.vnode_id
    pub current : proof_is_expired os cr v proof now ≡ false
    pub anchor : Certificate
    pub trusted : IsTrusted os cr v.ca_public_key v.tolerance_secs r.anchor_id anchor
    pub signed : signed_by_anchor os cr proof anchor ≡ true

  check_proof-IsProven :
      (v : Verifier) (certs : CertCache) (r : Request) (p : VnodeProof) (now : ℕ)
      → IsSound os cr v.ca_public_key v.tolerance_secs certs
      → proof_of os cr r ≡ some p
      → check_proof os cr v certs r p now ≡ admitted
      → IsProven v r now
  unfolding check_proof
  check_proof-IsProven v certs r p now h parsed =
      let P : Decision → Type 0 = λ d. d ≡ admitted → IsProven v r now in
      if_cases P (proof_is_expired os cr v p now) (λ _ e. ground arith)
        (λ current.
          if_cases P
            (not (same (derive_vnode_id os cr p.anchor_id p.index) p.vnode_id)
              || not (same p.vnode_id r.node_id))
            (λ _ e. ground arith)
            (λ named.
              option_cases P (get r.anchor_id now certs) (λ _ e. ground arith)
                (λ anchor found.
                  if_cases P (signed_by_anchor os cr p anchor)
                    (λ signed e. record {
                      proof = p;
                      parsed = parsed;
                      named = ground (arith, same_iff p.vnode_id r.node_id);
                      derived =
                          ground (
                            arith,
                            same_iff (derive_vnode_id os cr p.anchor_id p.index) p.vnode_id,
                          );
                      current = current;
                      anchor = anchor;
                      trusted =
                          get-IsTrusted os cr v.ca_public_key v.tolerance_secs r.anchor_id now certs
                            anchor h found;
                      signed = signed;
                    })
                    (λ _ e. ground arith))))

  check_vnode-IsProven :
      (v : Verifier) (certs : CertCache) (r : Request) (now : ℕ)
      → IsSound os cr v.ca_public_key v.tolerance_secs certs
      → claims_vnode os cr r ≡ true
      → check_vnode os cr v certs r now ≡ admitted
      → IsProven v r now
  unfolding check_vnode
  check_vnode-IsProven v certs r now h claims =
      let P : Decision → Type 0 = λ d. d ≡ admitted → IsProven v r now in
      if_cases P (claims_vnode os cr r)
        (λ _.
          option_cases P (proof_of os cr r) (λ _ e. ground arith)
            (λ p parsed. check_proof-IsProven v certs r p now h parsed))
        (λ no e. ground arith)

  -- What a request that is admitted after all the checks has passed.
  pub record IsAuthentic (v : Verifier) (r : Request) (now : ℕ) : Type 0 where
    pub complete : lacks_headers r ≡ false
    pub in_time : timely os cr v r now ≡ true
    pub unseen : (add r.nonce now v.nonce_cache).0 ≡ true
    pub cert : Certificate
    pub trusted : IsTrusted os cr v.ca_public_key v.tolerance_secs r.node_id cert
    pub not_revoked : is_revoked cert.node_id v.crl ≡ false
    pub body : Bytes
    pub read : r.body ≡ some body
    pub signed : signature_error os cr r cert body ≡ none
    pub proven : claims_vnode os cr r ≡ true → IsProven v r now

  -- The steps after the nonce.
  record IsPassed (v : Verifier) (r : Request) (now : ℕ) (cert : Certificate) (body : Bytes)
      : Type 0 where
    trusted : IsTrusted os cr v.ca_public_key v.tolerance_secs r.node_id cert
    not_revoked : is_revoked cert.node_id v.crl ≡ false
    read : r.body ≡ some body
    signed : signature_error os cr r cert body ≡ none
    proven : claims_vnode os cr r ≡ true → IsProven v r now

  abbrev Passes : Verifier → Request → ℕ → Type 0
  Passes v r now = (cert : Certificate) × (body : Bytes) × IsPassed v r now cert body

  check_signed-Passed :
      (v : Verifier) (certs : CertCache) (r : Request) (cert : Certificate) (now : ℕ)
      → IsSound os cr v.ca_public_key v.tolerance_secs certs
      → IsTrusted os cr v.ca_public_key v.tolerance_secs r.node_id cert
      → check_signed os cr v certs r cert now ≡ admitted
      → Passes v r now
  unfolding check_signed
  check_signed-Passed v certs r cert now h trusted =
      let P : Decision → Type 0 = λ d. d ≡ admitted → Passes v r now in
      if_cases P (is_revoked cert.node_id v.crl) (λ _ e. ground arith)
        (λ kept.
          option_cases P r.body (λ _ e. ground arith)
            (λ body read.
              option_cases P (signature_error os cr r cert body)
                (λ signed e. (
                  cert,
                  body,
                  record {
                    trusted = trusted;
                    not_revoked = kept;
                    read = read;
                    signed = signed;
                    proven = λ claims. check_vnode-IsProven v certs r now h claims e;
                  },
                ))
                (λ code _ e. ground arith)))

  acquired_cases :
      (P : Decision × Verifier → Type 0) (a : Acquired) {f : Certificate → Decision × Verifier}
      {g : Code → Decision × Verifier}
      → ((c : Certificate) → a ≡ acquired c → P (f c))
      → ((code : Code) → P (g code))
      → P (elim a [ rejected code ↦ g code | acquired c ↦ f c ])
  acquired_cases P (acquired c) h k = h c refl
  acquired_cases P (rejected code) h k = k code

  check_certified-Passed :
      (v : Verifier) (r : Request) (now : ℕ)
      → IsSound os cr v.ca_public_key v.tolerance_secs v.cert_cache
      → (check_certified os cr v r now).0 ≡ admitted
      → Passes v r now
  unfolding check_certified
  check_certified-Passed v r now h =
      let certs = (acquire os cr v r now).1 in
      let v' = record v { cert_cache = certs } in
      let vouched = acquire-Vouched os cr v r now h in
      acquired_cases (λ d. d.0 ≡ admitted → Passes v r now) (acquire os cr v r now).0
        (λ cert got e. check_signed-Passed v certs r cert now vouched.0 (vouched.1 cert got) e)
        (λ code e. ground arith)

  -- With a cache that holds only certificates the authority signed, a request that is neither exempt
  -- nor inside the grace period is admitted only if its headers are complete, its time is in the
  -- window, its nonce is accepted, its node has a trusted certificate under its name that is not
  -- revoked, its signature is that certificate's, and, if it claims to come from a virtual node, the
  -- proof of that node holds.
  pub middleware-IsAuthentic :
      (exempt : Bytes → Bool) (v : Verifier) (r : Request) (now : ℕ)
      → IsSound os cr v.ca_public_key v.tolerance_secs v.cert_cache
      → exempt r.path ≡ false
      → in_grace v now ≡ false
      → (middleware os cr exempt v r now).0 ≡ admitted
      → IsAuthentic v r now
  unfolding middleware proof_is_expired
  middleware-IsAuthentic exempt v r now h guarded late =
      let v' = record v { nonce_cache = (add r.nonce now v.nonce_cache).1 } in
      let P : Decision × Verifier → Type 0 = λ d. d.0 ≡ admitted → IsAuthentic v r now in
      if_cases P (exempt r.path) (λ yes e. ground arith)
        (λ _.
          if_cases P (in_grace v now) (λ yes e. ground arith)
            (λ _.
              if_cases P (lacks_headers r) (λ _ e. ground arith)
                (λ complete.
                  if_cases P (not (timely os cr v r now)) (λ _ e. ground arith)
                    (λ in_time.
                      if_cases P (not (add r.nonce now v.nonce_cache).0) (λ _ e. ground arith)
                        (λ unseen e.
                          let (cert, body, passed) = check_certified-Passed v' r now h e in
                          record {
                            complete = complete;
                            in_time = ground arith;
                            unseen = ground arith;
                            cert = cert;
                            trusted = passed.trusted;
                            not_revoked = passed.not_revoked;
                            body = body;
                            read = passed.read;
                            signed = passed.signed;
                            proven = λ claims.
                                let p = passed.proven claims in
                                record {
                                  proof = p.proof;
                                  parsed = p.parsed;
                                  named = p.named;
                                  derived = p.derived;
                                  current = p.current;
                                  anchor = p.anchor;
                                  trusted = p.trusted;
                                  signed = p.signed;
                                };
                          })))))
