-- ===== src/Auth/Verifier/Vnodes.antt =====
-- The proof of a virtual node, against the certificate that its request needs.
use chord_dht.Base.{
  ℕ, ◌≡◌, ◌≢◌, sym, ap, ◌∙◌, Bool, true, false, Option, none, some, [], ◌∷◌, ◌++◌, Bytes, codes,
  arith, option_cases, same_iff,
}
use chord_dht.Auth.Certificates.{Certificate, Crypto, named_by_uri, verify_certificate}
use chord_dht.Auth.Verifier.{
  Verifier, Request, admitted, in_grace, derive_vnode_id, claims_vnode, proof_of, middleware,
}
use chord_dht.Auth.Verifier.Admitted.{middleware-IsAuthentic}
use chord_dht.Auth.Verifier.Trust.{IsSound}
use chord_dht.Types.{VnodeProof}
use chord_dht.Uri.{Platform, Url, with_port, normalize_url, normalize_uri, written_host}

-- The first byte of a text
abbrev first_byte : Bytes → Option ℕ
first_byte [] = none
first_byte (b ∷ l) = some b

module _ (os : Platform) (cr : Crypto) where
  abbrev StartsHttps : Option Bytes → Type 0
  StartsHttps o = (n : Bytes) → o ≡ some n → first_byte n ≡ some 104

  with_port-https : (host port : Bytes) → StartsHttps (with_port os host port)
  unfolding with_port
  with_port-https host port n = ground arith

  normalize_url-https : (u : Url) → StartsHttps (normalize_url os u)
  unfolding normalize_url
  normalize_url-https u n =
      ground (arith, with_port-https (written_host os (os.to_lower u.hostname)) u.port n)

  normalize_uri-https : (raw : Bytes) → StartsHttps (normalize_uri os raw)
  unfolding normalize_uri
  normalize_uri-https raw =
      option_cases StartsHttps (os.parse_url (os.trim_space raw)) (λ _ n e. ground arith)
        (λ u _. normalize_url-https u)

  named_by_uri-of-checked :
      (c : Certificate) (ca : Bytes) (now tolerance : ℕ)
      → verify_certificate os cr c ca now tolerance ≡ true
      → named_by_uri os cr c ≡ true
  unfolding verify_certificate
  named_by_uri-of-checked c ca now tolerance h = ground arith

  -- The name is the hash of a text that begins with `h`.
  hashed-uri :
      (c : Certificate)
      → named_by_uri os cr c ≡ true
      → (n : Bytes) × (normalize_uri os c.uri ≡ some n)
        × (first_byte n ≡ some 104)
        × (c.node_id ≡ os.sha1_hex n)
  unfolding named_by_uri
  hashed-uri c =
      option_cases {A = Bool}
        (λ b.
          b ≡ true
          → (n : Bytes) × (normalize_uri os c.uri ≡ some n)
            × (first_byte n ≡ some 104)
            × (c.node_id ≡ os.sha1_hex n))
        (normalize_uri os c.uri) (λ _ e. ground arith)
        (λ n found e. (
          n,
          found,
          normalize_uri-https c.uri n found,
          ground (arith, same_iff c.node_id (os.sha1_hex n)),
        ))

  apart : ◌≢◌ {A = Option ℕ} (some 104) (some 99)
  apart e = ground arith

  -- The text whose digest names the virtual node of a proof.
  abbrev pub derivation_of : VnodeProof → Bytes
  derivation_of p = codes "chord-vnode-v4\n" ++ p.anchor_id ++ codes "\n" ++ cr.decimal p.index

  -- The URI of a certificate that the authority signed for the sender and the text from which the
  -- proof of the request derives the sender's name: two texts, with the sender's name as the digest of
  -- both.
  pub record IsCollision (v : Verifier) (r : Request) : Type 0 where
    pub cert : Certificate
    pub checked_at : ℕ
    pub checked : verify_certificate os cr cert v.ca_public_key checked_at v.tolerance_secs ≡ true
    pub uri : Bytes
    pub of_cert : normalize_uri os cert.uri ≡ some uri
    pub uri_digest : os.sha1_hex uri ≡ r.node_id
    pub proof : VnodeProof
    pub parsed : proof_of os cr r ≡ some proof
    pub proof_digest : os.sha1_hex (derivation_of proof) ≡ r.node_id
    pub different : uri ≢ derivation_of proof

  -- With a cache that holds only certificates the authority signed, a request that is neither exempt
  -- nor inside the grace period and that claims to come from a virtual node is admitted only if SHA-1
  -- collides on two texts: the URI of a certificate that the authority signed for the sender, and the
  -- text from which the proof of the request derives the sender's name.
  pub middleware-IsCollision :
      (exempt : Bytes → Bool) (v : Verifier) (r : Request) (now : ℕ)
      → IsSound os cr v.ca_public_key v.tolerance_secs v.cert_cache
      → exempt r.path ≡ false
      → in_grace v now ≡ false
      → claims_vnode os cr r ≡ true
      → (middleware os cr exempt v r now).0 ≡ admitted
      → IsCollision v r
  unfolding derive_vnode_id
  middleware-IsCollision exempt v r now h guarded late claims e =
      let a = middleware-IsAuthentic os cr exempt v r now h guarded late e in
      let p = a.proven claims in
      let (n, normal, https, hashed) = hashed-uri a.cert (
        named_by_uri-of-checked a.cert v.ca_public_key a.trusted.checked_at v.tolerance_secs
          a.trusted.checked) in
      record {
        cert = a.cert;
        checked_at = a.trusted.checked_at;
        checked = a.trusted.checked;
        uri = n;
        of_cert = normal;
        uri_digest = sym hashed ∙ a.trusted.named;
        proof = p.proof;
        parsed = p.parsed;
        proof_digest = p.derived ∙ p.named;
        different = λ clash. apart (sym https ∙ ap first_byte clash);
      }
