-- ===== src/Tests/Signed.antt =====
-- Proofs and certificates.
use chord_dht.Auth.Certificates.{CertCache, Certificate, store_verified, get}
use chord_dht.Auth.Certificates.FirstUse.{store_verified_lem}
use chord_dht.Auth.Int64.{less}
use chord_dht.Base.{
  ◌≤◌, ◌<◌, ◌≡◌, ◌≢◌, refl, true, false, none, some, [], ◌∷◌, Bytes, Bytes-discrete, codes, same,
  arith,
}
use chord_dht.Proofs.{Ed25519, sign_vnode_proof, verify_vnode_proof}
use chord_dht.Proofs.Validity.{IsSignature, verify_vnode_proof-sign}
use chord_dht.Store.{find}
use chord_dht.Tests.Data.{id_a, id_b, hash}
use chord_dht.Tests.Requests.{cert_a, signature_text}
use chord_dht.Types.{api_error, proof_expired}

abbrev scheme : Ed25519
scheme = record {
  sha1_hex = hash;
  decimal = λ n. n ∷ [];
  encode = λ b. b;
  decode = λ b. some b;
  public = λ key. key;
  sign = λ key message. signature_text;
  verify = λ key message sig. same sig signature_text;
}

scheme-IsSignature : IsSignature scheme
unfolding Bytes-discrete
scheme-IsSignature = record {
  decoded = λ b. refl;
  sized = λ key message. refl;
  verified = λ key message. refl;
}

verify_vnode_proof-sign_example :
    (1500 ≤ 1630
      → verify_vnode_proof scheme 1500
          (sign_vnode_proof scheme id_b 1 (codes "key") 1000 600)
          (codes "key")
          30
        ≡ none)
    × (1630 < 1500
        → verify_vnode_proof scheme 1500
            (sign_vnode_proof scheme id_b 1 (codes "key") 1000 600)
            (codes "key")
            30
          ≡ some (api_error 403 proof_expired))
verify_vnode_proof-sign_example =
    verify_vnode_proof-sign scheme id_b 1 (codes "key") 1000 600 30 1500 scheme-IsSignature
      (omega arith) (omega arith)

abbrev certs : CertCache
certs = record { entries = (id_a, record { cert = cert_a; stored_at = 50 }) ∷ []; ttl = 100 }

abbrev newer : Certificate
newer = record cert_a { issued_at = 501 }

found : find id_a certs.entries ≡ some (record { cert = cert_a; stored_at = 50 })
unfolding find Bytes-discrete
found = refl

store_verified_lem_example :
    (less 500 501 ≡ false → store_verified newer 120 certs ≡ certs)
    × (less 500 501 ≡ true → get id_a 120 (store_verified newer 120 certs) ≡ some newer)
    × ((id : Bytes) → id ≢ id_a → get id 120 (store_verified newer 120 certs) ≡ get id 120 certs)
store_verified_lem_example =
    store_verified_lem newer 120 certs (record { cert = cert_a; stored_at = 50 }) found
      (omega arith)
