-- ===== src/Proofs/Validity.antt =====
-- A signed proof is valid until it expires.
use chord_dht.Auth.Int64.{half, whole, less}
use chord_dht.Base.{
  ℕ, ◌+◌, ◌%◌, ◌≤◌, ◌<◌, ◌≡◌, refl, true, false, none, some, Bytes, same, same_iff, length, arith,
}
use chord_dht.Proofs.{
  Ed25519, derive_vnode_id, build_proof_canonical, unsigned, sign_vnode_proof, check_signature,
  verify_vnode_proof,
}
use chord_dht.Types.{api_error, proof_expired}

-- What is documented of base64 and Ed25519.
pub record IsSignature (ed : Ed25519) : Type 0 where
  pub decoded : (b : Bytes) → ed.decode (ed.encode b) ≡ some b
  pub sized : (key message : Bytes) → length (ed.sign key message) ≡ 64
  pub verified :
      (key message : Bytes) → ed.verify (ed.public key) message (ed.sign key message) ≡ true

less-end :
    (now ttl skew later : ℕ)
    → now + ttl + skew < half
    → later < half
    → (later ≤ now + ttl + skew → less (((now + ttl) % whole + skew) % whole) later ≡ false)
      × (now + ttl + skew < later → less (((now + ttl) % whole + skew) % whole) later ≡ true)
unfolding less
less-end now ttl skew later hn hl = ((λ h. ground arith), (λ h. ground arith))

-- The signature check of a proof that the key signed.
check_signature-sign :
    (ed : Ed25519) (anchor : Bytes) (index : ℕ) (key : Bytes) (now ttl : ℕ)
    → IsSignature ed
    → check_signature ed
        (sign_vnode_proof ed anchor index key now ttl)
        (ed.public key)
        (ed.decode (sign_vnode_proof ed anchor index key now ttl).signature)
      ≡ none
unfolding sign_vnode_proof check_signature build_proof_canonical
check_signature-sign ed anchor index key now ttl laws =
    let message = build_proof_canonical ed (unsigned ed anchor index key now ttl) in
    rw (laws.decoded (ed.sign key message))
      (ground (arith, laws.sized key message, laws.verified key message))

same_refl : (a : Bytes) → same a a ≡ true
same_refl a = (same_iff a a).1 refl

-- With a signature scheme that verifies what it signs, and times that do not overflow, a proof that an
-- anchor signs verifies against the anchor's key until its expiry and the tolerance are over, and is
-- refused as expired from then on.
pub verify_vnode_proof-sign :
    (ed : Ed25519) (anchor : Bytes) (index : ℕ) (key : Bytes) (now ttl skew later : ℕ)
    → IsSignature ed
    → now + ttl + skew < half
    → later < half
    → (later ≤ now + ttl + skew
        → verify_vnode_proof ed later
            (sign_vnode_proof ed anchor index key now ttl)
            (ed.public key)
            skew
          ≡ none)
      × (now + ttl + skew < later
          → verify_vnode_proof ed later
              (sign_vnode_proof ed anchor index key now ttl)
              (ed.public key)
              skew
            ≡ some (api_error 403 proof_expired))
unfolding verify_vnode_proof sign_vnode_proof
verify_vnode_proof-sign ed anchor index key now ttl skew later laws hn hl =
    let (before, after) = less-end now ttl skew later hn hl in
    (
      (λ h.
          rw (before h, same_refl (derive_vnode_id ed anchor index))
            (check_signature-sign ed anchor index key now ttl laws)),
      (λ h. rw (after h) refl),
    )
