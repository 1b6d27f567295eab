-- ===== src/Proofs.antt =====
-- internal/chord/vnode_proof.go: the proof that a virtual node belongs to an anchor. Ed25519, base64,
-- SHA-1 and the printing of numbers are parameters; times are seconds, as `int64`.
pub mod Validity
use chord_dht.Auth.Int64.{less, whole}
use chord_dht.Base.{
  ℕ, ◌+◌, ◌%◌, Bool, true, false, not, Option, none, some, List, ◌++◌, Bytes, codes, same, length,
  ◌==◌, if◌then◌else◌,
}
use chord_dht.Types.{VnodeProof, ApiError, api_error, invalid_vnode_proof, proof_expired}

pub record Ed25519 : Type 0 where
  pub sha1_hex : Bytes → Bytes
  pub decimal : ℕ → Bytes
  pub encode : Bytes → Bytes
  pub decode : Bytes → Option Bytes
  pub public : Bytes → Bytes
  pub sign : Bytes → Bytes → Bytes
  pub verify : Bytes → Bytes → Bytes → Bool

module _ (ed : Ed25519) where
  unfoldable pub derive_vnode_id : Bytes → ℕ → Bytes
  derive_vnode_id anchor index =
      ed.sha1_hex (codes "chord-vnode-v4\n" ++ anchor ++ codes "\n" ++ ed.decimal index)

  unfoldable pub build_proof_canonical : VnodeProof → Bytes
  build_proof_canonical p =
      codes "chord-vnode-proof-v4\n"
      ++ p.vnode_id
      ++ codes "\n"
      ++ p.anchor_id
      ++ codes "\n"
      ++ ed.decimal p.index
      ++ codes "\n"
      ++ ed.decimal p.issued_at
      ++ codes "\n"
      ++ ed.decimal p.expires_at

  -- The proof before it is signed.
  abbrev pub unsigned : Bytes → ℕ → Bytes → ℕ → ℕ → VnodeProof
  unsigned anchor index key now ttl = record {
    vnode_id = derive_vnode_id anchor index;
    anchor_id = anchor;
    index = index;
    issued_at = now;
    expires_at = (now + ttl) % whole;
    anchor_pub = ed.encode (ed.public key);
    signature = codes "";
  }

  unfoldable pub sign_vnode_proof : Bytes → ℕ → Bytes → ℕ → ℕ → VnodeProof
  unfolding build_proof_canonical
  sign_vnode_proof anchor index key now ttl =
      let proof = unsigned anchor index key now ttl in
      record proof { signature = ed.encode (ed.sign key (build_proof_canonical proof)) }

  -- The check of the signature, once decoded.
  unfoldable pub check_signature : VnodeProof → Bytes → Option Bytes → Option ApiError
  check_signature p key none = some (api_error 403 invalid_vnode_proof)
  check_signature p key (some sig) =
      if not (length sig == 64)
      then some (api_error 403 invalid_vnode_proof)
      else if not (ed.verify key (build_proof_canonical p) sig)
      then some (api_error 403 invalid_vnode_proof)
      else none

  -- `none` for a `nil` error.
  unfoldable pub verify_vnode_proof : ℕ → VnodeProof → Bytes → ℕ → Option ApiError
  verify_vnode_proof now p key skew =
      if less ((p.expires_at + skew) % whole) now
      then some (api_error 403 proof_expired)
      else if not (same (derive_vnode_id p.anchor_id p.index) p.vnode_id)
      then some (api_error 403 invalid_vnode_proof)
      else check_signature p key (ed.decode p.signature)
