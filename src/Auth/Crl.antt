-- ===== src/Auth/Crl.antt =====
-- internal/auth/crl.go: the revocation list.
use chord_dht.Base.{
  ℕ, Bool, false, Option, none, some, List, [], ◌∷◌, ◌++◌, Bytes, codes, has, if◌then◌else◌,
}
use chord_dht.Auth.Certificates.{Crypto, sized}
use chord_dht.Auth.Int64.{less}

pub record Crl : Type 0 where
  pub version : ℕ
  pub updated_at : ℕ
  pub revoked_ids : List Bytes
  pub signature : Bytes

-- `strings.Join(ids, ",")`
unfoldable pub join : List Bytes → Bytes
join [] = []
join (a ∷ []) = a
join (a ∷ b ∷ l) = a ++ codes "," ++ join (b ∷ l)

module _ (cr : Crypto) (sort : List Bytes → List Bytes) where
  unfoldable pub crl_signed_message : Crl → Bytes
  crl_signed_message c =
      codes "chord-crl-v1\nversion="
      ++ cr.decimal c.version
      ++ codes "\nupdated_at="
      ++ cr.decimal c.updated_at
      ++ codes "\nrevoked_node_ids="
      ++ join (sort c.revoked_ids)

  -- `true` for a `nil` error.
  unfoldable pub verify_crl : Crl → Bytes → Bool
  verify_crl c ca = if less c.version 1 then false else elim (sized 64 (cr.base64url c.signature)) [
    | none ↦ false
    | some sig ↦ cr.verify ca (crl_signed_message c) sig
  ]

-- The method of a pointer that may be `nil`.
unfoldable pub is_revoked : Bytes → Option Crl → Bool
is_revoked id none = false
is_revoked id (some c) = has id c.revoked_ids
