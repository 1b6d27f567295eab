-- ===== src/Uri/Checks.antt =====
-- What the checks of a node's description establish.
use chord_dht.Base.{
  ◌≡◌, ◌⊎◌, ◌↔◌, inl, inr, true, false, some, Bytes, is_empty, arith, Option-cases,
}
use chord_dht.Id.{validate_id}
use chord_dht.Types.{NodeInfo}
use chord_dht.Uri.{Platform, normalize_uri, hash_uri, validate_node_info, new_node_info_from_uri}

module _ (os : Platform) where
  -- A description passes `ValidateNodeInfo` exactly when its identifier is 40 lower-case hex
  -- digits, its URI is in normal form, and, unless it names an anchor, its identifier is the SHA-1
  -- digest of the URI.
  pub validate_node_info_iff :
      (node : NodeInfo)
      → (validate_node_info os node ≡ true) ↔ (
          (validate_id node.node_id ≡ true)
          × (normalize_uri os node.uri ≡ some node.uri)
          × ((is_empty node.anchor_id ≡ false) ⊎ (os.sha1_hex node.uri ≡ node.node_id)))
  unfolding validate_node_info hash_uri
  validate_node_info_iff node = (λ h. ground arith, λ h. ground arith)

  -- The node that `NewNodeInfoFromURI` makes passes the check of its peers, if the normal form of a
  -- URI is its own normal form and digests are well formed.
  pub new_node_info_from_uri-valid :
      (uri : Bytes) (node : NodeInfo)
      → ((u n : Bytes) → normalize_uri os u ≡ some n → normalize_uri os n ≡ some n)
      → ((u : Bytes) → validate_id (os.sha1_hex u) ≡ true)
      → new_node_info_from_uri os uri ≡ some node
      → validate_node_info os node ≡ true
  unfolding new_node_info_from_uri validate_node_info hash_uri
  new_node_info_from_uri-valid uri node stable formed h =
      elim (Option-cases (normalize_uri os uri)) [
        | inl bad ↦ absurd (ground arith)
        | inr (n, e) ↦ ground (arith, stable uri n e, formed n)
      ]
