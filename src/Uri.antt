-- ===== src/Uri.antt =====
-- Node URIs and what a peer's description must satisfy: `NormalizeURI` and `HashURI` of
-- internal/chord/id.go (its copy in internal/auth/cert.go is the same function), and
-- `NewNodeInfoFromURI` and `ValidateNodeInfo` of internal/chord/node.go.
-- Go's `net/url`, `net`, `strings` and `crypto/sha1` are parameters.
pub mod Checks
use chord_dht.Base.{
  Bool, true, false, not, ◌&&◌, ◌||◌, Option, none, some, List, [], ◌∷◌, ◌++◌, Bytes, codes, same,
  is_empty, if◌then◌else◌,
}
use chord_dht.Id.{validate_id}
use chord_dht.Types.{NodeInfo, info}

-- The parts of a `url.URL` that are read.
pub record Url : Type 0 where
  pub scheme : Bytes
  pub host : Bytes
  pub has_user : Bool
  pub raw_query : Bytes
  pub fragment : Bytes
  pub path : Bytes
  pub hostname : Bytes
  pub port : Bytes

pub record Platform : Type 0 where
  pub trim_space : Bytes → Bytes
  pub parse_url : Bytes → Option Url
  pub to_lower : Bytes → Bytes
  pub contains_colon : Bytes → Bool
  pub trim_brackets : Bytes → Bytes
  pub known_port : Bytes → Bool
  pub join_host_port : Bytes → Bytes → Bytes
  pub sha1_hex : Bytes → Bytes

module _ (os : Platform) where
  unfoldable pub written_host : Bytes → Bytes
  written_host host = if os.contains_colon host then codes "[" ++ (host ++ codes "]") else host

  unfoldable pub with_port : Bytes → Bytes → Option Bytes
  with_port host port =
      if is_empty port || same port (codes "443")
      then some (codes "https://" ++ host)
      else if os.known_port port
      then some (codes "https://" ++ os.join_host_port (os.trim_brackets host) port)
      else none

  unfoldable pub normalize_url : Url → Option Bytes
  normalize_url u =
      if not (same u.scheme (codes "https"))
      then none
      else if is_empty u.host
          || (u.has_user || (not (is_empty u.raw_query) || not (is_empty u.fragment)))
      then none
      else if not (is_empty u.path) && not (same u.path (codes "/"))
      then none
      else if is_empty (os.to_lower u.hostname)
      then none
      else with_port (written_host (os.to_lower u.hostname)) u.port

  unfoldable pub normalize_uri : Bytes → Option Bytes
  normalize_uri raw = elim (os.parse_url (os.trim_space raw)) [
    | none ↦ none
    | some u ↦ normalize_url u
  ]

  unfoldable pub hash_uri : Bytes → Option Bytes
  hash_uri uri = elim (normalize_uri uri) [ none ↦ none | some n ↦ some (os.sha1_hex n) ]

  unfoldable pub new_node_info_from_uri : Bytes → Option NodeInfo
  new_node_info_from_uri uri = elim (normalize_uri uri) [
    | none ↦ none
    | some normalized ↦ elim (hash_uri normalized) [
      | none ↦ none
      | some id ↦ some (info id normalized [] [])
    ]
  ]

  -- `true` for a `nil` error.
  unfoldable pub validate_node_info : NodeInfo → Bool
  validate_node_info node =
      if not (validate_id node.node_id) then false else elim (normalize_uri node.uri) [
        | none ↦ false
        | some normalized ↦
            if not (same normalized node.uri)
            then false
            else if not (is_empty node.anchor_id)
            then true
            else elim (hash_uri node.uri) [
              | none ↦ false
              | some expected ↦ same expected node.node_id
            ]
      ]
