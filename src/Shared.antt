-- ===== src/Shared.antt =====
-- internal/chord/shared_resources.go: the caches that a process shares among its virtual nodes. Both
-- stand on a map and a list of its keys. SHA-1 and the printing of a number are parameters.
pub mod Bounds
use chord_dht.Base.{
  ℕ, ◌+◌, Bool, true, false, not, Option, none, some, List, [], ◌∷◌, ◌++◌, Bytes, is_empty, length,
  ltb, leb, if◌then◌else◌,
}
use chord_dht.Store.{Store, find, empty, overwrite, push_front, evict, evict_back}
use chord_dht.Types.{NodeInfo}

pub record NodeInfoEntry : Type 0 where
  pub node : NodeInfo
  pub cached_at : ℕ

pub record NodeInfoCache : Type 0 where
  pub size : ℕ
  pub ttl : ℕ
  pub store : Store NodeInfoEntry

unfoldable pub new_node_info_cache : ℕ → ℕ → NodeInfoCache
unfolding empty
new_node_info_cache size ttl = record {
  size = if leb size 0 then 2048 else size;
  ttl = if leb ttl 0 then 30_000_000_000 else ttl;
  store = empty;
}

-- The oldest entry leaves a full cache.
unfoldable pub evict_oldest : {V : Type 0} → ℕ → Store V → Store V
evict_oldest size s = if leb size (length s.order) then evict_back s else s

unfoldable pub put_info : ℕ → NodeInfo → NodeInfoCache → NodeInfoCache
unfolding evict_oldest
put_info now node c =
    let entry : NodeInfoEntry = record { node = node; cached_at = now } in
    if is_empty node.node_id then c else elim (find node.node_id c.store.items) [
      | some _ ↦ record c { store = overwrite node.node_id entry c.store }
      | none ↦ record c { store = push_front node.node_id entry (evict_oldest c.size c.store) }
    ]

-- The read finds no other writer between its two locks.
unfoldable pub get_info : ℕ → Bytes → NodeInfoCache → Option NodeInfo × NodeInfoCache
get_info now id c = elim (find id c.store.items) [
  | none ↦ (none, c)
  | some e ↦
      if ltb (e.cached_at + c.ttl) now
      then (none, record c { store = evict id c.store })
      else (some e.node, c)
]

-- `items` and `order`; an entry pushed to the list does not hold its own list element, and its key is
-- what is deleted with it.
pub record ProofVerifyCache : Type 0 where
  pub size : ℕ
  pub store : Store Bool

unfoldable pub new_proof_verify_cache : ℕ → ProofVerifyCache
unfolding empty
new_proof_verify_cache size = record { size = if leb size 0 then 256 else size; store = empty }

-- SHA-1 in hex, and `%d`
module _ (sha1_hex : Bytes → Bytes) (decimal : ℕ → Bytes) where
  unfoldable pub proof_cache_key : Bytes → Bytes → ℕ → Bytes
  proof_cache_key vnode anchor expires = sha1_hex (vnode ++ anchor ++ decimal expires)

  unfoldable pub put_proof : Bytes → Bytes → ℕ → Bool → ProofVerifyCache → ProofVerifyCache
  unfolding evict_oldest
  put_proof vnode anchor expires valid c =
      elim (find (proof_cache_key vnode anchor expires) c.store.items) [
        | some _ ↦ c
        | none ↦ record c {
          store =
              push_front (proof_cache_key vnode anchor expires) valid (evict_oldest c.size c.store);
        }
      ]

  unfoldable pub get_proof : Bytes → Bytes → ℕ → ProofVerifyCache → Option Bool
  get_proof vnode anchor expires c = find (proof_cache_key vnode anchor expires) c.store.items

unfoldable pub invalidate : ProofVerifyCache → ProofVerifyCache
unfolding empty
invalidate c = record c { store = empty }
