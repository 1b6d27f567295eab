-- ===== src/Shared/Bounds.antt =====
-- The shared caches stay coherent and within their sizes, and the first verdict of a proof stays.
use chord_dht.Base.{
  ℕ, ◌+◌, ◌≤◌, ◌<◌, ◌≡◌, Bool, false, Option, none, some, Bytes, is_empty, has, length, ltb, leb,
  arith, if_cases, option_cases, Option-cases, inl, inr,
}
use chord_dht.Shared.{
  NodeInfoCache, ProofVerifyCache, put_info, get_info, evict_oldest, proof_cache_key, put_proof,
  get_proof,
}
use chord_dht.Store.{Store, keys, find, overwrite, push_front}
use chord_dht.Store.Laws.{IsCoherent, has-keys_of_find, not_has-keys_of_find}
use chord_dht.Store.Coherence.{
  not_has-evict_back, length-order-front, length-order-evict, overwrite-IsCoherent,
  push_front-IsCoherent, evict-IsCoherent_any, evict_back_lem,
}
use chord_dht.Types.{NodeInfo}

module _ {V : Type 0} where
  pub record IsWithin (size : ℕ) (s : Store V) : Type 0 where
    pub positive : 0 < size
    pub coherent : IsCoherent s
    pub bounded : length s.order ≤ size

  evict_oldest_lem :
      (size : ℕ) (s : Store V)
      → IsWithin size s
      → IsCoherent (evict_oldest size s) × (length (evict_oldest size s).order < size)
  unfolding evict_oldest
  evict_oldest_lem size s h =
      if_cases {A = Store V} (λ t. IsCoherent t × (length t.order < size))
        (leb size (length s.order))
        (λ full.
          let room = evict_back_lem s h.coherent (ground (arith, h.positive)) in
          (room.0, ground (arith, room.1, h.bounded)))
        (λ free. (h.coherent, ground arith))

  not_has-evict_oldest :
      (size : ℕ) (s : Store V) (k : Bytes)
      → has k (keys s.items) ≡ false
      → has k (keys (evict_oldest size s).items) ≡ false
  unfolding evict_oldest
  not_has-evict_oldest size s k h =
      if_cases {A = Store V} (λ t. has k (keys t.items) ≡ false) (leb size (length s.order))
        (λ _. not_has-evict_back k s h) (λ _. h)

  push-IsWithin :
      (size : ℕ) (s : Store V) (k : Bytes) (v : V)
      → IsWithin size s
      → find k s.items ≡ none
      → IsWithin size (push_front k v (evict_oldest size s))
  push-IsWithin size s k v h new =
      let room = evict_oldest_lem size s h in
      record {
        positive = h.positive;
        coherent =
            push_front-IsCoherent k v (evict_oldest size s) room.0
              (not_has-evict_oldest size s k (not_has-keys_of_find k s.items new));
        bounded = unfold push_front in room.1;
      }

  overwrite-IsWithin :
      (size : ℕ) (s : Store V) (k : Bytes) (v old : V)
      → IsWithin size s
      → find k s.items ≡ some old
      → IsWithin size (overwrite k v s)
  overwrite-IsWithin size s k v old h found =
      let there = has-keys_of_find k s.items old found in
      record {
        positive = h.positive;
        coherent = overwrite-IsCoherent k v s h.coherent there;
        bounded =
            unfold overwrite in omega (arith, length-order-front k s h.coherent there, h.bounded);
      }

abbrev pub InfoValid : NodeInfoCache → Type 0
InfoValid c = IsWithin c.size c.store

-- A write keeps a valid cache of node descriptions valid: the list and the map agree, and the size is
-- not passed.
pub put_info-InfoValid :
    (now : ℕ) (node : NodeInfo) (c : NodeInfoCache) → InfoValid c → InfoValid (put_info now node c)
unfolding put_info
put_info-InfoValid now node c h =
    if_cases InfoValid (is_empty node.node_id) (λ _. h)
      (λ _.
        option_cases InfoValid (find node.node_id c.store.items)
          (λ new.
            push-IsWithin c.size c.store node.node_id (record { node = node; cached_at = now }) h
              new)
          (λ old found.
            overwrite-IsWithin c.size c.store node.node_id (record { node = node; cached_at = now })
              old h found))

-- A read keeps a cache of node descriptions valid, the removal of an expired entry included.
pub get_info-InfoValid :
    (now : ℕ) (id : Bytes) (c : NodeInfoCache) → InfoValid c → InfoValid (get_info now id c).1
unfolding get_info
get_info-InfoValid now id c h =
    option_cases {A = Option NodeInfo × NodeInfoCache} (λ a. InfoValid a.1) (find id c.store.items)
      (λ _. h)
      (λ e _.
        if_cases {A = Option NodeInfo × NodeInfoCache} (λ a. InfoValid a.1)
          (ltb (e.cached_at + c.ttl) now)
          (λ _. record {
            positive = h.positive;
            coherent = evict-IsCoherent_any id c.store h.coherent;
            bounded = ground (arith, length-order-evict id c.store, h.bounded);
          })
          (λ _. h))

module _ (sha1_hex : Bytes → Bytes) (decimal : ℕ → Bytes) where
  -- In a cache that is coherent and within its size, a write leaves a verdict that is there as it is and
  -- makes a new one readable, and the cache stays coherent and within its size.
  pub get_proof-put_proof :
      (vnode anchor : Bytes) (expires : ℕ) (valid : Bool) (c : ProofVerifyCache)
      → IsWithin c.size c.store
      → (get_proof sha1_hex decimal vnode anchor expires
            (put_proof sha1_hex decimal vnode anchor expires valid c)
          ≡ elim (get_proof sha1_hex decimal vnode anchor expires c) [
            | none ↦ some valid
            | some old ↦ some old
          ])
        × IsWithin c.size (put_proof sha1_hex decimal vnode anchor expires valid c).store
  unfolding get_proof put_proof find push_front
  get_proof-put_proof vnode anchor expires valid c h =
      let k = proof_cache_key sha1_hex decimal vnode anchor expires in
      elim (Option-cases (find k c.store.items)) [
        | inl new ↦ (
          rw new (ground arith),
          rw (new, put_proof) (push-IsWithin c.size c.store k valid h new),
        )
        | inr (old, found) ↦ (rw found (ground arith), rw (found, put_proof) h)
      ]
