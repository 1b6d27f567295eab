-- ===== src/Store.antt =====
-- A Go map with a `container/list` of its keys beside it, the most recent key first: the structure
-- under the caches of internal/chord (routing_cache.go and shared_resources.go).
-- A map is an association list, and an element of the list is known by its key.
pub mod Laws
pub mod Coherence
use chord_dht.Base.{
  ℕ, suc, ◌≡◌, Bool, true, false, Option, none, some, List, [], ◌∷◌, map, Bytes, same,
  if◌then◌else◌,
}

pub record Store (V : Type 0) : Type 0 where
  pub items : List (Bytes × V)
  pub order : List Bytes

module _ {V : Type 0} where
  abbrev pub keys : List (Bytes × V) → List Bytes
  keys [] = []
  keys (e ∷ l) = e.0 ∷ keys l

  -- `items[key]`
  unfoldable pub find : Bytes → List (Bytes × V) → Option V
  find k [] = none
  find k (e ∷ l) = if same e.0 k then some e.1 else find k l

  -- A write through the pointer that the map holds for a key.
  unfoldable pub update : Bytes → V → List (Bytes × V) → List (Bytes × V)
  update k v [] = []
  update k v (e ∷ l) = let rest = update k v l in if same e.0 k then (k, v) ∷ l else e ∷ rest

  -- `delete(items, key)`
  unfoldable pub delete : Bytes → List (Bytes × V) → List (Bytes × V)
  delete k [] = []
  delete k (e ∷ l) = let rest = delete k l in if same e.0 k then l else e ∷ rest

-- `order.Remove(elem)`
unfoldable pub erase : Bytes → List Bytes → List Bytes
erase k [] = []
erase k (x ∷ xs) = let rest = erase k xs in if same x k then xs else x ∷ rest

-- `order.Back()`
unfoldable pub back : List Bytes → Option Bytes
back [] = none
back (x ∷ []) = some x
back (x ∷ y ∷ xs) = back (y ∷ xs)

module _ {V : Type 0} where
  unfoldable pub empty : Store V
  empty = record { items = []; order = [] }

  unfoldable pub move_to_front : Bytes → Store V → Store V
  move_to_front k s = record s { order = k ∷ erase k s.order }

  -- A new value for a key that is there, which becomes the most recent one.
  unfoldable pub overwrite : Bytes → V → Store V → Store V
  overwrite k v s = record { items = update k v s.items; order = k ∷ erase k s.order }

  unfoldable pub push_front : Bytes → V → Store V → Store V
  push_front k v s = record { items = (k, v) ∷ s.items; order = k ∷ s.order }

  unfoldable pub evict : Bytes → Store V → Store V
  evict k s = record { items = delete k s.items; order = erase k s.order }

  unfoldable pub evict_back : Store V → Store V
  unfolding evict
  evict_back s = elim (back s.order) [ none ↦ s | some k ↦ evict k s ]
