-- ===== src/RoutingCache.antt =====
-- internal/chord/routing_cache.go: the LRU cache of lookup results, with a time to live, whose
-- entries answer for the whole interval between a node and its successor.
pub mod Coherence
pub mod Answers
use chord_dht.Base.{
  ℕ, suc, ◌+◌, Bool, true, false, not, ◌||◌, Option, none, some, List, [], ◌∷◌, Bytes, is_empty,
  length, ltb, leb, if◌then◌else◌, keep,
}
use chord_dht.Id.{in_range_open_closed}
use chord_dht.Types.{NodeInfo}
use chord_dht.Store.{
  Store, keys, find, empty, move_to_front, overwrite, push_front, evict, evict_back,
}

-- The key of an entry is its `targetID`; the list element is the key in the store's order.
pub record RoutingEntry : Type 0 where
  pub predecessor_id : Bytes
  pub successor : NodeInfo
  pub cached_at : ℕ

pub record RoutingCache : Type 0 where
  pub capacity : ℕ
  pub ttl : ℕ
  pub store : Store RoutingEntry
  pub hits : ℕ
  pub misses : ℕ

abbrev pub default_size : ℕ
default_size = 1000

-- 30 seconds, in nanoseconds
abbrev pub default_ttl : ℕ
default_ttl = 30_000_000_000

unfoldable pub new_routing_cache : ℕ → ℕ → RoutingCache
unfolding empty
new_routing_cache capacity ttl = record {
  capacity = if leb capacity 0 then default_size else capacity;
  ttl = if leb ttl 0 then default_ttl else ttl;
  store = empty;
  hits = 0;
  misses = 0;
}

-- `time.Since(entry.cachedAt) > c.ttl`
abbrev pub expired : RoutingCache → ℕ → RoutingEntry → Bool
expired c now e = ltb (e.cached_at + c.ttl) now

unfoldable pub covers : RoutingCache → ℕ → Bytes → RoutingEntry → Bool
covers c now target e =
    if expired c now e
    then false
    else if is_empty e.predecessor_id
    then false
    else in_range_open_closed target e.predecessor_id e.successor.node_id

-- The loop over the map, which visits the entries in an order that Go leaves open.
unfoldable pub first_cover :
    RoutingCache → ℕ → Bytes → List (Bytes × RoutingEntry) → Option (Bytes × RoutingEntry)
first_cover c now target [] = none
first_cover c now target (e ∷ l) =
    if covers c now target e.1 then some e else first_cover c now target l

abbrev pub hit : Bytes → RoutingCache → RoutingCache
hit k c = record c { store = move_to_front k c.store; hits = c.hits + 1 }

abbrev pub miss : RoutingCache → RoutingCache
miss c = record c { misses = c.misses + 1 }

-- `visit` is the order in which the loop meets the entries of the map.
unfoldable pub get :
    (List (Bytes × RoutingEntry) → List (Bytes × RoutingEntry))
    → ℕ
    → Bytes
    → RoutingCache
    → Option NodeInfo × RoutingCache
unfolding first_cover
get visit now target c = elim (find target c.store.items) [
  | some e ↦
      if expired c now e
      then (none, miss (record c { store = evict target c.store }))
      else (some e.successor, hit target c)
  | none ↦ elim (first_cover c now target (visit c.store.items)) [
    | some (k, e) ↦ (some e.successor, hit k c)
    | none ↦ (none, miss c)
  ]
]

-- `evictLRU` if the list is full, before an entry is added
unfoldable pub make_room : ℕ → Store RoutingEntry → Store RoutingEntry
make_room capacity s = if leb capacity (length s.order) then evict_back s else s

unfoldable pub put : ℕ → Bytes → Bytes → NodeInfo → RoutingCache → RoutingCache
unfolding make_room
put now target predecessor successor c =
    let entry : RoutingEntry = record {
      predecessor_id = predecessor;
      successor = successor;
      cached_at = now;
    } in
    if is_empty target || is_empty successor.node_id then c else elim (find target c.store.items) [
      | some _ ↦ record c { store = overwrite target entry c.store }
      | none ↦ record c { store = push_front target entry (make_room c.capacity c.store) }
    ]

unfoldable pub invalidate_all : RoutingCache → RoutingCache
unfolding empty
invalidate_all c = record c { store = empty }

-- The loop of `Cleanup` over the entries that the range meets.
unfoldable pub sweep :
    RoutingCache → ℕ → List (Bytes × RoutingEntry) → Store RoutingEntry → Store RoutingEntry
sweep c now [] s = s
sweep c now (e ∷ l) s = sweep c now l (if expired c now e.1 then evict e.0 s else s)

unfoldable pub cleanup : ℕ → RoutingCache → RoutingCache
unfolding sweep
cleanup now c = record c { store = sweep c now c.store.items c.store }

unfoldable pub stats : RoutingCache → ℕ × ℕ × ℕ
stats c = (c.hits, c.misses, length c.store.items)
