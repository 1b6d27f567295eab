-- ===== src/Tests/Caches.antt =====
-- The caches.
use mathlib.Core.List.{Memᴰ}
use chord_dht.Base.{
  ◌+◌, ◌≤◌, ◌≡◌, ◌⊎◌, refl, true, false, some, [], ◌∷◌, Bytes, Bytes-discrete, length, arith,
}
use chord_dht.Auth.Nonces.{NonceCache, new_nonce_cache, add, added, cleaned, run}
use chord_dht.Auth.Nonces.Replay.{add-once, run-new_nonce_cache}
use chord_dht.Id.{in_range_open_closed}
use chord_dht.RoutingCache.{RoutingCache, RoutingEntry, new_routing_cache, put, get}
use chord_dht.RoutingCache.Coherence.{IsValid, new_routing_cache-IsValid, put-IsValid}
use chord_dht.RoutingCache.Answers.{get_sound}
use chord_dht.Store.{empty, find, push_front, overwrite}
use chord_dht.Tests.Data.{in_order, id_a, id_b, id_c, node_c}

abbrev small : RoutingCache
small = new_routing_cache 2 100

abbrev filled : RoutingCache
filled = put 5 id_b id_a node_c (put 3 id_c id_a node_c small)

filled-IsValid : IsValid filled
filled-IsValid =
    put-IsValid 5 id_b id_a node_c (put 3 id_c id_a node_c small)
      (put-IsValid 3 id_c id_a node_c small (new_routing_cache-IsValid 2 100))

filled-answers : (get in_order 50 id_b filled).0 ≡ some node_c
unfolding new_routing_cache put get find push_front overwrite empty Bytes-discrete
filled-answers = refl

get_sound_example :
    (k : Bytes) × (e : RoutingEntry) × Memᴰ (k, e) filled.store.items
    × (e.successor ≡ node_c)
    × (50 ≤ e.cached_at + filled.ttl)
    × ((k ≡ id_b) ⊎ (in_range_open_closed id_b e.predecessor_id e.successor.node_id ≡ true))
get_sound_example = get_sound in_order 50 id_b filled node_c (λ e l there. there) filled-answers

abbrev nonces : NonceCache
nonces = new_nonce_cache 100 2

first-taken : (add id_a 5 nonces).0 ≡ true
unfolding add new_nonce_cache find
first-taken = refl

add-once_example :
    (add id_a 300 (run (cleaned 50 ∷ added id_b 60 ∷ []) (add id_a 5 nonces).1)).0 ≡ false
unfolding new_nonce_cache
add-once_example =
    add-once id_a 5 300 nonces (cleaned 50 ∷ added id_b 60 ∷ []) first-taken
      (omega arith, (omega arith, tt))

run-new_nonce_cache_example :
    length (run (added id_a 1 ∷ added id_b 2 ∷ added id_c 3 ∷ []) (new_nonce_cache 100 2)).entries
    ≤ 2
run-new_nonce_cache_example =
    run-new_nonce_cache 100 2 (added id_a 1 ∷ added id_b 2 ∷ added id_c 3 ∷ [])
