-- ===== src/RoutingCache/Coherence.antt =====
-- The routing cache stays coherent and within its capacity.
use chord_dht.Base.{
  ℕ, ◌≤◌, ◌<◌, ◌≡◌, refl, sym, ◌∙◌, Bool, true, false, ◌||◌, Option, none, some, List, [], ◌∷◌,
  Bytes, is_empty, has, length, leb, arith, inl, inr, Bool-cases, Option-cases, if◌then◌else◌, any,
  Visits, same, same_iff,
}
use native.Mathlib.Nat.{le_trans}
use chord_dht.Types.{NodeInfo}
use chord_dht.Store.{Store, keys, find, move_to_front, overwrite, push_front, evict}
use chord_dht.Store.Laws.{IsCoherent, has-keys-any, has-keys_of_find, not_has-keys_of_find}
use chord_dht.Store.Coherence.{
  not_has-evict_back, length-order-front, length-order-evict, empty-IsCoherent,
  move_to_front-IsCoherent, overwrite-IsCoherent, push_front-IsCoherent, evict-IsCoherent_any,
  evict_back_lem,
}
use chord_dht.RoutingCache.{
  RoutingCache, RoutingEntry, hit, new_routing_cache, expired, covers, first_cover, get, make_room,
  put, invalidate_all, sweep, cleanup,
}

pub record IsValid (c : RoutingCache) : Type 0 where
  pub positive : 0 < c.capacity
  pub coherent : IsCoherent c.store
  pub bounded : length c.store.order ≤ c.capacity

-- A new cache is valid, whatever capacity is asked for.
pub new_routing_cache-IsValid : (capacity ttl : ℕ) → IsValid (new_routing_cache capacity ttl)
unfolding new_routing_cache
new_routing_cache-IsValid capacity ttl = record {
  positive = ground arith;
  coherent = empty-IsCoherent;
  bounded = omega arith;
}

make_room_lem :
    (capacity : ℕ) (s : Store RoutingEntry)
    → 0 < capacity
    → IsCoherent s
    → length s.order ≤ capacity
    → IsCoherent (make_room capacity s) × (length (make_room capacity s).order < capacity)
unfolding make_room
make_room_lem capacity s pos c b = elim (Bool-cases (leb capacity (length s.order))) [
  | inl full ↦
      let room = evict_back_lem s c (ground arith) in rw full (room.0, omega (arith, room.1))
  | inr free ↦ rw free (c, ground arith)
]

not_has-make_room :
    (capacity : ℕ) (s : Store RoutingEntry) (k : Bytes)
    → has k (keys s.items) ≡ false
    → has k (keys (make_room capacity s).items) ≡ false
unfolding make_room
not_has-make_room capacity s k h = elim (Bool-cases (leb capacity (length s.order))) [
  | inl full ↦ rw (full, make_room) (not_has-evict_back k s h)
  | inr free ↦ rw (free, make_room) h
]

put_entry-IsValid :
    (target : Bytes) (entry : RoutingEntry) (c : RoutingCache)
    → IsValid c
    → (o : Option RoutingEntry) → find target c.store.items ≡ o
    → IsValid (elim o [
      | some _ ↦ record c { store = overwrite target entry c.store }
      | none ↦ record c { store = push_front target entry (make_room c.capacity c.store) }
    ])
put_entry-IsValid target entry c v (some old) e =
    let there = has-keys_of_find target c.store.items old e in
    record {
      positive = v.positive;
      coherent = overwrite-IsCoherent target entry c.store v.coherent there;
      bounded =
          unfold overwrite in
          omega (arith, length-order-front target c.store v.coherent there, v.bounded);
    }
put_entry-IsValid target entry c v none e =
    let room = make_room_lem c.capacity c.store v.positive v.coherent v.bounded in
    record {
      positive = v.positive;
      coherent = push_front-IsCoherent target entry (make_room c.capacity c.store) room.0 (
          not_has-make_room c.capacity c.store target
            (not_has-keys_of_find target c.store.items e));
      bounded = unfold push_front in room.1;
    }

-- `Put` keeps a valid cache valid: the list and the map agree, and the capacity is not passed.
pub put-IsValid :
    (now : ℕ) (target predecessor : Bytes) (successor : NodeInfo) (c : RoutingCache)
    → IsValid c
    → IsValid (put now target predecessor successor c)
unfolding put
put-IsValid now target predecessor successor c v =
    elim (Bool-cases (is_empty target || is_empty successor.node_id)) [
      | inl skip ↦ rw skip v
      | inr go ↦ rw go (put_entry-IsValid target _ c v (find target c.store.items) refl)
    ]

pub first_cover_member :
    (c : RoutingCache) (now : ℕ) (target : Bytes) (l : List (Bytes × RoutingEntry))
    (e : Bytes × RoutingEntry) (p : Bytes × RoutingEntry → Bool)
    → first_cover c now target l ≡ some e
    → (covers c now target e.1 ≡ true) × (p e ≡ true → any p l ≡ true)
unfolding first_cover
first_cover_member c now target [] e p h = absurd (ground arith)
first_cover_member c now target (f ∷ l) e p h =
    ground (arith, first_cover_member c now target l e p)

hit-IsValid :
    (k : Bytes) (c : RoutingCache)
    → IsValid c
    → has k (keys c.store.items) ≡ true
    → IsValid (hit k c)
hit-IsValid k c v there = record {
  positive = v.positive;
  coherent = move_to_front-IsCoherent k c.store v.coherent there;
  bounded =
      unfold move_to_front in
      omega (arith, length-order-front k c.store v.coherent there, v.bounded);
}

-- `Get` keeps a valid cache valid, in whatever order the range meets the entries.
pub get-IsValid :
    (visit : List (Bytes × RoutingEntry) → List (Bytes × RoutingEntry)) (now : ℕ) (target : Bytes)
    (c : RoutingCache)
    → Visits visit
    → IsValid c
    → IsValid (get visit now target c).1
unfolding get
get-IsValid visit now target c fair v = elim (Option-cases (find target c.store.items)) [
  | inr (e, found) ↦ elim (Bool-cases (expired c now e)) [
    | inl old ↦
        rw (found, get, old)
          (record {
            positive = v.positive;
            coherent = evict-IsCoherent_any target c.store v.coherent;
            bounded = omega (arith, length-order-evict target c.store, v.bounded);
          })
    | inr young ↦
        rw (found, get, young)
          (hit-IsValid target c v (has-keys_of_find target c.store.items e found))
  ]
  | inl missing ↦ elim (Option-cases (first_cover c now target (visit c.store.items))) [
    | inl nothing ↦
        rw (missing, get, nothing)
          (record { positive = v.positive; coherent = v.coherent; bounded = v.bounded })
    | inr (e, cover) ↦
        rw (missing, get, cover)
          (hit-IsValid e.0 c v (
            has-keys-any e.0 c.store.items
            ∙ sym (fair (λ f. same e.0 f.0) c.store.items)
            ∙ (first_cover_member c now target (visit c.store.items) e (λ f. same e.0 f.0) cover).1
                ((same_iff _ _).1 refl)))
  ]
]

sweep_step :
    (c : RoutingCache) (now : ℕ) (e : Bytes × RoutingEntry) (s : Store RoutingEntry)
    → IsCoherent s
    → IsCoherent (if expired c now e.1 then evict e.0 s else s)
      × (length (if expired c now e.1 then evict e.0 s else s).order ≤ length s.order)
sweep_step c now e s h = elim (Bool-cases (expired c now e.1)) [
  | inl old ↦ rw old (evict-IsCoherent_any e.0 s h, length-order-evict e.0 s)
  | inr young ↦ rw young (h, omega arith)
]

sweep_lem :
    (c : RoutingCache) (now : ℕ) (l : List (Bytes × RoutingEntry)) (s : Store RoutingEntry)
    → IsCoherent s
    → IsCoherent (sweep c now l s) × (length (sweep c now l s).order ≤ length s.order)
unfolding sweep
sweep_lem c now [] s h = (h, omega arith)
sweep_lem c now (e ∷ l) s h =
    let s' = if expired c now e.1 then evict e.0 s else s in
    let step = sweep_step c now e s h in
    let rest = sweep_lem c now l s' step.0 in (rest.0, le_trans rest.1 step.1)

-- `Cleanup` keeps a valid cache valid.
pub cleanup-IsValid : (now : ℕ) (c : RoutingCache) → IsValid c → IsValid (cleanup now c)
unfolding cleanup
cleanup-IsValid now c v =
    let swept = sweep_lem c now c.store.items c.store v.coherent in
    record {
      positive = v.positive;
      coherent = swept.0;
      bounded = omega (arith, swept.1, v.bounded);
    }

pub invalidate_all-IsValid : (c : RoutingCache) → IsValid c → IsValid (invalidate_all c)
unfolding invalidate_all
invalidate_all-IsValid c v = record {
  positive = v.positive;
  coherent = empty-IsCoherent;
  bounded = omega arith;
}
