-- ===== src/RoutingCache/Answers.antt =====
-- What the routing cache answers.
use mathlib.Core.List.{Memᴰ}
use mathlib.Core.Option.{none-ne-some}
use chord_dht.Base.{
  ℕ, ◌+◌, ◌≤◌, ◌≡◌, refl, sym, true, false, Option, some, some_inj, List, [], ◌∷◌, if_cases, Bytes,
  is_empty, arith, inl, inr, Option-cases, same, same_iff, ◌⊎◌,
}
use chord_dht.Id.{in_range_open_closed}
use chord_dht.Types.{NodeInfo}
use chord_dht.Store.{find, overwrite, push_front}
use chord_dht.Store.Laws.{has-keys_of_find, find-update_self}
use chord_dht.RoutingCache.Coherence.{first_cover_member}
use chord_dht.RoutingCache.{RoutingCache, RoutingEntry, covers, first_cover, get, put}

find-put :
    (now : ℕ) (target predecessor : Bytes) (successor : NodeInfo) (c : RoutingCache)
    → is_empty target ≡ false
    → is_empty successor.node_id ≡ false
    → (e : RoutingEntry) × (e.successor ≡ successor)
      × (e.cached_at ≡ now)
      × (find target (put now target predecessor successor c).store.items ≡ some e)
unfolding put find push_front overwrite
find-put now target predecessor successor c ht hs =
    elim (Option-cases (find target c.store.items)) [
      | inl new ↦ (
        record { predecessor_id = predecessor; successor = successor; cached_at = now },
        refl,
        refl,
        rw (ht, hs, new, push_front) (ground arith),
      )
      | inr (old, e) ↦ (
        record { predecessor_id = predecessor; successor = successor; cached_at = now },
        refl,
        refl,
        rw (ht, hs, e, overwrite)
            (find-update_self target _ c.store.items (has-keys_of_find target c.store.items old e)),
      )
    ]

ttl-put :
    (now : ℕ) (target predecessor : Bytes) (successor : NodeInfo) (c : RoutingCache)
    → (put now target predecessor successor c).ttl ≡ c.ttl
unfolding put
ttl-put now target predecessor successor c = ground arith

-- A lookup result that was put is what a get for the same target returns, until the time to live
-- is over.
pub get-put :
    (visit : List (Bytes × RoutingEntry) → List (Bytes × RoutingEntry)) (now later : ℕ)
    (target predecessor : Bytes) (successor : NodeInfo) (c : RoutingCache)
    → is_empty target ≡ false
    → is_empty successor.node_id ≡ false
    → later ≤ now + c.ttl
    → (get visit later target (put now target predecessor successor c)).0 ≡ some successor
unfolding get
get-put visit now later target predecessor successor c ht hs h =
    let (e, who, when, found) = find-put now target predecessor successor c ht hs in
    ground (arith, found, who, when, ttl-put now target predecessor successor c)

mem_of_find :
    (k : Bytes) (l : List (Bytes × RoutingEntry)) (e : RoutingEntry)
    → find k l ≡ some e
    → Memᴰ (k, e) l
unfolding find
mem_of_find k [] e = λ h. absurd (none-ne-some e h)
mem_of_find k (x ∷ l) e =
    if_cases {A = Option RoutingEntry} (λ o. o ≡ some e → Memᴰ (k, e) (x ∷ l)) (same x.0 k)
      (λ here h. Memᴰ.head (λ i. (sym ((same_iff x.0 k).0 here) i, sym (some_inj h) i)))
      (λ _ h. Memᴰ.tail (mem_of_find k l e h))

mem_of_cover :
    (now : ℕ) (target : Bytes) (c : RoutingCache) (l : List (Bytes × RoutingEntry))
    (e : Bytes × RoutingEntry)
    → first_cover c now target l ≡ some e
    → Memᴰ e l
unfolding first_cover
mem_of_cover now target c [] e = λ h. absurd (none-ne-some e h)
mem_of_cover now target c (x ∷ l) e =
    if_cases {A = Option (Bytes × RoutingEntry)} (λ o. o ≡ some e → Memᴰ e (x ∷ l))
      (covers c now target x.1) (λ _ h. Memᴰ.head (sym (some_inj h)))
      (λ _ h. Memᴰ.tail (mem_of_cover now target c l e h))

covers-fresh :
    (c : RoutingCache) (now : ℕ) (target : Bytes) (e : RoutingEntry)
    → covers c now target e ≡ true
    → now ≤ e.cached_at + c.ttl
unfolding covers
covers-fresh c now target e h = ground arith

covers-interval :
    (c : RoutingCache) (now : ℕ) (target : Bytes) (e : RoutingEntry)
    → covers c now target e ≡ true
    → in_range_open_closed target e.predecessor_id e.successor.node_id ≡ true
unfolding covers
covers-interval c now target e h = ground arith

-- If the range meets only entries of the map, then what `Get` answers is the successor of an entry of
-- the cache that is not expired, and that was stored for the target itself or covers it with its
-- interval.
pub get_sound :
    (visit : List (Bytes × RoutingEntry) → List (Bytes × RoutingEntry)) (now : ℕ) (target : Bytes)
    (c : RoutingCache) (s : NodeInfo)
    → ((e : Bytes × RoutingEntry) (l : List (Bytes × RoutingEntry)) → Memᴰ e (visit l) → Memᴰ e l)
    → (get visit now target c).0 ≡ some s
    → (k : Bytes) × (e : RoutingEntry) × Memᴰ (k, e) c.store.items
      × (e.successor ≡ s)
      × (now ≤ e.cached_at + c.ttl)
      × ((k ≡ target) ⊎ (in_range_open_closed target e.predecessor_id e.successor.node_id ≡ true))
unfolding get
get_sound visit now target c s fair h = elim (Option-cases (find target c.store.items)) [
  | inr (e, found) ↦
      (target, e, mem_of_find target c.store.items e found, ground arith, ground arith, inl refl)
  | inl missing ↦ elim (Option-cases (first_cover c now target (visit c.store.items))) [
    | inl nothing ↦ absurd (ground arith)
    | inr (e, cover) ↦ (
      e.0,
      e.1,
      fair e c.store.items (mem_of_cover now target c (visit c.store.items) e cover),
      ground arith,
      covers-fresh c now target e.1 (first_cover_member c now target _ e (λ _. true) cover).0,
      inr (
          covers-interval c now target e.1
            (first_cover_member c now target _ e (λ _. true) cover).0),
    )
  ]
]
