-- ===== src/Lookup.antt =====
-- internal/chord/lookup.go: the routing step of a node, and the iterative lookup.
-- The scores of `closestPrecedingNode` are floats: their type and operations are a parameter.
pub mod Bits
pub mod Candidates
pub mod Step
pub mod Iterative
use chord_dht.Base.{
  ℕ, zero, suc, ◌+◌, ◌-◌, ◌/◌, ◌^◌, Bool, true, false, not, ◌&&◌, ◌||◌, Option, none, some, List,
  [], ◌∷◌, ◌++◌, Bytes, same, is_empty, has, leb, ltb, ◌==◌, if◌then◌else◌, reverse, length, take,
  map,
}
use chord_dht.Id.{m, ring_size, validate_id, id_to_big, in_range_open_closed, in_range_open_open}
use chord_dht.Node.{Node, identity}
use chord_dht.RoutingCache
use chord_dht.RoutingCache.{RoutingCache, RoutingEntry}
use chord_dht.Types.{
  NodeInfo, FingerEntry, FingerStatus, suspicious, FindSuccessorRequest, FindSuccessorResponse,
  PiggybackData, Reply, reply, refuse, api_error, invalid_request, max_hops_exceeded, node_leaving,
  node_isolated, loop_detected, upstream_error, core, is_leaving, is_isolated,
}
use chord_dht.World.{Net, World, passed, with_node, now}

abbrev is_suspicious : FingerStatus → Bool
is_suspicious suspicious = true
is_suspicious _ = false

-- A loop of `collectCandidates` over nodes, in the order in which it meets them: the identifiers
-- seen so far, and the entries taken.
unfoldable pub gather : Bytes → Bytes → List Bytes → List NodeInfo → List NodeInfo × List Bytes
gather self_id target seen [] = ([], seen)
gather self_id target seen (n ∷ l) =
    let skip = gather self_id target seen l in
    let rest = gather self_id target (n.node_id ∷ seen) l in
    if is_empty n.node_id || has n.node_id seen
    then skip
    else if in_range_open_open n.node_id self_id target
    then (n ∷ rest.0, rest.1)
    else skip

-- The fingers that the first loop does not pass over.
unfoldable pub trusted : List FingerEntry → List NodeInfo
trusted [] = []
trusted (f ∷ l) = if is_suspicious f.status || not f.valid then trusted l else f.node ∷ trusted l

abbrev pub nodes_of : List FingerEntry → List NodeInfo
nodes_of [] = []
nodes_of (f ∷ l) = f.node ∷ nodes_of l

-- The fingers, and if none of them will do, the suspicious ones too.
unfoldable pub gather_fingers : Bytes → Bytes → List FingerEntry → List NodeInfo × List Bytes
gather_fingers self_id target fingers =
    let sure = gather self_id target (self_id ∷ []) (trusted (reverse fingers)) in
    let unsure = gather self_id target sure.1 (nodes_of (reverse fingers)) in
    elim sure.0 [ [] ↦ unsure | c ∷ l ↦ sure ]

unfoldable pub collect_candidates :
    NodeInfo → Bytes → List FingerEntry → List NodeInfo → List NodeInfo
collect_candidates self target fingers successors =
    let (out, seen) = gather_fingers self.node_id target fingers in
    out ++ (gather self.node_id target seen (reverse successors)).0

unfoldable pub top_k_closest_preceding :
    NodeInfo → Bytes → List FingerEntry → List NodeInfo → ℕ → List NodeInfo
top_k_closest_preceding self target fingers successors k =
    take k (collect_candidates self target fingers successors)

-- `diff.BitLen()`; a number is more than the count of its digits, so as fuel it is enough.
unfoldable pub bit_len_loop : ℕ → ℕ → ℕ
bit_len_loop zero n = 0
bit_len_loop (suc f) n = let rest = suc (bit_len_loop f (n / 2)) in if n == 0 then 0 else rest

-- The floats of the scores, the three weights in force and the round-trip times known.
pub record Scoring (F : Type 0) : Type 0 where
  pub weight_id : F
  pub weight_rtt : F
  pub weight_region : F
  pub zero_score : F
  pub minus_one : F
  pub add : F → F → F
  pub id_score : F → ℕ → F
  pub rtt_score : F → ℕ → F
  pub above_zero : F → Bool
  pub above : F → F → Bool
  pub rtt : Bytes → Option ℕ

module _ {F : Type 0} (sc : Scoring F) where
  -- How far before the target a candidate lies.
  abbrev distance : ℕ → ℕ → ℕ
  distance target c = if ltb target c then target + ring_size - c else target - c

  unfoldable pub score : Bytes → ℕ → ℕ → NodeInfo → F
  unfolding bit_len_loop
  score region target place c =
      let near = sc.add sc.zero_score (
        sc.id_score sc.weight_id
          (bit_len_loop (suc (distance target place)) (distance target place))) in
      let timed : F = elim (sc.rtt c.node_id) [
        | none ↦ near
        | some ms ↦ sc.add near (sc.rtt_score sc.weight_rtt ms)
      ] in
      let fast = if sc.above_zero sc.weight_rtt then timed else near in
      if sc.above_zero sc.weight_region && (not (is_empty c.region) && same c.region region)
      then sc.add fast sc.weight_region
      else fast

  -- The loop that keeps the best candidate.
  unfoldable pub best_of : Bytes → ℕ → NodeInfo → F → List NodeInfo → NodeInfo
  best_of region target best best_score [] = best
  best_of region target best best_score (c ∷ l) =
      let skip = best_of region target best best_score l in
      elim (id_to_big c.node_id) [
        | none ↦ skip
        | some place ↦
            let s = score region target place c in
            let better = best_of region target c s l in
            if sc.above s best_score then better else skip
      ]

  unfoldable pub choose_best : Bytes → Bytes → NodeInfo → List NodeInfo → NodeInfo
  choose_best region target c [] = c
  choose_best region target c (d ∷ l) = elim (id_to_big target) [
    | none ↦ c
    | some t ↦ best_of region t c sc.minus_one (c ∷ d ∷ l)
  ]

  unfoldable pub closest_preceding_node :
      Bytes → NodeInfo → Bytes → List FingerEntry → List NodeInfo → NodeInfo
  closest_preceding_node region self target fingers successors =
      elim (collect_candidates self target fingers successors) [
        | [] ↦ self
        | c ∷ l ↦ choose_best region target c l
      ]

  -- `hints` is the snapshot of the round-trip times.
  unfoldable pub build_piggyback : List (Bytes × ℕ) → Node → Option PiggybackData
  build_piggyback hints n =
      if not n.options.piggyback_enabled
      then none
      else some (record {
        sender_successor_list = map (λ s. s.node_id) n.successor_list;
        sender_region = n.region;
        sender_rtt_hints = hints;
      })

  abbrev found :
      List (Bytes × ℕ) → FindSuccessorRequest → NodeInfo → Bool → Node → Reply FindSuccessorResponse
  found hints req s cached n = reply (record {
    found = true;
    successor = some s;
    next_hop = none;
    hop_count = req.hop_count;
    cached = cached;
    piggyback = build_piggyback hints n;
  })

  abbrev pub forward :
      List (Bytes × ℕ) → FindSuccessorRequest → NodeInfo → Node → Reply FindSuccessorResponse
  forward hints req next n = reply (record {
    found = false;
    successor = none;
    next_hop = some next;
    hop_count = req.hop_count + 1;
    cached = false;
    piggyback = build_piggyback hints n;
  })

  -- `routingCache.Put`, if there is a cache.
  abbrev pub remember : ℕ → Bytes → Bytes → NodeInfo → Node → Node
  remember when target predecessor s n = record n {
    routing_cache = elim n.routing_cache [
      | none ↦ none
      | some c ↦ some (RoutingCache.put when target predecessor s c)
    ];
  }

  -- The part of the handler after the cache.
  unfoldable pub route :
      ℕ → List (Bytes × ℕ) → FindSuccessorRequest → Node → Reply FindSuccessorResponse × Node
  route when hints req n =
      let self = core n.self in
      let next = closest_preceding_node n.region self req.id n.fingers n.successor_list in
      if is_leaving n.status
      then (refuse (api_error 503 node_leaving), n)
      else if is_isolated n.status
      then (refuse (api_error 503 node_isolated), n)
      else if has self.node_id req.visited_nodes
      then (refuse (api_error 503 loop_detected), n)
      else if same n.successor.node_id self.node_id
          || in_range_open_closed req.id self.node_id n.successor.node_id
      then (found hints req n.successor false n, remember when req.id self.node_id n.successor n)
      else if same next.node_id self.node_id
      then (found hints req n.successor false n, n)
      else (forward hints req next n, n)

  -- `routingCache.Get`, if there is a cache: the answer, and the node with the cache after it.
  unfoldable pub recall :
      (List (Bytes × RoutingEntry) → List (Bytes × RoutingEntry))
      → ℕ
      → Bytes
      → Node
      → Option NodeInfo × Node
  recall visit when target n = elim n.routing_cache [
    | none ↦ (none, n)
    | some c ↦
        let (answer, c') = RoutingCache.get visit when target c in
        (answer, record n { routing_cache = some c' })
  ]

  abbrev pub hop_limit : FindSuccessorRequest → Node → ℕ
  hop_limit req n = if leb req.max_hops 0 then n.options.max_hops else req.max_hops

  unfoldable pub handle_find_successor :
      (List (Bytes × RoutingEntry) → List (Bytes × RoutingEntry))
      → ℕ
      → List (Bytes × ℕ)
      → FindSuccessorRequest
      → Node
      → Reply FindSuccessorResponse × Node
  handle_find_successor visit when hints req n =
      let limit = hop_limit req n in
      let (cached, n1) = recall visit when req.id n in
      let routed = route when hints req n1 in
      if not (validate_id req.id)
      then (refuse (api_error 400 invalid_request), n)
      else if leb limit req.hop_count
      then (refuse (api_error 503 max_hops_exceeded), n)
      else elim cached [ some s ↦ (found hints req s true n1, n1) | none ↦ routed ]
