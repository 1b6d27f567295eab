-- ===== src/Lookup/Iterative.antt =====
-- `LookupSuccessor`, `lookupParallel` and `lookupIterative` of internal/chord/lookup.go. The requests of
-- the parallel lookup are numbered in the order of the candidates; their answers come in the order of
-- `arrived`, all before the lookup goes on.
-- The round-trip times that `applyPiggyback` records are not part of the node here.
pub mod Raced
pub mod Walk
use chord_dht.Base.{
  ℕ, zero, suc, ◌+◌, Bool, true, false, not, ◌&&◌, ◌||◌, Option, none, some, List, [], ◌∷◌, ◌++◌,
  Bytes, same, has, is_empty, ltb, if◌then◌else◌,
}
use chord_dht.Id.{validate_id}
use chord_dht.Lookup.{Scoring, handle_find_successor, remember, recall, top_k_closest_preceding}
use chord_dht.Node.{Node, identity}
use chord_dht.RoutingCache.{RoutingEntry}
use chord_dht.Types.{
  NodeInfo, FindSuccessorRequest, FindSuccessorResponse, Reply, reply, refuse, api_error,
  invalid_request, max_hops_exceeded, loop_detected, upstream_error, core,
}
use chord_dht.World.{Net, World, passed, with_node, now}

module _ {F : Type 0} (sc : Scoring F)
    (visit : List (Bytes × RoutingEntry) → List (Bytes × RoutingEntry)) (hints : List (Bytes × ℕ))
    (net : Net) where
  -- A request to a peer, or to the node itself.
  unfoldable pub ask : NodeInfo → FindSuccessorRequest → World → Reply FindSuccessorResponse × World
  ask current req w =
      let own = handle_find_successor sc visit (now net w) hints req w.node in
      if same current.node_id w.node.self.node_id
      then (own.0, with_node own.1 w)
      else if not net.has_client
      then (refuse (api_error 503 upstream_error), w)
      else (net.find_successor w.calls current req, passed net w)

  -- An answer that names a successor.
  unfoldable pub finish : Bytes → NodeInfo → FindSuccessorResponse → World → Reply NodeInfo × World
  finish id current r w = elim r.successor [
    | none ↦ (refuse (api_error 503 upstream_error), w)
    | some s ↦ (
      reply (core s),
      if r.cached
          then w
          else with_node (remember sc (now net w) id current.node_id (core s) w.node) w,
    )
  ]

  -- An answer that names a next hop. `next` goes on from there.
  unfoldable pub follow :
      FindSuccessorResponse
      → (NodeInfo → World → Reply NodeInfo × World)
      → World
      → Reply NodeInfo × World
  follow r next w = elim r.next_hop [
    | none ↦ (refuse (api_error 503 upstream_error), w)
    | some n ↦ next (core n) w
  ]

  unfoldable pub use_answer :
      Bytes
      → NodeInfo
      → Reply FindSuccessorResponse
      → (NodeInfo → World → Reply NodeInfo × World)
      → World
      → Reply NodeInfo × World
  use_answer id current (refuse e) next w = (refuse e, w)
  use_answer id current (reply r) next w =
      let on = follow r next w in if r.found then finish id current r w else on

  -- The loop, `left` turns before `MaxHops`. `visited` grows at its end.
  unfoldable pub hops : ℕ → ℕ → Bytes → List Bytes → NodeInfo → World → Reply NodeInfo × World
  hops zero hop id visited current w = (refuse (api_error 503 max_hops_exceeded), w)
  hops (suc left) hop id visited current w =
      let req : FindSuccessorRequest = record {
        id = id;
        hop_count = hop;
        max_hops = w.node.options.max_hops;
        visited_nodes = visited;
        requester_region = [];
        prefer_region = [];
      } in
      let asked = ask current req w in
      let rest =
        use_answer id current asked.0 (hops left (suc hop) id (visited ++ (current.node_id ∷ [])))
          asked.1 in
      if has current.node_id visited then (refuse (api_error 503 loop_detected), w) else rest

  unfoldable pub lookup_iterative : Bytes → World → Reply NodeInfo × World
  lookup_iterative id w = hops w.node.options.max_hops 0 id [] (core (identity w.node)) w

  -- The goroutines of the parallel lookup. Without a client each of them fails.
  unfoldable pub ask_all :
      FindSuccessorRequest → List NodeInfo → World → List (Reply FindSuccessorResponse) × World
  ask_all req [] w = ([], w)
  ask_all req (c ∷ l) w =
      let (rest, w1) = ask_all req l (passed net w) in
      if net.has_client then (net.find_successor w.calls c req ∷ rest, w1) else ([], w)

  -- The first answer that names a successor.
  unfoldable pub first_named : List (Reply FindSuccessorResponse) → Option NodeInfo
  first_named [] = none
  first_named (refuse e ∷ l) = first_named l
  first_named (reply r ∷ l) =
      let rest = first_named l in
      let named : Option NodeInfo = elim r.successor [
        | none ↦ rest
        | some s ↦ if is_empty s.node_id then rest else some (core s)
      ] in
      if r.found then named else rest

  unfoldable pub parallel_candidates : Bytes → Node → List NodeInfo
  parallel_candidates id n =
      let k = n.options.parallel_lookup_candidates in
      top_k_closest_preceding (core n.self) id n.fingers n.successor_list (if ltb 0 k then k else 3)

  abbrev pub parallel_request : Bytes → Node → FindSuccessorRequest
  parallel_request id n = record {
    id = id;
    hop_count = 0;
    max_hops = n.options.max_hops;
    visited_nodes = [];
    requester_region = [];
    prefer_region = [];
  }

  -- The answers of the peers, in the order of the candidates.
  unfoldable pub race : Bytes → World → List (Reply FindSuccessorResponse) × World
  race id w = ask_all (parallel_request id w.node) (parallel_candidates id w.node) w

  -- The result of the race of a node with the identifier `self_id`, or the walk.
  unfoldable pub settle : Bytes → Bytes → Option NodeInfo → World → Reply NodeInfo × World
  settle id self_id none w = lookup_iterative id w
  settle id self_id (some s) w =
      (reply s, with_node (remember sc (now net w) id self_id s w.node) w)

  unfoldable pub lookup_parallel : Bytes → World → Reply NodeInfo × World
  lookup_parallel id w =
      let (answers, w1) = race id w in
      elim (parallel_candidates id w.node) [
        | [] ↦ lookup_iterative id w
        | c ∷ l ↦ settle id w.node.self.node_id (first_named (net.arrived w.calls answers)) w1
      ]

  unfoldable pub lookup_successor : Bytes → World → Reply NodeInfo × World
  lookup_successor id w =
      let (cached, n) = recall sc visit (now net w) id w.node in
      let w1 = with_node n w in
      let raced = lookup_parallel id w1 in
      let walked = lookup_iterative id w1 in
      if not (validate_id id) then (refuse (api_error 400 invalid_request), w) else elim cached [
        | some s ↦ (reply s, w1)
        | none ↦
            if n.options.parallel_lookup_enabled && ltb 1 n.options.parallel_lookup_candidates
            then raced
            else walked
      ]
