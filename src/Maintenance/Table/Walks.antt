-- ===== src/Maintenance/Table/Walks.antt =====
-- The finger table over a lookup and the repair of fingers.
use chord_dht.Base.{
  ℕ, zero, suc, not, ◌||◌, ◌&&◌, Option, none, some, List, [], ◌∷◌, ◌++◌, Bytes, same, has, leb,
  ltb, if_cases, option_cases, list_cases,
}
use chord_dht.Fingers.{next_k_finger_indices}
use chord_dht.Fingers.Repair.{
  start_of, get_batch_size, repair_index, repair_finger_indices, fix_fingers_batch, warm_up_indices,
  warm_up_finger_table, fix_fingers, missed, lost,
}
use chord_dht.Fingers.Table.{IsTable, write_finger-IsTable, missed-finger, lost-finger}
use chord_dht.Id.{validate_id, in_range_open_closed}
use chord_dht.Lookup.{
  Scoring, closest_preceding_node, route, recall, hop_limit, handle_find_successor,
}
use chord_dht.Lookup.Iterative.{
  ask, finish, follow, use_answer, hops, ask_all, settle, parallel_candidates, lookup_parallel,
  lookup_iterative, race, lookup_successor,
}
use chord_dht.Node.{Node, identity}
use chord_dht.RoutingCache.{RoutingEntry}
use chord_dht.Types.{
  NodeInfo, FindSuccessorRequest, FindSuccessorResponse, Reply, reply, refuse, core, is_leaving,
  is_isolated,
}
use chord_dht.World.{Net, World, passed, with_node, now}

module _ {F : Type 0} (sc : Scoring F)
    (visit : List (Bytes × RoutingEntry) → List (Bytes × RoutingEntry))
    (hints : List (Bytes × ℕ)) where
  recall-IsTable :
      (when : ℕ) (id : Bytes) (n : Node) → IsTable n → IsTable (recall sc visit when id n).1
  unfolding recall
  recall-IsTable when id n h =
      option_cases {A = Option NodeInfo × Node} (λ r. IsTable r.1) n.routing_cache (λ _. h)
        (λ _ _. h)

  route-IsTable :
      (when : ℕ) (req : FindSuccessorRequest) (n : Node)
      → IsTable n
      → IsTable (route sc when hints req n).1
  unfolding route
  route-IsTable when req n h =
      let P : Reply FindSuccessorResponse × Node → Type 0 = λ r. IsTable r.1 in
      let self = core n.self in
      let next = closest_preceding_node sc n.region self req.id n.fingers n.successor_list in
      if_cases P (is_leaving n.status) (λ _. h)
        (λ _.
          if_cases P (is_isolated n.status) (λ _. h)
            (λ _.
              if_cases P (has self.node_id req.visited_nodes) (λ _. h)
                (λ _.
                  if_cases P
                    (same n.successor.node_id self.node_id
                      || in_range_open_closed req.id self.node_id n.successor.node_id)
                    (λ _. h) (λ _. if_cases P (same next.node_id self.node_id) (λ _. h) (λ _. h)))))

  pub handle_find_successor-IsTable :
      (when : ℕ) (req : FindSuccessorRequest) (n : Node)
      → IsTable n
      → IsTable (handle_find_successor sc visit when hints req n).1
  unfolding handle_find_successor
  handle_find_successor-IsTable when req n h =
      let P : Reply FindSuccessorResponse × Node → Type 0 = λ r. IsTable r.1 in
      let later = recall-IsTable when req.id n h in
      let n1 = (recall sc visit when req.id n).1 in
      if_cases P (not (validate_id req.id)) (λ _. h)
        (λ _.
          if_cases P (leb (hop_limit sc req n) req.hop_count) (λ _. h)
            (λ _.
              option_cases P (recall sc visit when req.id n).0
                (λ _. route-IsTable when req n1 later) (λ _ _. later)))

  module _ (net : Net) (calm : (i : ℕ) (n : Node) → IsTable n → IsTable (net.others i n)) where
    abbrev Ok : World → Type 0
    Ok w = IsTable w.node

    ask-IsTable :
        (c : NodeInfo) (req : FindSuccessorRequest) (w : World)
        → Ok w
        → IsTable (ask sc visit hints net c req w).1.node
    unfolding ask
    ask-IsTable c req w h =
        let P : Reply FindSuccessorResponse × World → Type 0 = λ r. Ok r.1 in
        if_cases P (same c.node_id w.node.self.node_id)
          (λ _. handle_find_successor-IsTable (now net w) req w.node h)
          (λ _. if_cases P (not net.has_client) (λ _. h) (λ _. calm w.calls w.node h))

    use_answer-IsTable :
        (id : Bytes) (c : NodeInfo) (a : Reply FindSuccessorResponse)
        (next : NodeInfo → World → Reply NodeInfo × World) (w : World)
        → ((d : NodeInfo) → IsTable (next d w).1.node)
        → Ok w
        → IsTable (use_answer sc visit hints net id c a next w).1.node
    unfolding use_answer finish follow
    use_answer-IsTable id c (refuse e) next w k h = h
    use_answer-IsTable id c (reply r) next w k h =
        let P : Reply NodeInfo × World → Type 0 = λ a. Ok a.1 in
        if_cases P r.found
          (λ _. option_cases P r.successor (λ _. h) (λ s _. if_cases Ok r.cached (λ _. h) (λ _. h)))
          (λ _. option_cases P r.next_hop (λ _. h) (λ d _. k _))

    hops-IsTable :
        (left hop : ℕ) (id : Bytes) (visited : List Bytes) (c : NodeInfo) (w : World)
        → Ok w
        → IsTable (hops sc visit hints net left hop id visited c w).1.node
    unfolding hops
    hops-IsTable zero hop id visited c w h = h
    hops-IsTable (suc left) hop id visited c w h =
        let req : FindSuccessorRequest = record {
          id = id;
          hop_count = hop;
          max_hops = w.node.options.max_hops;
          visited_nodes = visited;
          requester_region = [];
          prefer_region = [];
        } in
        let asked = ask sc visit hints net c req w in
        let later = ask-IsTable c req w h in
        if_cases {A = Reply NodeInfo × World} (λ r. Ok r.1) (has c.node_id visited) (λ _. h)
          (λ _.
            use_answer-IsTable id c asked.0
              (hops sc visit hints net left (suc hop) id (visited ++ (c.node_id ∷ []))) asked.1
              (λ d. hops-IsTable left (suc hop) id (visited ++ (c.node_id ∷ [])) d asked.1 later)
              later)

    ask_all-IsTable :
        (req : FindSuccessorRequest) (l : List NodeInfo) (w : World)
        → Ok w
        → IsTable (ask_all sc visit hints net req l w).1.node
    unfolding ask_all
    ask_all-IsTable req [] w h = h
    ask_all-IsTable req (c ∷ l) w h =
        if_cases {A = List (Reply FindSuccessorResponse) × World} (λ r. Ok r.1) net.has_client
          (λ _. ask_all-IsTable req l (passed net w) (calm w.calls w.node h)) (λ _. h)

    lookup_iterative-IsTable :
        (id : Bytes) (w : World) → Ok w → IsTable (lookup_iterative sc visit hints net id w).1.node
    unfolding lookup_iterative
    lookup_iterative-IsTable id w h =
        hops-IsTable w.node.options.max_hops 0 id [] (core (identity w.node)) w h

    settle-IsTable :
        (id self_id : Bytes) (s : Option NodeInfo) (w : World)
        → Ok w
        → IsTable (settle sc visit hints net id self_id s w).1.node
    unfolding settle
    settle-IsTable id self_id none w h = lookup_iterative-IsTable id w h
    settle-IsTable id self_id (some s) w h = h

    lookup_parallel-IsTable :
        (id : Bytes) (w : World) → Ok w → IsTable (lookup_parallel sc visit hints net id w).1.node
    unfolding lookup_parallel race
    lookup_parallel-IsTable id w h =
        let P : Reply NodeInfo × World → Type 0 = λ r. Ok r.1 in
        list_cases P (parallel_candidates sc visit hints net id w.node)
          (λ _. lookup_iterative-IsTable id w h)
          (λ c l _. settle-IsTable id w.node.self.node_id _ _ (ask_all-IsTable _ _ w h))

    pub lookup_successor-IsTable :
        (id : Bytes) (w : World) → Ok w → IsTable (lookup_successor sc visit hints net id w).1.node
    unfolding lookup_successor
    lookup_successor-IsTable id w h =
        let P : Reply NodeInfo × World → Type 0 = λ r. Ok r.1 in
        let later = recall-IsTable (now net w) id w.node h in
        let n = (recall sc visit (now net w) id w.node).1 in
        let o = n.options in
        if_cases P (not (validate_id id)) (λ _. h)
          (λ _.
            option_cases P (recall sc visit (now net w) id w.node).0
              (λ _.
                if_cases P (o.parallel_lookup_enabled && ltb 1 o.parallel_lookup_candidates)
                  (λ _. lookup_parallel-IsTable id (with_node n w) later)
                  (λ _. lookup_iterative-IsTable id (with_node n w) later))
              (λ _ _. later))

    repair_index-IsTable :
        (i : ℕ) (w : World) → Ok w → IsTable (repair_index sc visit hints net i w).node
    unfolding repair_index
    repair_index-IsTable i w h =
        let (answer, w1) = lookup_successor sc visit hints net (start_of i w.node) w in
        write_finger-IsTable i missed (now net w1) answer w1.node missed-finger
          (lookup_successor-IsTable (start_of i w.node) w h)

    repair_finger_indices-IsTable :
        (l : List ℕ) (w : World)
        → Ok w
        → IsTable (repair_finger_indices sc visit hints net l w).node
    unfolding repair_finger_indices
    repair_finger_indices-IsTable [] w h = h
    repair_finger_indices-IsTable (i ∷ l) w h =
        repair_finger_indices-IsTable l _ (repair_index-IsTable i w h)

    pub fix_fingers_batch-IsTable :
        (w : World) → Ok w → IsTable (fix_fingers_batch sc visit hints net w).node
    unfolding fix_fingers_batch next_k_finger_indices
    fix_fingers_batch-IsTable w h =
        let k = get_batch_size w.node in
        let next = next_k_finger_indices k w.node in
        let kept : IsTable next.1 =
          if_cases {A = List ℕ × Node} (λ r. IsTable r.1) (leb k 0) (λ _. h) (λ _. h) in
        repair_finger_indices-IsTable next.0 (with_node next.1 w) kept

    pub warm_up-IsTable :
        (w : World) → Ok w → IsTable (warm_up_finger_table sc visit hints net w).node
    unfolding warm_up_finger_table
    warm_up-IsTable w h = repair_finger_indices-IsTable (warm_up_indices 0 32) w h

    pub fix_fingers-IsTable : (w : World) → Ok w → IsTable (fix_fingers sc visit hints net w).node
    unfolding fix_fingers
    fix_fingers-IsTable w h =
        let i = w.node.next_finger_index in
        let (answer, w1) = lookup_successor sc visit hints net (start_of i w.node) w in
        write_finger-IsTable i lost (now net w1) answer w1.node lost-finger
          (lookup_successor-IsTable (start_of i w.node) w h)
