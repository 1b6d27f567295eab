-- ===== src/Maintenance/Table/Joins.antt =====
-- The finger table over a join, a recovery and a whole cycle of maintenance.
use chord_dht.Base.{
  ℕ, Bool, not, ◌&&◌, ◌||◌, ◌==◌, Option, List, [], ◌∷◌, Bytes, same, is_empty, length, if_cases,
  option_cases,
}
use chord_dht.Fingers.Table.{IsTable, activate_single_node-IsTable, joined_finger-IsTable}
use chord_dht.Join.{
  activate_single_node, take_region, call_tracker, register_tracker, activate_alone, join_with,
  try_seeds, join_network_with_seeds, seed_list, adopt_successor,
}
use chord_dht.Lookup.{Scoring}
use chord_dht.Maintenance.{count_cycle, maintenance_cycle}
use chord_dht.Maintenance.Table.Calls.{rectify_peer-IsTable, validate-IsTable}
use chord_dht.Maintenance.Table.Rings.{
  stabilize-IsTable, check_predecessor-IsTable, health_check_ring-IsTable,
}
use chord_dht.Maintenance.Table.Walks.{fix_fingers_batch-IsTable}
use chord_dht.Node.{Node, identity, is_vnode}
use chord_dht.Recovery.{
  Tracker, register_of, configured, sample_fingers, should_retry_bootstrap, collect_bootstrap_seeds,
  join_network, retry_bootstrap_if_singleton, recover_loop, try_recover_from_nodes, alone, rejoin,
  recover_by_tracker, try_recover_from_isolation,
}
use chord_dht.RoutingCache.{RoutingEntry}
use chord_dht.Types.{NodeInfo, JoinResponse, joining, core, is_active, is_isolated}
use chord_dht.Uri.{Platform, validate_node_info}
use chord_dht.World.{Net, World, passed, with_node, now}

module _ (net : Net) (calm : (i : ℕ) (n : Node) → IsTable n → IsTable (net.others i n))
    (os : Platform) where
  abbrev Ok : World → Type 0
  Ok w = IsTable w.node

  module _ (reg : Option (ℕ → Option Bytes)) where
    take_region-IsTable :
        (region : Bytes) (n : Node) → IsTable n → IsTable (take_region net region n)
    unfolding take_region
    take_region-IsTable region n h =
        if_cases IsTable (is_empty n.region && not (is_empty region)) (λ _. h) (λ _. h)

    call_tracker-IsTable :
        (register : ℕ → Option Bytes) (w : World)
        → Ok w
        → IsTable (call_tracker net os reg register w).node
    unfolding call_tracker
    call_tracker-IsTable register w h =
        let later = calm w.calls w.node h in
        option_cases Ok (register w.calls) (λ _. later)
          (λ region _. take_region-IsTable region (net.others w.calls w.node) later)

    register-IsTable : (w : World) → Ok w → IsTable (register_tracker net os reg w).node
    unfolding register_tracker
    register-IsTable w h =
        option_cases Ok reg (λ _. h)
          (λ register _.
            if_cases Ok (is_vnode w.node) (λ _. h) (λ _. call_tracker-IsTable register w h))

    activate_alone-IsTable : (w : World) → Ok w → IsTable (activate_alone net os reg w).node
    unfolding activate_alone
    activate_alone-IsTable w h =
        register-IsTable (with_node (activate_single_node (now net w) w.node) w)
          (activate_single_node-IsTable (now net w) w.node h)

    seed_list-IsTable : (r : JoinResponse) (w : World) → Ok w → IsTable (seed_list net r w).1.node
    unfolding seed_list
    seed_list-IsTable r w h =
        let P : List NodeInfo × World → Type 0 = λ a. Ok a.1 in
        let later = calm w.calls w.node h in
        if_cases P w.node.options.stabilize_atomic_state
          (λ _. option_cases P (net.state w.calls r.successor) (λ _. later) (λ _ _. later)) (λ _. h)

    join_with-IsTable :
        (c : NodeInfo) (r : JoinResponse) (w : World)
        → Ok w
        → IsTable (join_with net os reg c r w).node
    unfolding join_with adopt_successor
    join_with-IsTable c r w h =
        let (remote, w1) = seed_list net r w in
        let w2 = with_node (adopt_successor net (now net w1) r.successor remote w1.node) w1 in
        let adopted : Ok w2 =
          joined_finger-IsTable r.successor w1.node.self.node_id 0 w1.node.fingers
            (seed_list-IsTable r w h) in
        register-IsTable _
          (validate-IsTable net calm _ (rectify_peer-IsTable net calm r.successor c w2 adopted))

    try_seeds-IsTable :
        (c : NodeInfo) (l : List NodeInfo) (w : World)
        → Ok w
        → IsTable (try_seeds net os reg c l w).node
    unfolding try_seeds
    try_seeds-IsTable c [] w h = activate_alone-IsTable w h
    try_seeds-IsTable c (seed ∷ l) w h =
        let later = calm w.calls w.node h in
        if_cases Ok (same seed.node_id c.node_id || not (validate_node_info os seed))
          (λ _. try_seeds-IsTable c l w h)
          (λ _.
            option_cases Ok (net.join w.calls seed.uri c)
              (λ _. try_seeds-IsTable c l (passed net w) later)
              (λ r _.
                if_cases Ok (validate_node_info os r.successor)
                  (λ _. join_with-IsTable c r (passed net w) later)
                  (λ _. try_seeds-IsTable c l (passed net w) later)))

    join-IsTable :
        (l : List NodeInfo) (w : World)
        → Ok w
        → IsTable (join_network_with_seeds net os reg l w).node
    unfolding join_network_with_seeds
    join-IsTable [] w h =
        activate_alone-IsTable (with_node (record w.node { status = joining }) w) h
    join-IsTable (seed ∷ l) w h =
        let w1 = with_node (record w.node { status = joining }) w in
        let c = record (core (identity w1.node)) {
          certificate = w1.node.options.node_certificate;
        } in
        if_cases Ok (not net.has_client) (λ _. activate_alone-IsTable w1 h)
          (λ _. try_seeds-IsTable c (seed ∷ l) w1 h)

  module _ (tracker : Option Tracker) where
    collect-IsTable :
        (manual : List NodeInfo) (w : World)
        → Ok w
        → IsTable (collect_bootstrap_seeds net os tracker manual w).1.node
    unfolding collect_bootstrap_seeds
    collect-IsTable manual w h =
        let later = calm w.calls w.node h in
        option_cases {A = List NodeInfo × World} (λ a. Ok a.1) tracker (λ _. h)
          (λ t _.
            option_cases {A = List NodeInfo × World} (λ a. Ok a.1)
              (t.seeds w.calls w.node.options.tracker_seed_count (w.node.self.node_id ∷ []))
              (λ _. later) (λ _ _. later))

    join_network-IsTable :
        (manual : List NodeInfo) (w : World)
        → Ok w
        → IsTable (join_network net os tracker manual w).node
    unfolding join_network
    join_network-IsTable manual w h =
        join-IsTable (register_of tracker) _ _ (collect-IsTable manual w h)

    retry-IsTable :
        (w : World) → Ok w → IsTable (retry_bootstrap_if_singleton net os tracker w).1.node
    unfolding retry_bootstrap_if_singleton
    retry-IsTable w h =
        let P : Bool × World → Type 0 = λ a. Ok a.1 in
        let (seeds, w1) = collect_bootstrap_seeds net os tracker w.node.bootstrap_seeds w in
        let collected = collect-IsTable w.node.bootstrap_seeds w h in
        if_cases P (not (should_retry_bootstrap net.has_client (configured tracker) w.node))
          (λ _. h)
          (λ _.
            if_cases P (length seeds == 0) (λ _. collected)
              (λ _. join-IsTable (register_of tracker) seeds w1 collected))

    recover_loop-IsTable :
        (id : Bytes) (l : List NodeInfo) (w : World)
        → Ok w
        → IsTable (recover_loop net os tracker id l w).1.node
    unfolding recover_loop
    recover_loop-IsTable id [] w h = h
    recover_loop-IsTable id (n ∷ l) w h =
        let P : Bool × World → Type 0 = λ a. Ok a.1 in
        let w1 = passed net w in
        let later = calm w.calls w.node h in
        let joined = join_network net os tracker (n ∷ []) w1 in
        let after = join_network-IsTable (n ∷ []) w1 later in
        if_cases P (is_empty n.node_id || same n.node_id id) (λ _. recover_loop-IsTable id l w h)
          (λ _.
            if_cases P (not (net.ping w.calls n.uri)) (λ _. recover_loop-IsTable id l w1 later)
              (λ _.
                if_cases P (is_active joined.node.status) (λ _. after)
                  (λ _. recover_loop-IsTable id l joined after)))

    recover_nodes-IsTable :
        (l : List NodeInfo) (w : World)
        → Ok w
        → IsTable (try_recover_from_nodes net os tracker l w).1.node
    unfolding try_recover_from_nodes
    recover_nodes-IsTable l w h =
        if_cases {A = Bool × World} (λ a. Ok a.1) (not net.has_client || length l == 0) (λ _. h)
          (λ _. recover_loop-IsTable w.node.self.node_id l w h)

    alone-IsTable : (w : World) → Ok w → IsTable (alone net os tracker w).node
    alone-IsTable w h = activate_single_node-IsTable (now net w) w.node h

    rejoin-IsTable :
        (l : List NodeInfo) (w : World) → Ok w → IsTable (rejoin net os tracker l w).node
    unfolding rejoin
    rejoin-IsTable [] w h = alone-IsTable w h
    rejoin-IsTable (s ∷ l) w h = join_network-IsTable (s ∷ l) w h

    recover_by_tracker-IsTable :
        (w : World) → Ok w → IsTable (recover_by_tracker net os tracker w).node
    unfolding recover_by_tracker
    recover_by_tracker-IsTable w h =
        let later = calm w.calls w.node h in
        option_cases Ok tracker (λ _. alone-IsTable w h)
          (λ t _.
            option_cases Ok
              (t.seeds w.calls w.node.options.tracker_seed_count (w.node.self.node_id ∷ []))
              (λ _. alone-IsTable (passed net w) later)
              (λ l _. rejoin-IsTable l (passed net w) later))

    recover-IsTable :
        (w : World) → Ok w → IsTable (try_recover_from_isolation net os tracker w).node
    unfolding try_recover_from_isolation
    recover-IsTable w h =
        let a = try_recover_from_nodes net os tracker w.node.successor_list w in
        let ha = recover_nodes-IsTable w.node.successor_list w h in
        let b = try_recover_from_nodes net os tracker a.1.node.predecessor_list a.1 in
        let hb = recover_nodes-IsTable a.1.node.predecessor_list a.1 ha in
        let c = try_recover_from_nodes net os tracker (sample_fingers 16 b.1.node) b.1 in
        let hc = recover_nodes-IsTable (sample_fingers 16 b.1.node) b.1 hb in
        if_cases Ok a.0 (λ _. ha)
          (λ _.
            if_cases Ok b.0 (λ _. hb)
              (λ _. if_cases Ok c.0 (λ _. hc) (λ _. recover_by_tracker-IsTable c.1 hc)))

    -- A cycle of maintenance keeps the finger table: 160 fingers, each with its own start, and none
    -- marked valid whose status is not `ok`. The other goroutines are to keep it too; the peers and the
    -- tracker may answer anything.
    pub maintenance_cycle-IsTable :
        {F : Type 0} (sc : Scoring F)
        (visit : List (Bytes × RoutingEntry) → List (Bytes × RoutingEntry))
        (hints : List (Bytes × ℕ)) (w : World)
        → IsTable w.node
        → IsTable (maintenance_cycle sc visit hints net os tracker w).node
    unfolding maintenance_cycle count_cycle
    maintenance_cycle-IsTable sc visit hints w h =
        let again = retry-IsTable w h in
        let checked = check_predecessor-IsTable net calm os _ again in
        let stable = stabilize-IsTable net calm os _ checked in
        let fixed = fix_fingers_batch-IsTable sc visit hints net calm _ stable in
        if_cases Ok (is_active w.node.status) (λ _. health_check_ring-IsTable net calm os _ fixed)
          (λ _. if_cases Ok (is_isolated w.node.status) (λ _. recover-IsTable w h) (λ _. h))
