-- ===== src/Join.antt =====
-- Joining a ring: `HandleJoin` and `successorListFor` of internal/chord/protocol.go, and
-- `ActivateSingleNode` and `joinNetworkWithSeeds` of internal/chord/node.go. The goroutine that warms
-- up the fingers after a join is one of the others.
pub mod Anchored
use chord_dht.Base.{
  ℕ, Bool, true, false, not, ◌||◌, ◌&&◌, Option, none, some, List, [], ◌∷◌, Bytes, same, is_empty,
  map, if◌then◌else◌,
}
use chord_dht.Liveness.{rectify_peer}
use chord_dht.Lookup.{Scoring}
use chord_dht.Lookup.Iterative.{lookup_successor}
use chord_dht.Node.{Node, identity, is_vnode}
use chord_dht.RoutingCache.{RoutingEntry}
use chord_dht.SuccessorList.{merge_successor_list}
use chord_dht.Types.{
  NodeInfo, FingerEntry, fresh, active, joining, JoinResponse, Reply, reply, refuse, api_error,
  invalid_request, node_leaving, node_isolated, id_collision, core, is_leaving, is_isolated,
}
use chord_dht.Uri.{Platform, validate_node_info}
use chord_dht.Validation.{validate_successor_list}
use chord_dht.World.{Net, World, register_sent, log, passed, with_node, now}

abbrev pub own_finger : NodeInfo → FingerEntry → FingerEntry
own_finger self f = record f { node = core self; status = fresh }

unfoldable pub activate_single_node : ℕ → Node → Node
activate_single_node when n = record n {
  joined_at = when;
  status = active;
  predecessor = none;
  successor = core n.self;
  successor_list = core n.self ∷ [];
  successor_list_valid = true;
  last_invariant_check = some when;
  fingers = map (own_finger n.self) n.fingers;
}

-- `n.fingers[0]` of a joined node.
abbrev pub joined_finger : NodeInfo → List FingerEntry → List FingerEntry
joined_finger s [] = []
joined_finger s (f ∷ l) = record f { node = core s; status = fresh } ∷ l

module _ (net : Net) where
  -- `client.SuccessorList`, in the form that the two readers of it want.
  unfoldable pub ask_list : NodeInfo → World → List NodeInfo × World
  ask_list s w = elim (net.successor_list w.calls s) [
    | none ↦ (core s ∷ [], passed net w)
    | some l ↦ (core s ∷ l, passed net w)
  ]

  unfoldable pub successor_list_for : NodeInfo → World → List NodeInfo × World
  successor_list_for s w =
      let listed = ask_list s w in
      let read : List NodeInfo × World = elim (net.state w.calls s) [
        | none ↦ ask_list s (passed net w)
        | some state ↦ (core s ∷ state.successor_list, passed net w)
      ] in
      if same s.node_id w.node.self.node_id
      then (w.node.successor_list, w)
      else if not net.has_client
      then (core s ∷ [], w)
      else if w.node.options.stabilize_atomic_state
      then read
      else listed

  -- The list of the new successor: of its state, if that is to be read and answers.
  unfoldable pub seed_list : JoinResponse → World → List NodeInfo × World
  seed_list r w =
      let read : List NodeInfo × World = elim (net.state w.calls r.successor) [
        | none ↦ (r.successor_list, passed net w)
        | some state ↦ (state.successor_list, passed net w)
      ] in
      if w.node.options.stabilize_atomic_state then read else (r.successor_list, w)

  unfoldable pub adopt_successor : ℕ → NodeInfo → List NodeInfo → Node → Node
  adopt_successor when s remote n = record n {
    predecessor = none;
    successor = core s;
    successor_list = merge_successor_list n (core s) remote;
    fingers = joined_finger s n.fingers;
    joined_at = when;
    status = active;
  }

  -- A region that the tracker found, for a node without one.
  unfoldable pub take_region : Bytes → Node → Node
  take_region region n =
      if is_empty n.region && not (is_empty region)
      then record n { region = region; self = record n.self { region = region } }
      else n

  -- `tracker` is what its `Register` answers to the n-th call, if there is a tracker.
  module _ (os : Platform) (tracker : Option (ℕ → Option Bytes)) where
    unfoldable pub call_tracker : (ℕ → Option Bytes) → World → World
    call_tracker register w =
        let w1 = passed net (log register_sent w) in
        elim (register w.calls) [
          | none ↦ w1
          | some region ↦ with_node (take_region region w1.node) w1
        ]

    unfoldable pub register_tracker : World → World
    register_tracker w = elim tracker [
      | none ↦ w
      | some register ↦
          let called = call_tracker register w in if is_vnode w.node then w else called
    ]

    unfoldable pub activate_alone : World → World
    activate_alone w = register_tracker (with_node (activate_single_node (now net w) w.node) w)

    -- A seed that answered with a sound successor.
    unfoldable pub join_with : NodeInfo → JoinResponse → World → World
    join_with with_cert r w =
        let (remote, w1) = seed_list r w in
        let w2 = with_node (adopt_successor (now net w1) r.successor remote w1.node) w1 in
        register_tracker (validate_successor_list net (rectify_peer net r.successor with_cert w2))

    unfoldable pub try_seeds : NodeInfo → List NodeInfo → World → World
    try_seeds with_cert [] w = activate_alone w
    try_seeds with_cert (seed ∷ l) w =
        let skip = try_seeds with_cert l w in
        let w1 = passed net w in
        let next = try_seeds with_cert l w1 in
        let tried : World = elim (net.join w.calls seed.uri with_cert) [
          | none ↦ next
          | some r ↦ if validate_node_info os r.successor then join_with with_cert r w1 else next
        ] in
        if same seed.node_id with_cert.node_id || not (validate_node_info os seed)
        then skip
        else tried

    unfoldable pub join_network_with_seeds : List NodeInfo → World → World
    join_network_with_seeds [] w = activate_alone (with_node (record w.node { status = joining }) w)
    join_network_with_seeds (seed ∷ l) w =
        let w1 = with_node (record w.node { status = joining }) w in
        let with_cert = record (core (identity w1.node)) {
          certificate = w1.node.options.node_certificate;
        } in
        if not net.has_client then activate_alone w1 else try_seeds with_cert (seed ∷ l) w1

module _ {F : Type 0} (sc : Scoring F)
    (visit : List (Bytes × RoutingEntry) → List (Bytes × RoutingEntry)) (hints : List (Bytes × ℕ))
    (net : Net) (os : Platform) where
  -- The answer to a join, once the successor of the joining node is known.
  unfoldable pub answer_join : Reply NodeInfo × World → Reply JoinResponse × World
  answer_join (refuse e, w) = (refuse e, w)
  answer_join (reply s, w) =
      let (l, w1) = successor_list_for net s w in
      (reply (record { successor = core s; successor_list = l }), w1)

  unfoldable pub handle_join : NodeInfo → World → Reply JoinResponse × World
  handle_join node w =
      let answered = answer_join (lookup_successor sc visit hints net node.node_id w) in
      if not (validate_node_info os node)
      then (refuse (api_error 400 invalid_request), w)
      else if is_leaving w.node.status
      then (refuse (api_error 503 node_leaving), w)
      else if is_isolated w.node.status
      then (refuse (api_error 503 node_isolated), w)
      else if same node.node_id w.node.self.node_id
      then (refuse (api_error 409 id_collision), w)
      else answered
