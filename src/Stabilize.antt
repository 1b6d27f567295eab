-- ===== src/Stabilize.antt =====
-- `Stabilize` of internal/chord/maintenance.go: read the state of the first successor candidate that
-- answers, adopt its predecessor if that lies in between and is alive, tell the successor, and
-- rebuild the successor list; with no candidate left, isolate the node.
pub mod Anchored
pub mod Calls
pub mod Described
pub mod Sent
pub mod Writes
use chord_dht.Base.{
  ℕ, suc, ◌+◌, Bool, true, false, not, ◌&&◌, ◌||◌, Option, none, some, List, [], ◌∷◌, Bytes, same,
  is_empty, if◌then◌else◌,
}
use chord_dht.Failures.{mark_failure, mark_success}
use chord_dht.Id.{in_range_open_open}
use chord_dht.Liveness.{ping_liveness, fetch_successor_state, rectify_peer}
use chord_dht.Node.{Node, emit_topology_change, dedupe_nodes}
use chord_dht.SuccessorList.{merge_successor_list}
use chord_dht.Types.{NodeInfo, RemoteState, core, isolated, is_active}
use chord_dht.Uri.{Platform, validate_node_info}
use chord_dht.Validation.{first_finger, isolate, validate_successor_list}
use chord_dht.World.{Net, World, with_node, now}

-- What `Stabilize` reads under the lock before it starts.
pub record Start : Type 0 where
  pub self : NodeInfo
  pub with_cert : NodeInfo
  pub current_successor : NodeInfo
  pub current_predecessor : Option NodeInfo

-- The write of a new successor: its list, and the first finger.
unfoldable pub write_successor : NodeInfo → List NodeInfo → Node → Node
write_successor s remote n = record n {
  successor = s;
  successor_list = merge_successor_list n s remote;
  fingers = first_finger s n.fingers;
}

abbrev is_other : Option NodeInfo → Bytes → Bool
is_other none id = false
is_other (some p) id = not (same p.node_id id)

abbrev pub remote_list : Option RemoteState → List NodeInfo
remote_list none = []
remote_list (some s) = s.successor_list

-- The node is its own successor. If it had another before, it is cut off.
unfoldable pub settle_alone : Start → ℕ → Node → Node
settle_alone st when n =
    let alone = record n {
      successor = st.self;
      successor_list = st.self ∷ [];
      successor_list_valid = true;
      last_invariant_check = some when;
    } in
    if same st.current_successor.node_id st.self.node_id
    then alone
    else emit_topology_change
        (record alone { status = isolated; predecessor = none; successor_list_valid = false })

module _ (os : Platform) (net : Net) where
  unfoldable pub validate_if_asked : World → World
  validate_if_asked w =
      let checked = validate_successor_list net w in
      if w.node.options.validate_after_stabilize then checked else w

  -- The predecessor becomes the successor of a node that is its own.
  unfoldable pub bootstrap : Start → NodeInfo → World → World
  bootstrap st p w =
      let (state, w1) = fetch_successor_state net p w in
      let w2 = rectify_peer net p st.with_cert w1 in
      let w3 = validate_if_asked (with_node (write_successor p (remote_list state) w2.node) w2) in
      with_node (emit_topology_change w3.node) w3

  -- The candidate's predecessor, if it lies in between, is a sound description and answers;
  -- otherwise the candidate itself; with the list to merge.
  unfoldable pub choose_between :
      Start → NodeInfo → RemoteState → NodeInfo → World → (NodeInfo × List NodeInfo) × World
  choose_between st c state p w =
      let (alive, w1) = ping_liveness net (core p) w in
      if same p.node_id st.self.node_id
        || not (in_range_open_open p.node_id st.self.node_id c.node_id)
      then ((core c, state.successor_list), w)
      else if not (validate_node_info os (core p))
      then ((core c, state.successor_list), w)
      else if alive
      then ((core p, core c ∷ state.successor_list), w1)
      else ((core c, state.successor_list), w1)

  unfoldable pub choose :
      Start → NodeInfo → RemoteState → World → (NodeInfo × List NodeInfo) × World
  choose st c state w = elim state.predecessor [
    | none ↦ ((core c, state.successor_list), w)
    | some p ↦ choose_between st c state p w
  ]

  unfoldable pub adopt : Start → NodeInfo × List NodeInfo → World → World
  adopt st (s, remote) w =
      let w1 = rectify_peer net s st.with_cert w in
      let changed = not (same s.node_id st.current_successor.node_id) in
      let n = write_successor s remote w1.node in
      let counted = record n {
        stabilize_debounce_count = if changed then n.stabilize_debounce_count + 1 else 0;
      } in
      let w2 = validate_if_asked (with_node counted w1) in
      if changed then with_node (emit_topology_change w2.node) w2 else w2

  unfoldable pub give_up : Start → World → World
  give_up st w = with_node (emit_topology_change (isolate st.self (some (now net w)) w.node)) w

  -- A candidate that is the node itself. `next` goes on with the other candidates.
  unfoldable pub try_self : Start → (World → World) → World → World
  try_self st next w = elim st.current_predecessor [
    | none ↦ with_node (settle_alone st (now net w) w.node) w
    | some p ↦
        let (alive, w1) = ping_liveness net (core p) w in
        if same p.node_id st.self.node_id || not net.has_client
        then with_node (settle_alone st (now net w) w.node) w
        else if alive
        then bootstrap st (core p) w1
        else next w1
  ]

  unfoldable pub use_state : Start → NodeInfo → RemoteState → World → World
  use_state st c state w =
      let (choice, w1) = choose st c state (with_node (mark_success c.node_id w.node) w) in
      adopt st choice w1

  -- Another candidate.
  unfoldable pub try_peer : Start → NodeInfo → (World → World) → World → World
  try_peer st c next w =
      let (state, w1) = fetch_successor_state net c w in
      elim state [
        | none ↦ next (with_node (mark_failure c.node_id w1.node).1 w1)
        | some s ↦ use_state st c s w1
      ]

  unfoldable pub try_candidates : Start → List NodeInfo → World → World
  try_candidates st [] w = give_up st w
  try_candidates st (c ∷ l) w =
      let next = try_candidates st l in
      if same c.node_id st.self.node_id
      then try_self st next w
      else if not net.has_client
      then give_up st w
      else try_peer st c next w

  abbrev pub start : Node → Start
  start n =
      let self = core n.self in
      record {
        self = self;
        with_cert = record self { certificate = n.options.node_certificate };
        current_successor = n.successor;
        current_predecessor = n.predecessor;
      }

  unfoldable pub stabilize : World → World
  stabilize w =
      let tried =
        try_candidates (start w.node) (dedupe_nodes (w.node.successor ∷ w.node.successor_list) [])
          w in
      if is_active w.node.status then tried else w
