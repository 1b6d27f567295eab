-- ===== src/Rectify.antt =====
-- `HandleRectify` of internal/chord/protocol.go (and `HandleNotify`, which calls it), and
-- `CheckPredecessor` of internal/chord/maintenance.go: how a node learns and loses its predecessor.
pub mod Closer
pub mod Replies
use chord_dht.Base.{
  ℕ, suc, Bool, true, false, not, ◌&&◌, ◌||◌, Option, none, some, List, [], ◌∷◌, ◌++◌, Bytes, same,
  is_empty, leb, ltb, if◌then◌else◌, length, set,
}
use chord_dht.Failures.{mark_success}
use chord_dht.Id.{in_range_open_open}
use chord_dht.Liveness.{ping_liveness}
use chord_dht.Node.{Node, Options, emit_topology_change, default_predecessor_list_size}
use chord_dht.Types.{
  NodeInfo, RectifyResponse, Reply, reply, refuse, api_error, invalid_request, node_leaving,
  node_joining, core, is_leaving, is_joining,
}
use chord_dht.Uri.{Platform, validate_node_info}
use chord_dht.World.{Net, World, with_node, passed, answered}

abbrev pub list_size : Options → ℕ
list_size o =
    if leb o.predecessor_list_size 0 then default_predecessor_list_size else o.predecessor_list_size

abbrev pub with_previous : ℕ → NodeInfo → Option NodeInfo → List NodeInfo
with_previous p candidate none = candidate ∷ []
with_previous p candidate (some old) = if ltb 1 p then candidate ∷ old ∷ [] else candidate ∷ []

-- The test under the lock: no predecessor, one that was found dead and is still there, or one that
-- lies further back than the candidate.
unfoldable pub accepts : NodeInfo → Option NodeInfo → Bool → Node → Bool
accepts candidate pinged alive n = elim n.predecessor [
  | none ↦ true
  | some old ↦
      (elim pinged [ none ↦ false | some q ↦ same old.node_id q.node_id && not alive ])
      || in_range_open_open candidate.node_id old.node_id n.self.node_id
]

unfoldable pub set_predecessor : NodeInfo → Node → Node
set_predecessor candidate n = record n {
  predecessor_list = with_previous (list_size n.options) candidate n.predecessor;
  predecessor = some candidate;
}

-- The part of the handler after the ping.
unfoldable pub decide_candidate : NodeInfo → Option NodeInfo → Bool → Node → RectifyResponse × Node
decide_candidate candidate pinged alive n =
    if accepts candidate pinged alive n
    then (
      record { accepted = true; predecessor = some candidate },
      emit_topology_change (set_predecessor candidate n),
    )
    else (record { accepted = false; predecessor = n.predecessor }, n)

module _ (os : Platform) (net : Net) where
  -- The ping of the predecessor, which counts as alive if there is nobody to ping.
  unfoldable pub ping_predecessor : Option NodeInfo → World → Bool × World
  ping_predecessor none w = (true, w)
  ping_predecessor (some p) w =
      let pinged = ping_liveness net p w in
      if same p.node_id w.node.self.node_id || not net.has_client then (true, w) else pinged

  unfoldable pub rectify_checked : NodeInfo → World → Reply RectifyResponse × World
  rectify_checked candidate w =
      let (alive, w1) = ping_predecessor w.node.predecessor w in
      let (answer, n) = decide_candidate candidate w.node.predecessor alive w1.node in
      (reply answer, with_node n w1)

  unfoldable pub handle_rectify : NodeInfo → World → Reply RectifyResponse × World
  handle_rectify node w =
      let checked = rectify_checked (core node) w in
      if not (validate_node_info os node)
      then (refuse (api_error 400 invalid_request), w)
      else if is_leaving w.node.status
      then (refuse (api_error 503 node_leaving), w)
      else if is_joining w.node.status
      then (refuse (api_error 503 node_joining), w)
      else if same node.node_id w.node.self.node_id
      then (refuse (api_error 400 invalid_request), w)
      else checked

  -- The goroutine that an acceptance starts: it asks the candidate for its predecessor.
  abbrev pub second : ℕ → NodeInfo → List NodeInfo → List NodeInfo
  second p found [] = []
  second p found (a ∷ l) =
      if ltb (length (a ∷ l)) p
      then (a ∷ l) ++ found ∷ []
      else if leb 2 (length (a ∷ l))
      then set (a ∷ l) 1 found
      else a ∷ l

  abbrev pub first_is : Bytes → List NodeInfo → Bool
  first_is id [] = false
  first_is id (a ∷ l) = same a.node_id id

  unfoldable pub fill_predecessor_list : NodeInfo → World → World
  fill_predecessor_list candidate w =
      let w' = passed net w in
      let n = w'.node in
      if not net.has_client then w else elim (net.predecessor w.calls candidate) [
        | none ↦ w'
        | some none ↦ w'
        | some (some p) ↦
            if same p.node_id n.self.node_id || not (first_is candidate.node_id n.predecessor_list)
            then w'
            else with_node
                (record n {
                  predecessor_list = second (list_size n.options) (core p) n.predecessor_list;
                })
                w'
      ]

  abbrev forget_predecessor : Bytes → Option NodeInfo → Option NodeInfo
  forget_predecessor id none = none
  forget_predecessor id (some p) = if same p.node_id id then none else some p

  -- `CheckPredecessor`: a ping, a second one after two seconds if the first fails.
  unfoldable pub check_predecessor : World → World
  check_predecessor w = elim w.node.predecessor [
    | none ↦ w
    | some p ↦
        let w1 = passed net w in
        let w2 = passed net w1 in
        let lost = λ (v : World).
          with_node
            (emit_topology_change
              (record v.node { predecessor = forget_predecessor p.node_id v.node.predecessor }))
            v in
        let seen = λ (v : World). with_node (mark_success p.node_id v.node) v in
        if same p.node_id w.node.self.node_id || not net.has_client
        then w
        else elim (net.ping_with_latency w.calls p.uri) [
          | some rtt ↦ seen w1
          | none ↦ elim (net.ping_with_latency w1.calls p.uri) [
            | some rtt ↦ seen w2
            | none ↦ lost w2
          ]
        ]
  ]
