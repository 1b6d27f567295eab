-- ===== src/Maintenance/Table/Rings.antt =====
-- The finger table over a stabilization, the check of the predecessor and the health check.
use chord_dht.Base.{ℕ, not, ◌||◌, List, [], ◌∷◌, Bytes, same, if_cases, option_cases}
use chord_dht.Failures.{mark_success}
use chord_dht.Fingers.Table.{
  IsTable, mark_success-IsTable, mark_failure-IsTable, first_finger-IsTable,
}
use chord_dht.Id.{in_range_open_open}
use chord_dht.Liveness.{ping_liveness, fetch_successor_state, rectify_peer}
use chord_dht.Maintenance.{health_check_loop, health_check_ring}
use chord_dht.Maintenance.Table.Calls.{
  ping_liveness-IsTable, fetch-IsTable, rectify_peer-IsTable, validate-IsTable,
}
use chord_dht.Node.{Node, emit_topology_change}
use chord_dht.Rectify.{check_predecessor}
use chord_dht.Stabilize.{
  Start, remote_list, write_successor, settle_alone, validate_if_asked, bootstrap, choose,
  choose_between, adopt, give_up, try_self, use_state, try_peer, try_candidates, stabilize,
}
use chord_dht.Types.{NodeInfo, RemoteState, core, is_active}
use chord_dht.Uri.{Platform, validate_node_info}
use chord_dht.Validation.{isolate}
use chord_dht.World.{Net, World, passed, with_node, now}

write_successor-IsTable :
    (s : NodeInfo) (remote : List NodeInfo) (n : Node)
    → IsTable n
    → IsTable (write_successor s remote n)
unfolding write_successor
write_successor-IsTable s remote n h = first_finger-IsTable s n.self.node_id 0 n.fingers h

settle_alone-IsTable :
    (st : Start) (when : ℕ) (n : Node) → IsTable n → IsTable (settle_alone st when n)
unfolding settle_alone emit_topology_change
settle_alone-IsTable st when n h =
    if_cases IsTable (same st.current_successor.node_id st.self.node_id) (λ _. h) (λ _. h)

module _ (net : Net) (calm : (i : ℕ) (n : Node) → IsTable n → IsTable (net.others i n))
    (os : Platform) where
  abbrev Ok : World → Type 0
  Ok w = IsTable w.node

  validate_if_asked-IsTable : (w : World) → Ok w → IsTable (validate_if_asked os net w).node
  unfolding validate_if_asked
  validate_if_asked-IsTable w h =
      if_cases Ok w.node.options.validate_after_stabilize (λ _. validate-IsTable net calm w h)
        (λ _. h)

  bootstrap-IsTable :
      (st : Start) (p : NodeInfo) (w : World) → Ok w → IsTable (bootstrap os net st p w).node
  unfolding bootstrap emit_topology_change
  bootstrap-IsTable st p w h =
      let (state, w1) = fetch_successor_state net p w in
      let w2 = rectify_peer net p st.with_cert w1 in
      validate_if_asked-IsTable _ (
        write_successor-IsTable p (remote_list state) w2.node
          (rectify_peer-IsTable net calm p st.with_cert w1 (fetch-IsTable net calm p w h)))

  choose_between-IsTable :
      (st : Start) (c : NodeInfo) (state : RemoteState) (p : NodeInfo) (w : World)
      → Ok w
      → IsTable (choose_between os net st c state p w).1.node
  unfolding choose_between
  choose_between-IsTable st c state p w h =
      let P : (NodeInfo × List NodeInfo) × World → Type 0 = λ r. Ok r.1 in
      let w1 = (ping_liveness net (core p) w).1 in
      let later = ping_liveness-IsTable net calm (core p) w h in
      if_cases P
        (same p.node_id st.self.node_id
          || not (in_range_open_open p.node_id st.self.node_id c.node_id))
        {x = ((core c, state.successor_list), w)} (λ _. h)
        (λ _.
          if_cases P (not (validate_node_info os (core p)))
            {x = ((core c, state.successor_list), w)} (λ _. h)
            (λ _.
              if_cases P (ping_liveness net (core p) w).0
                {x = ((core p, core c ∷ state.successor_list), w1)}
                {y = ((core c, state.successor_list), w1)} (λ _. later) (λ _. later)))

  choose-IsTable :
      (st : Start) (c : NodeInfo) (state : RemoteState) (w : World)
      → Ok w
      → IsTable (choose os net st c state w).1.node
  unfolding choose
  choose-IsTable st c state w h =
      option_cases {A = (NodeInfo × List NodeInfo) × World} (λ r. Ok r.1) state.predecessor (λ _. h)
        (λ p _. choose_between-IsTable st c state p w h)

  adopt-IsTable :
      (st : Start) (r : NodeInfo × List NodeInfo) (w : World)
      → Ok w
      → IsTable (adopt os net st r w).node
  unfolding adopt emit_topology_change
  adopt-IsTable st (s, remote) w h =
      let w1 = rectify_peer net s st.with_cert w in
      let written =
        write_successor-IsTable s remote w1.node
          (rectify_peer-IsTable net calm s st.with_cert w h) in
      if_cases Ok (not (same s.node_id st.current_successor.node_id))
        (λ _. validate_if_asked-IsTable _ written) (λ _. validate_if_asked-IsTable _ written)

  try_self-IsTable :
      (st : Start) (next : World → World) (w : World)
      → ((v : World) → Ok v → Ok (next v))
      → Ok w
      → IsTable (try_self os net st next w).node
  unfolding try_self
  try_self-IsTable st next w k h =
      let settled = settle_alone-IsTable st (now net w) w.node h in
      option_cases Ok st.current_predecessor (λ _. settled)
        (λ p _.
          let w1 = (ping_liveness net (core p) w).1 in
          let later = ping_liveness-IsTable net calm (core p) w h in
          if_cases Ok (same p.node_id st.self.node_id || not net.has_client) (λ _. settled)
            (λ _.
              if_cases Ok (ping_liveness net (core p) w).0
                (λ _. bootstrap-IsTable st (core p) w1 later) (λ _. k w1 later)))

  use_state-IsTable :
      (st : Start) (c : NodeInfo) (s : RemoteState) (w : World)
      → Ok w
      → IsTable (use_state os net st c s w).node
  unfolding use_state
  use_state-IsTable st c s w h =
      let marked = with_node (mark_success c.node_id w.node) w in
      let chosen = choose os net st c s marked in
      adopt-IsTable st chosen.0 chosen.1
        (choose-IsTable st c s marked (mark_success-IsTable c.node_id w.node h))

  try_peer-IsTable :
      (st : Start) (c : NodeInfo) (next : World → World) (w : World)
      → ((v : World) → Ok v → Ok (next v))
      → Ok w
      → IsTable (try_peer os net st c next w).node
  unfolding try_peer
  try_peer-IsTable st c next w k h =
      let w1 = (fetch_successor_state net c w).1 in
      let later = fetch-IsTable net calm c w h in
      option_cases Ok (fetch_successor_state net c w).0
        (λ _. k _ (mark_failure-IsTable c.node_id w1.node later))
        (λ s _. use_state-IsTable st c s w1 later)

  try_candidates-IsTable :
      (st : Start) (l : List NodeInfo) (w : World)
      → Ok w
      → IsTable (try_candidates os net st l w).node
  unfolding try_candidates give_up isolate emit_topology_change
  try_candidates-IsTable st [] w h = h
  try_candidates-IsTable st (c ∷ l) w h =
      let next = try_candidates os net st l in
      if_cases Ok (same c.node_id st.self.node_id)
        (λ _. try_self-IsTable st next w (try_candidates-IsTable st l) h)
        (λ _.
          if_cases Ok (not net.has_client) (λ _. h)
            (λ _. try_peer-IsTable st c next w (try_candidates-IsTable st l) h))

  pub stabilize-IsTable : (w : World) → Ok w → IsTable (stabilize os net w).node
  unfolding stabilize
  stabilize-IsTable w h =
      if_cases Ok (is_active w.node.status) (λ _. try_candidates-IsTable _ _ w h) (λ _. h)

  pub check_predecessor-IsTable : (w : World) → Ok w → IsTable (check_predecessor os net w).node
  unfolding check_predecessor emit_topology_change
  check_predecessor-IsTable w h =
      let w1 = passed net w in
      let w2 = passed net w1 in
      let later = calm w.calls w.node h in
      let last = calm w1.calls w1.node later in
      option_cases Ok w.node.predecessor (λ _. h)
        (λ p _.
          if_cases Ok (same p.node_id w.node.self.node_id || not net.has_client) (λ _. h)
            (λ _.
              option_cases Ok (net.ping_with_latency w.calls p.uri)
                (λ _.
                  option_cases Ok (net.ping_with_latency w1.calls p.uri) (λ _. last)
                    (λ _ _. mark_success-IsTable p.node_id w2.node last))
                (λ _ _. mark_success-IsTable p.node_id w1.node later)))

  health_check_loop-IsTable :
      (id : Bytes) (l : List NodeInfo) (w : World)
      → Ok w
      → IsTable (health_check_loop net id l w).node
  unfolding health_check_loop
  health_check_loop-IsTable id [] w h = h
  health_check_loop-IsTable id (n ∷ l) w h =
      let later = calm w.calls w.node h in
      if_cases Ok (same n.node_id id) (λ _. health_check_loop-IsTable id l w h)
        (λ _.
          option_cases Ok (net.ping_with_latency w.calls n.uri)
            (λ _. health_check_loop-IsTable id l _ (mark_failure-IsTable n.node_id _ later))
            (λ _ _. health_check_loop-IsTable id l _ (mark_success-IsTable n.node_id _ later)))

  pub health_check_ring-IsTable : (w : World) → Ok w → IsTable (health_check_ring net w).node
  unfolding health_check_ring
  health_check_ring-IsTable w h =
      if_cases Ok (not net.has_client) (λ _. h)
        (λ _. health_check_loop-IsTable w.node.self.node_id w.node.successor_list w h)
