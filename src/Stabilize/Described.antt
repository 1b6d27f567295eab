-- ===== src/Stabilize/Described.antt =====
-- What a stabilization tells its peers: every rectify request, and every notification in its place,
-- describes the node as it was at the start.
use chord_dht.Base.{not, ◌||◌, List, [], ◌∷◌, same, if_cases, option_cases}
use chord_dht.Id.{in_range_open_open}
use chord_dht.Liveness.{ping_liveness, fetch_successor_state}
use chord_dht.Node.{dedupe_nodes}
use chord_dht.Stabilize.{
  Start, validate_if_asked, bootstrap, choose, choose_between, adopt, give_up, try_self, use_state,
  try_peer, try_candidates, start, stabilize,
}
use chord_dht.Stabilize.Sent.{
  Ok, ping_liveness-Ok, fetch-Ok, rectify_peer-Ok, validate_successor_list-Ok,
}
use chord_dht.Types.{NodeInfo, RemoteState, core, is_active}
use chord_dht.Uri.{Platform, validate_node_info}
use chord_dht.World.{Net, World}

module _ (os : Platform) (net : Net) (st : Start) where
  abbrev Good : World → Type 0
  Good = Ok net st.with_cert

  validate_if_asked-Good : (w : World) → Good w → Good (validate_if_asked os net w)
  unfolding validate_if_asked
  validate_if_asked-Good w h =
      if_cases Good w.node.options.validate_after_stabilize
        (λ _. validate_successor_list-Ok net st.with_cert w h) (λ _. h)

  bootstrap-Good : (p : NodeInfo) (w : World) → Good w → Good (bootstrap os net st p w)
  unfolding bootstrap
  bootstrap-Good p w h =
      validate_if_asked-Good _
        (rectify_peer-Ok net st.with_cert p _ (fetch-Ok net st.with_cert p w h))

  choose_between-Good :
      (c : NodeInfo) (state : RemoteState) (p : NodeInfo) (w : World)
      → Good w
      → Good (choose_between os net st c state p w).1
  unfolding choose_between
  choose_between-Good c state p w h =
      let P : (NodeInfo × List NodeInfo) × World → Type 0 = λ r. Good r.1 in
      let later = ping_liveness-Ok net st.with_cert (core p) w h in
      if_cases P
        (same p.node_id st.self.node_id
          || not (in_range_open_open p.node_id st.self.node_id c.node_id))
        (λ _. h)
        (λ _.
          if_cases P (not (validate_node_info os (core p))) (λ _. h)
            (λ _. if_cases P (ping_liveness net (core p) w).0 (λ _. later) (λ _. later)))

  choose-Good :
      (c : NodeInfo) (state : RemoteState) (w : World)
      → Good w
      → Good (choose os net st c state w).1
  unfolding choose
  choose-Good c state w h =
      option_cases {A = (NodeInfo × List NodeInfo) × World} (λ r. Good r.1) state.predecessor
        (λ _. h) (λ p _. choose_between-Good c state p w h)

  adopt-Good :
      (choice : NodeInfo × List NodeInfo) (w : World) → Good w → Good (adopt os net st choice w)
  unfolding adopt
  adopt-Good (s, remote) w h =
      let told = rectify_peer-Ok net st.with_cert s w h in
      if_cases Good (not (same s.node_id st.current_successor.node_id))
        (λ _. validate_if_asked-Good _ told) (λ _. validate_if_asked-Good _ told)

  try_self-Good :
      (next : World → World) (w : World)
      → ((v : World) → Good v → Good (next v))
      → Good w
      → Good (try_self os net st next w)
  unfolding try_self
  try_self-Good next w k h =
      let later = λ (p : NodeInfo). ping_liveness-Ok net st.with_cert (core p) w h in
      option_cases Good st.current_predecessor (λ _. h)
        (λ p _.
          if_cases Good (same p.node_id st.self.node_id || not net.has_client) (λ _. h)
            (λ _.
              if_cases Good (ping_liveness net (core p) w).0
                (λ _. bootstrap-Good (core p) _ (later p)) (λ _. k _ (later p))))

  use_state-Good :
      (c : NodeInfo) (state : RemoteState) (w : World)
      → Good w
      → Good (use_state os net st c state w)
  unfolding use_state
  use_state-Good c state w h = adopt-Good _ _ (choose-Good c state _ h)

  try_peer-Good :
      (c : NodeInfo) (next : World → World) (w : World)
      → ((v : World) → Good v → Good (next v))
      → Good w
      → Good (try_peer os net st c next w)
  unfolding try_peer
  try_peer-Good c next w k h =
      let later = fetch-Ok net st.with_cert c w h in
      option_cases Good (fetch_successor_state net c w).0 (λ _. k _ later)
        (λ s _. use_state-Good c s _ later)

  try_candidates-Good :
      (l : List NodeInfo) (w : World) → Good w → Good (try_candidates os net st l w)
  unfolding try_candidates give_up
  try_candidates-Good [] w h = h
  try_candidates-Good (c ∷ l) w h =
      let k = try_candidates-Good l in
      if_cases Good (same c.node_id st.self.node_id)
        (λ _. try_self-Good (try_candidates os net st l) w k h)
        (λ _.
          if_cases Good (not net.has_client) (λ _. h)
            (λ _. try_peer-Good c (try_candidates os net st l) w k h))

-- A stabilization adds to the log only messages that describe the node as `selfWithCert`.
pub stabilize-Ok :
    (os : Platform) (net : Net) (w : World)
    → Ok net (start os net w.node).with_cert w
    → Ok net (start os net w.node).with_cert (stabilize os net w)
unfolding stabilize
stabilize-Ok os net w h =
    if_cases (Ok net (start os net w.node).with_cert) (is_active w.node.status)
      (λ _.
        try_candidates-Good os net (start os net w.node)
          (dedupe_nodes (w.node.successor ∷ w.node.successor_list) []) w h)
      (λ _. h)
