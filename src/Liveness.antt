-- ===== src/Liveness.antt =====
-- The calls of internal/chord/maintenance.go that the operations share: `pingLiveness`,
-- `fetchSuccessorState` and `rectifyPeer`.
use chord_dht.Base.{
  Bool, true, false, not, ◌||◌, Option, none, some, [], same, is_empty, if◌then◌else◌,
}
use chord_dht.Failures.{mark_success}
use chord_dht.Types.{NodeInfo, RemoteState}
use chord_dht.World.{Net, World, rectify_sent, notify_sent, passed, answered, with_node, log}

module _ (net : Net) where
  unfoldable pub ping_liveness : NodeInfo → World → Bool × World
  ping_liveness target w =
      let w' = passed net w in
      if is_empty target.node_id
      then (false, w)
      else if same target.node_id w.node.self.node_id
      then (true, w)
      else if not net.has_client
      then (false, w)
      else if net.ping_liveness w.calls target.uri
      then (true, answered target.node_id (with_node (mark_success target.node_id w'.node) w'))
      else (false, w')

  -- `client.State`
  unfoldable pub call_state : NodeInfo → World → Option RemoteState × World
  call_state target w = elim (net.state w.calls target) [
    | none ↦ (none, passed net w)
    | some s ↦ (some s, answered target.node_id (passed net w))
  ]

  -- The two calls of a stabilization that does not use the atomic state.
  unfoldable pub call_both : NodeInfo → World → Option RemoteState × World
  call_both target w =
      let w' = passed net w in
      elim (net.predecessor w.calls target) [
        | none ↦ (none, w')
        | some p ↦ elim (net.successor_list w'.calls target) [
          | none ↦ (
            some (record { predecessor = p; successor_list = [] }),
            answered target.node_id (passed net w'),
          )
          | some l ↦ (
            some (record { predecessor = p; successor_list = l }),
            answered target.node_id (passed net w'),
          )
        ]
      ]

  unfoldable pub fetch_successor_state : NodeInfo → World → Option RemoteState × World
  unfolding call_state call_both
  fetch_successor_state candidate w =
      if not net.has_client
      then (none, w)
      else if w.node.options.stabilize_atomic_state
      then call_state candidate w
      else call_both candidate w

  unfoldable pub rectify_peer : NodeInfo → NodeInfo → World → World
  rectify_peer target self w =
      let asked = passed net (log (rectify_sent target.node_id self) w) in
      if not net.has_client || (is_empty target.node_id || same target.node_id w.node.self.node_id)
      then w
      else if net.rectify w.calls target self
      then asked
      else passed net (log (notify_sent target.node_id self) asked)
