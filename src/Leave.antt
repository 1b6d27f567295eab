-- ===== src/Leave.antt =====
-- `HandleLeave` of internal/chord/protocol.go and `GracefulLeave` of internal/chord/maintenance.go.
pub mod Handled
use chord_dht.Base.{
  Bool, true, false, not, ◌&&◌, Option, none, some, List, [], ◌∷◌, Bytes, same, is_empty,
  if◌then◌else◌,
}
use chord_dht.Node.{Node}
use chord_dht.SuccessorList.{merge_successor_list}
use chord_dht.Types.{
  NodeInfo, LeaveRequest, LeaveRole, predecessor_leaving, successor_leaving, other_role, Reply,
  reply, refuse, api_error, invalid_request, core, leaving,
}
use chord_dht.World.{Net, World, Message, leave_sent, deregister_sent, log, passed, with_node}

unfoldable pub leave_as : LeaveRole → LeaveRequest → Node → Reply Bool × Node
leave_as predecessor_leaving req n = (reply true, record n { predecessor = req.new_predecessor })
leave_as successor_leaving req n = elim req.new_successor [
  | none ↦ (reply true, n)
  | some s ↦ (
    reply true,
    record n {
      successor = core s;
      successor_list = merge_successor_list n (core s) n.successor_list;
    },
  )
]
leave_as other_role req n = (refuse (api_error 400 invalid_request), n)

unfoldable pub handle_leave : LeaveRequest → Node → Reply Bool × Node
unfolding leave_as
handle_leave req n = leave_as req.role req n

module _ (net : Net) (tracker : Bool) where
  unfoldable pub tell_successor : Node → World → World
  tell_successor n w =
      let req : LeaveRequest = record {
        role = predecessor_leaving;
        new_predecessor = n.predecessor;
        new_successor = none;
      } in
      if not (is_empty n.successor.node_id) && not (same n.successor.node_id n.self.node_id)
      then passed net (log (leave_sent n.successor.node_id req) w)
      else w

  unfoldable pub tell_predecessor : Node → World → World
  tell_predecessor n w = elim n.predecessor [
    | none ↦ w
    | some p ↦
        let req : LeaveRequest = record {
          role = successor_leaving;
          new_predecessor = none;
          new_successor = some n.successor;
        } in
        if same p.node_id n.self.node_id then w else passed net (log (leave_sent p.node_id req) w)
  ]

  -- `tracker` is whether one is configured.
  unfoldable pub graceful_leave : World → World
  graceful_leave w =
      let n = record w.node { status = leaving } in
      let w1 = with_node n w in
      let told = tell_predecessor n (tell_successor n w1) in
      let w2 = if net.has_client then told else w1 in
      if tracker then passed net (log deregister_sent w2) else w2
