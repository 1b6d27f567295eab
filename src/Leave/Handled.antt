-- ===== src/Leave/Handled.antt =====
-- What a node does when a neighbour leaves.
use chord_dht.Base.{◌≤◌, ◌≡◌, ◌≢◌, true, false, some, List, ◌∷◌, is_empty, arith, length}
use mathlib.Core.List.{head?}
use chord_dht.Node.{Node}
use chord_dht.SuccessorList.{merge_successor_list, merge_loop, skipped, size_limit}
use chord_dht.SuccessorList.Merge.{merge_successor_list-IsMerged}
use chord_dht.Types.{NodeInfo, LeaveRequest, successor_leaving, reply, core}
use chord_dht.Leave.{handle_leave}

-- Whatever the status of the node is, leaving included, a request to take over another successor, with
-- an identifier that is neither empty nor the node's own, is acknowledged: that node becomes the
-- successor and the head of a list within the configured size, and the predecessor stays.
pub handle_leave-successor :
    (req : LeaveRequest) (n : Node) (s : NodeInfo)
    → req.role ≡ successor_leaving
    → req.new_successor ≡ some s
    → is_empty s.node_id ≡ false
    → s.node_id ≢ n.self.node_id
    → ((handle_leave req n).0 ≡ reply true)
      × ((handle_leave req n).1.successor ≡ core s)
      × (head? (handle_leave req n).1.successor_list ≡ some (core s))
      × (length (handle_leave req n).1.successor_list ≤ size_limit n)
      × ((handle_leave req n).1.predecessor ≡ n.predecessor)
unfolding handle_leave
handle_leave-successor req n s role new filled other =
    let merged = merge_successor_list-IsMerged n (core s) n.successor_list in
    ground (arith, merged.headed filled other, merged.bounded)

-- The merge passes over a successor that is the node itself.
merge_over_self :
    (n : Node) (s other : NodeInfo) (rest : List NodeInfo)
    → s.node_id ≡ n.self.node_id
    → is_empty other.node_id ≡ false
    → other.node_id ≢ n.self.node_id
    → head? (merge_successor_list n (core s) (other ∷ rest)) ≡ some (core other)
unfolding merge_successor_list merge_loop skipped
merge_over_self n s other rest own filled ne = ground arith

-- If the successor that is to be taken over is the node itself, as in a ring of two, and the list
-- starts with another node, then after the request the successor is the node itself while the list
-- still starts with the other node.
pub handle_leave_of_two :
    (req : LeaveRequest) (n : Node) (s other : NodeInfo) (rest : List NodeInfo)
    → req.role ≡ successor_leaving
    → req.new_successor ≡ some s
    → s.node_id ≡ n.self.node_id
    → n.successor_list ≡ other ∷ rest
    → is_empty other.node_id ≡ false
    → other.node_id ≢ n.self.node_id
    → ((handle_leave req n).1.successor.node_id ≡ n.self.node_id)
      × (head? (handle_leave req n).1.successor_list ≡ some (core other))
unfolding handle_leave
handle_leave_of_two req n s other rest role new own listed filled ne =
    ground (arith, merge_over_self n s other rest own filled ne)
