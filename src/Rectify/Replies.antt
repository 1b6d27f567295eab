-- ===== src/Rectify/Replies.antt =====
-- When a rectify request is answered, and what a lost predecessor leaves.
use chord_dht.Base.{◌≡◌, ◌≢◌, ◌⊎◌, ◌↔◌, true, false, none, some, arith, ℕ, suc}
use chord_dht.Node.{Node, emit_topology_change}
use chord_dht.Failures.{mark_success}
use chord_dht.Types.{NodeInfo, refuse, is_leaving, is_joining, ApiError, is_reply}
use chord_dht.Uri.{Platform, validate_node_info}
use chord_dht.World.{Net, World}
use chord_dht.Rectify.{handle_rectify, rectify_checked, check_predecessor}

-- A request is answered exactly when it describes a sound node, other than this one, and this node
-- is neither leaving nor joining; a refusal leaves the node and its log as they were.
pub handle_rectify_iff :
    (os : Platform) (net : Net) (node : NodeInfo) (w : World)
    → ((is_reply (handle_rectify os net node w).0 ≡ true) ↔ (
        (validate_node_info os node ≡ true)
        × (is_leaving w.node.status ≡ false)
        × (is_joining w.node.status ≡ false)
        × (node.node_id ≢ w.node.self.node_id)))
      × ((e : ApiError)
          → (handle_rectify os net node w).0 ≡ refuse e
          → (handle_rectify os net node w).1 ≡ w)
unfolding handle_rectify rectify_checked
handle_rectify_iff os net node w = ((λ h. ground arith, λ h. ground arith), λ e h. ground arith)

-- If no other goroutine interferes, a predecessor other than the node is dropped by a check when
-- two pings in a row fail, and kept when one of the two is answered.
pub check_predecessor_lem :
    (os : Platform) (net : Net) (w : World) (p : NodeInfo)
    → ((k : ℕ) (n : Node) → net.others k n ≡ n)
    → w.node.predecessor ≡ some p
    → p.node_id ≢ w.node.self.node_id
    → net.has_client ≡ true
    → (((net.ping_with_latency w.calls p.uri ≡ none)
          × (net.ping_with_latency (suc w.calls) p.uri ≡ none))
        × ((check_predecessor os net w).node.predecessor ≡ none))
      ⊎ (((net.ping_with_latency w.calls p.uri ≢ none)
            ⊎ (net.ping_with_latency (suc w.calls) p.uri ≢ none))
          × ((check_predecessor os net w).node.predecessor ≡ some p))
unfolding check_predecessor mark_success emit_topology_change
check_predecessor_lem os net w p quiet hp other client =
    ground (arith, quiet w.calls w.node, quiet (suc w.calls) (net.others w.calls w.node))
