-- ===== src/Server.antt =====
-- internal/httpapi/server.go and errors.go: the HTTP interface of a host, its anchor and its virtual
-- nodes. `net/http`, with the choice of a route by its `ServeMux`, and `encoding/json` are parameters.
-- A request is handled on the node of its route, on whose state it alone works meanwhile; the
-- stabilization that follows a leave, a goroutine in the source, comes right after it.
pub mod Handlers
pub mod Exempt
pub mod Planted
use chord_dht.Auth.Certificates.{Certificate, Crypto}
use chord_dht.Auth.Verifier.{
  Verifier, Request, Decision, admitted, refused, cache_incoming_cert, middleware,
}
use chord_dht.Base.{
  ℕ, Bool, true, false, not, ◌&&◌, ◌||◌, Option, none, some, List, [], ◌∷◌, ◌++◌, Bytes, codes,
  same, is_empty, if◌then◌else◌, ◌==◌,
}
use chord_dht.Join.{handle_join}
use chord_dht.Leave.{handle_leave}
use chord_dht.Lookup.{Scoring, handle_find_successor}
use chord_dht.Node.{Node, Options, identity, is_vnode}
use chord_dht.Rectify.{handle_rectify}
use chord_dht.RoutingCache.{RoutingEntry}
use chord_dht.Stabilize.{stabilize}
use chord_dht.Types.{
  NodeInfo, FindSuccessorRequest, FindSuccessorResponse, JoinResponse, RectifyResponse,
  LeaveRequest, Status, VnodeEntry, Code, ApiError, api_error, Reply, reply, refuse, node_not_found,
  invalid_request, method_not_allowed,
}
use chord_dht.Uri.{Platform}
use chord_dht.Views.{
  StateResponse, state_of, InvariantReportResponse, invariant_report, FingerTableResponse,
  finger_table_of, PingResponse, ping_of, PredecessorResponse, predecessor_of, RttResponse,
  rtt_data, NodeStatusResponse, node_status_info, VnodeInfoResponse, vnode_info_of,
}
use chord_dht.World.{Net, World, with_node, now}

pub record NodePool : Type 0 where
  pub anchor : Node
  pub vnodes : List Node

unfoldable pub among : Bytes → List Node → Option Node
among id [] = none
among id (n ∷ l) = if same (identity n).node_id id then some n else among id l

-- `byID`
unfoldable pub by_id : Bytes → NodePool → Option Node
by_id id p = if same (identity p.anchor).node_id id then some p.anchor else among id p.vnodes

-- The routes of a node.
pub data Operation : Type 0 where
  identity_op state_op ping_op find_successor_op predecessor_op notify_op rectify_op : Operation
  successor_list_op join_op leave_op finger_table_op rtt_op status_op invariant_op : Operation
  transfer_keys_op transfer_ack_op vnode_info_op list_vnodes_op : Operation

-- The last part of the path.
abbrev pub name_of : Operation → Bytes
name_of identity_op = codes "identity"
name_of state_op = codes "state"
name_of ping_op = codes "ping"
name_of find_successor_op = codes "find_successor"
name_of predecessor_op = codes "predecessor"
name_of notify_op = codes "notify"
name_of rectify_op = codes "rectify"
name_of successor_list_op = codes "successor_list"
name_of join_op = codes "join"
name_of leave_op = codes "leave"
name_of finger_table_op = codes "finger_table"
name_of rtt_op = codes "rtt"
name_of status_op = codes "status"
name_of invariant_op = codes "invariant"
name_of transfer_keys_op = codes "transfer_keys"
name_of transfer_ack_op = codes "transfer_ack"
name_of vnode_info_op = codes "vnode_info"
name_of list_vnodes_op = codes "list_vnodes"

-- `registerNodeRoutes`, in its order.
abbrev pub node_operations : List Operation
node_operations =
    identity_op ∷ state_op ∷ ping_op ∷ find_successor_op ∷ predecessor_op ∷ notify_op ∷ rectify_op
    ∷ successor_list_op ∷ join_op ∷ leave_op ∷ finger_table_op ∷ rtt_op ∷ status_op ∷ invariant_op
    ∷ transfer_keys_op ∷ transfer_ack_op ∷ []

-- A pattern of the mux, the identifier of the node that answers and the operation.
pub record Route : Type 0 where
  pub pattern : Bytes
  pub node_id : Bytes
  pub operation : Operation

unfoldable pub routes_under : Bytes → Bytes → List Operation → List Route
routes_under base id [] = []
routes_under base id (op ∷ l) =
    record { pattern = base ++ name_of op; node_id = id; operation = op } ∷ routes_under base id l

abbrev pub base_of : Bytes → Bytes
base_of id = codes "/chord/node/" ++ id ++ codes "/"

unfoldable pub routes_of : Node → List Route
unfolding routes_under
routes_of n =
    let id = (identity n).node_id in
    let extra = if is_vnode n then vnode_info_op else list_vnodes_op in
    routes_under (base_of id) id node_operations ++ routes_under (base_of id) id (extra ∷ [])

unfoldable pub routes_of_all : List Node → List Route
routes_of_all [] = []
routes_of_all (n ∷ l) = routes_of n ++ routes_of_all l

-- The routes that `Handler` registers; the catch-all answers where the mux chooses none of them.
unfoldable pub handler_routes : NodePool → List Route
handler_routes p =
    routes_under (codes "/chord/") (identity p.anchor).node_id node_operations
    ++ routes_of_all (p.anchor ∷ p.vnodes)

abbrev pub has_prefix : Bytes → Bytes → Bool
has_prefix [] s = true
has_prefix (x ∷ p) [] = false
has_prefix (x ∷ p) (y ∷ s) = x == y && has_prefix p s

-- `strings.TrimPrefix` of a text that has the prefix.
abbrev pub trim_prefix : Bytes → Bytes → Bytes
trim_prefix [] s = s
trim_prefix (x ∷ p) [] = []
trim_prefix (x ∷ p) (y ∷ s) = trim_prefix p s

-- What follows the first slash.
unfoldable pub after_slash : Bytes → Option Bytes
after_slash [] = none
after_slash (x ∷ s) = if x == 47 then some s else after_slash s

abbrev pub exempt_name : Bytes → Bool
exempt_name op =
    same op (codes "ping")
    || (same op (codes "identity") || (same op (codes "rtt") || same op (codes "status")))

abbrev pub exempt_legacy : Bytes → Bool
exempt_legacy path =
    same path (codes "/chord/ping")
    || (same path (codes "/chord/identity")
        || (same path (codes "/chord/rtt") || same path (codes "/chord/status")))

unfoldable pub exempt_paths : Bytes → Bool
exempt_paths path =
    let nested : Bool = elim (after_slash (trim_prefix (codes "/chord/node/") path)) [
      | none ↦ false
      | some op ↦ exempt_name op
    ] in
    if exempt_legacy path
    then true
    else if has_prefix (codes "/chord/node/") path
    then nested
    else false
