-- ===== src/Server/Handlers.antt =====
-- The handlers of internal/httpapi/server.go and the answers of errors.go.
use chord_dht.Auth.Certificates.{Crypto}
use chord_dht.Auth.Verifier.{
  Verifier, Request, Decision, admitted, refused, cache_incoming_cert, middleware,
}
use chord_dht.Base.{
  ℕ, Bool, Option, none, some, List, [], ◌∷◌, Bytes, codes, same, is_empty, if◌then◌else◌,
}
use chord_dht.Join.{handle_join}
use chord_dht.Leave.{handle_leave}
use chord_dht.Lookup.{Scoring, handle_find_successor}
use chord_dht.Node.{Node, identity}
use chord_dht.Rectify.{handle_rectify}
use chord_dht.RoutingCache.{RoutingEntry}
use chord_dht.Server.{
  NodePool, Operation, identity_op, state_op, ping_op, find_successor_op, predecessor_op, notify_op,
  rectify_op, successor_list_op, join_op, leave_op, finger_table_op, rtt_op, status_op,
  invariant_op, transfer_keys_op, transfer_ack_op, vnode_info_op, list_vnodes_op, exempt_paths,
}
use chord_dht.Stabilize.{stabilize}
use chord_dht.Types.{
  NodeInfo, FindSuccessorRequest, FindSuccessorResponse, JoinResponse, RectifyResponse,
  LeaveRequest, VnodeEntry, Code, ApiError, api_error, Reply, reply, refuse, node_not_found,
  invalid_request, method_not_allowed,
}
use chord_dht.Uri.{Platform}
use chord_dht.Views.{
  StateResponse, state_of, InvariantReportResponse, invariant_report, FingerTableResponse,
  finger_table_of, PingResponse, ping_of, PredecessorResponse, predecessor_of, RttResponse,
  rtt_data, NodeStatusResponse, node_status_info, VnodeInfoResponse, vnode_info_of,
}
use chord_dht.World.{Net, World, with_node, now}

-- The JSON decoders of the request bodies: a `FindSuccessorRequest`, the node of a join or a
-- rectification, a `LeaveRequest`, the `batch_seq` of a `TransferKeysRequest` and the `total_keys` of a
-- `TransferAckRequest`.
pub record Decoder : Type 0 where
  pub find : Bytes → Option FindSuccessorRequest
  pub node : Bytes → Option NodeInfo
  pub leave : Bytes → Option LeaveRequest
  pub transfer_keys : Bytes → Option ℕ
  pub transfer_ack : Bytes → Option ℕ

-- What is written as JSON.
pub data Payload : Type 0 where
  identity_body : NodeInfo → Payload
  state_body : StateResponse → Payload
  ping_body : PingResponse → Payload
  found_body : FindSuccessorResponse → Payload
  predecessor_body : PredecessorResponse → Payload
  rectify_body : RectifyResponse → Payload
  list_body : List NodeInfo → Payload
  join_body : JoinResponse → Payload
  leave_body : Bool → Payload
  finger_body : FingerTableResponse → Payload
  rtt_body : RttResponse → Payload
  status_body : NodeStatusResponse → Payload
  invariant_body : InvariantReportResponse → Payload
  transfer_body : ℕ → Payload
  ack_body : Payload
  vnode_body : VnodeInfoResponse → Payload
  vnodes_body : Bytes → List VnodeEntry → Payload
  error_body : Code → Payload

pub record Answer : Type 0 where
  pub status : ℕ
  pub body : Payload

abbrev pub ok_answer : Payload → Answer
ok_answer body = record { status = 200; body = body }

-- `writeError` of an `APIError`; the handlers return no other error.
abbrev pub write_error : ApiError → Answer
write_error e = record { status = e.status_code; body = error_body e.code }

abbrev pub not_allowed : Answer
not_allowed = record { status = 405; body = error_body method_not_allowed }

abbrev pub undecoded : Answer
undecoded = write_error (api_error 400 invalid_request)

-- The body, decoded; a body that cannot be read is not.
abbrev pub decode_json : {A : Type 0} → (Bytes → Option A) → Request → Option A
decode_json f r = elim r.body [ none ↦ none | some b ↦ f b ]

abbrev is_get : Request → Bool
is_get r = same r.method (codes "GET")

abbrev is_post : Request → Bool
is_post r = same r.method (codes "POST")

abbrev answer_of : {A : Type 0} → (A → Payload) → Reply A → Answer
answer_of f (reply a) = ok_answer (f a)
answer_of f (refuse e) = write_error e

-- What a request changes: the node of its route, and the certificates of the verifier, if there is
-- one.
pub record Host : Type 0 where
  pub world : World
  pub verifier : Option Verifier

abbrev pub entry_of : Node → VnodeEntry
entry_of n = record {
  vnode_id = (identity n).node_id;
  index = (vnode_info_of n).index;
  status = (identity n).status;
  proof = none;
}

abbrev pub entries_of : List Node → List VnodeEntry
entries_of [] = []
entries_of (n ∷ l) = entry_of n ∷ entries_of l

abbrev pub list_vnodes : NodePool → Payload
list_vnodes p = vnodes_body (identity p.anchor).node_id (entries_of p.vnodes)

-- `cacheNodeCert` of the raw certificate of a body.
unfoldable pub cache_node_cert : Crypto → Bytes → ℕ → Option Verifier → Option Verifier
cache_node_cert cr raw now verifier = elim verifier [
  | none ↦ none
  | some v ↦
      let cached : Option Verifier = elim (cr.parse_certificate raw) [
        | none ↦ some v
        | some cert ↦ some (cache_incoming_cert cert now v)
      ] in
      if is_empty raw then some v else cached
]

-- The operations that a `GET` reads, and those of transfers.
unfoldable pub read_op : Operation → NodePool → List (Bytes × ℕ) → ℕ → Node → Payload
read_op identity_op p hints when n = identity_body (identity n)
read_op state_op p hints when n = state_body (state_of when n)
read_op ping_op p hints when n = ping_body (ping_of when n)
read_op predecessor_op p hints when n = predecessor_body (predecessor_of n)
read_op successor_list_op p hints when n = list_body n.successor_list
read_op finger_table_op p hints when n = finger_body (finger_table_of n)
read_op rtt_op p hints when n = rtt_body (rtt_data hints n)
read_op status_op p hints when n = status_body (node_status_info n)
read_op invariant_op p hints when n = invariant_body (invariant_report when n)
read_op vnode_info_op p hints when n = vnode_body (vnode_info_of n)
read_op list_vnodes_op p hints when n = list_vnodes p
read_op _ p hints when n = ack_body

module _ {F : Type 0} (sc : Scoring F)
    (visit : List (Bytes × RoutingEntry) → List (Bytes × RoutingEntry)) (hints : List (Bytes × ℕ))
    (net : Net) (os : Platform) (cr : Crypto) (json : Decoder) (pool : NodePool) where
  unfoldable pub post_find : Request → Host → Answer × Host
  post_find r h = elim (decode_json json.find r) [
    | none ↦ (undecoded, h)
    | some req ↦
        let (a, n) = handle_find_successor sc visit (now net h.world) hints req h.world.node in
        (answer_of found_body a, record h { world = with_node n h.world })
  ]

  -- `rectify`, and `notify` where it is enabled. `when` is the time of the verifier.
  unfoldable pub post_rectify : ℕ → Request → Host → Answer × Host
  post_rectify when r h = elim (decode_json json.node r) [
    | none ↦ (undecoded, h)
    | some node ↦
        let (a, w) = handle_rectify os net node h.world in
        (
          answer_of rectify_body a,
          record { world = w; verifier = cache_node_cert cr node.certificate when h.verifier },
        )
  ]

  unfoldable pub post_join : ℕ → Request → Host → Answer × Host
  post_join when r h = elim (decode_json json.node r) [
    | none ↦ (undecoded, h)
    | some node ↦
        let (a, w) = handle_join sc visit hints net os node h.world in
        (
          answer_of join_body a,
          record { world = w; verifier = cache_node_cert cr node.certificate when h.verifier },
        )
  ]

  -- After a leave that is acknowledged the node stabilizes.
  unfoldable pub post_leave : Request → Host → Answer × Host
  post_leave r h = elim (decode_json json.leave r) [
    | none ↦ (undecoded, h)
    | some req ↦
        let (a, n) = handle_leave req h.world.node in
        let w = with_node n h.world in
        let stable = stabilize os net w in
        elim a [
          | refuse e ↦ (write_error e, record h { world = w })
          | reply b ↦ (ok_answer (leave_body b), record h { world = stable })
        ]
  ]

  unfoldable pub post_transfer_keys : Request → Host → Answer × Host
  post_transfer_keys r h = elim (decode_json json.transfer_keys r) [
    | none ↦ (undecoded, h)
    | some batch ↦ (ok_answer (transfer_body batch), h)
  ]

  unfoldable pub post_transfer_ack : Request → Host → Answer × Host
  post_transfer_ack r h = elim (decode_json json.transfer_ack r) [
    | none ↦ (undecoded, h)
    | some _ ↦ (ok_answer ack_body, h)
  ]

  abbrev posted : Request → Host → Answer × Host → Answer × Host
  posted r h done = if is_post r then done else (not_allowed, h)

  -- The handler of a route. `when` is the time of the verifier.
  unfoldable pub handle : Operation → ℕ → Request → Host → Answer × Host
  handle find_successor_op when r h = posted r h (post_find r h)
  handle notify_op when r h = posted r h (
      if h.world.node.options.rectify_endpoint_alias
      then post_rectify when r h
      else (write_error (api_error 404 node_not_found), h))
  handle rectify_op when r h = posted r h (post_rectify when r h)
  handle join_op when r h = posted r h (post_join when r h)
  handle leave_op when r h = posted r h (post_leave r h)
  handle transfer_keys_op when r h = posted r h (post_transfer_keys r h)
  handle transfer_ack_op when r h = posted r h (post_transfer_ack r h)
  handle op when r h =
      if is_get r
      then (ok_answer (read_op op pool hints (now net h.world) h.world.node), h)
      else (not_allowed, h)

  -- Past the verifier: the operation that the mux chose, or the catch-all. A path outside of all
  -- patterns is answered by the mux itself.
  unfoldable pub dispatch : Option Operation → ℕ → Request → Host → Answer × Host
  dispatch none when r h = (write_error (api_error 404 node_not_found), h)
  dispatch (some op) when r h = handle op when r h

  -- What follows the verifier's decision.
  unfoldable pub resolve :
      Option Operation → ℕ → Request → Host → Decision × Verifier → Answer × Host
  resolve chosen when r h (refused status code, v) =
      (record { status = status; body = error_body code }, record h { verifier = some v })
  resolve chosen when r h (admitted, v) = dispatch chosen when r (record h { verifier = some v })

  -- A request to the `Handler`: the verifier, if there is one, and what it lets pass.
  unfoldable pub serve : Option Operation → ℕ → Request → Host → Answer × Host
  serve chosen when r h = elim h.verifier [
    | none ↦ dispatch chosen when r h
    | some v ↦ resolve chosen when r h (middleware os cr exempt_paths v r when)
  ]
