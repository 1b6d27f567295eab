-- ===== src/Types.antt =====
-- The data that nodes keep and exchange: internal/chord/types.go, with the errors of errors.go and
-- the proof record of vnode_proof.go. A time is a number, 0 for the zero time; a `nil` slice and an
-- empty one are the empty list.
use chord_dht.Base.{ℕ, Bool, true, false, Option, none, List, [], Bytes}

-- `unset` is the empty string, the zero value of the Go type.
pub data Status : Type 0 where
  unset initializing joining active leaving isolated : Status

-- The comparisons `status == StatusActive` and so on.
abbrev pub is_active : Status → Bool
is_active active = true
is_active _ = false

abbrev pub is_leaving : Status → Bool
is_leaving leaving = true
is_leaving _ = false

abbrev pub is_isolated : Status → Bool
is_isolated isolated = true
is_isolated _ = false

abbrev pub is_joining : Status → Bool
is_joining joining = true
is_joining _ = false

pub data FingerStatus : Type 0 where
  fresh suspicious unknown : FingerStatus

pub data MaintenanceMode : Type 0 where
  active_maintenance quiet_maintenance : MaintenanceMode

-- The numbers are an `int` and two `int64`, each as the number of its bits.
pub record VnodeProof : Type 0 where
  pub vnode_id : Bytes
  pub anchor_id : Bytes
  pub index : ℕ
  pub issued_at : ℕ
  pub expires_at : ℕ
  pub anchor_pub : Bytes
  pub signature : Bytes

pub record VnodeEntry : Type 0 where
  pub vnode_id : Bytes
  pub index : ℕ
  pub status : Status
  pub proof : Option VnodeProof

pub record NodeInfo : Type 0 where
  pub node_id : Bytes
  pub uri : Bytes
  pub status : Status
  pub joined_at : ℕ
  pub last_seen : ℕ
  pub certificate : Bytes
  pub region : Bytes
  pub version : Bytes
  pub capabilities : List Bytes
  pub anchor_id : Bytes
  pub vnode_proof : Option VnodeProof
  pub vnodes : List VnodeEntry

-- What identifies a node, with all else at its zero value.
abbrev pub info : Bytes → Bytes → Bytes → Bytes → NodeInfo
info node_id uri region anchor_id = record {
  node_id = node_id;
  uri = uri;
  status = unset;
  joined_at = 0;
  last_seen = 0;
  certificate = [];
  region = region;
  version = [];
  capabilities = [];
  anchor_id = anchor_id;
  vnode_proof = none;
  vnodes = [];
}

abbrev pub core : NodeInfo → NodeInfo
core n = info n.node_id n.uri n.region n.anchor_id

pub record FingerEntry : Type 0 where
  pub index : ℕ
  pub start : Bytes
  pub node : NodeInfo
  pub status : FingerStatus
  pub valid : Bool
  pub last_verified : ℕ

pub record PiggybackData : Type 0 where
  pub sender_successor_list : List Bytes
  pub sender_region : Bytes
  pub sender_rtt_hints : List (Bytes × ℕ)

pub record FindSuccessorRequest : Type 0 where
  pub id : Bytes
  pub hop_count : ℕ
  pub max_hops : ℕ
  pub visited_nodes : List Bytes
  pub requester_region : Bytes
  pub prefer_region : Bytes

pub record FindSuccessorResponse : Type 0 where
  pub found : Bool
  pub successor : Option NodeInfo
  pub next_hop : Option NodeInfo
  pub hop_count : ℕ
  pub cached : Bool
  pub piggyback : Option PiggybackData

pub record JoinResponse : Type 0 where
  pub successor : NodeInfo
  pub successor_list : List NodeInfo

pub record RectifyResponse : Type 0 where
  pub accepted : Bool
  pub predecessor : Option NodeInfo

-- `Role` is a string in the source; `other_role` stands for every string but the two.
pub data LeaveRole : Type 0 where
  predecessor_leaving successor_leaving other_role : LeaveRole

pub record LeaveRequest : Type 0 where
  pub role : LeaveRole
  pub new_predecessor : Option NodeInfo
  pub new_successor : Option NodeInfo

-- The fields of a `StateResponse` that a caller reads.
pub record RemoteState : Type 0 where
  pub predecessor : Option NodeInfo
  pub successor_list : List NodeInfo

pub data Code : Type 0 where
  invalid_request id_collision node_isolated node_joining max_hops_exceeded node_leaving : Code
  loop_detected upstream_error invalid_vnode_proof proof_expired : Code
  node_not_found missing_auth_headers timestamp_out_of_window nonce_reused : Code
  certificate_required invalid_certificate certificate_revoked invalid_signature : Code
  method_not_allowed : Code

-- `*APIError`, without its text for a human reader.
pub record ApiError : Type 0 where
  pub status_code : ℕ
  pub code : Code

-- `NewAPIError`
abbrev pub api_error : ℕ → Code → ApiError
api_error status code = record { status_code = status; code = code }

-- A Go result `(A, error)`.
pub data Reply (A : Type 0) : Type 0 where
  reply : A → Reply A
  refuse : ApiError → Reply A

abbrev pub is_reply : {A : Type 0} → Reply A → Bool
is_reply (reply a) = true
is_reply (refuse e) = false
