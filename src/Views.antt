-- ===== src/Views.antt =====
-- What a node shows of its state: `State`, `InvariantReport`, `FingerTable`, `Ping`, `Predecessor`,
-- `SuccessorList`, `VNodeInfo`, `NodeStatusInfo` and `RTTData` of internal/chord/node.go.
use chord_dht.Base.{ℕ, Bool, true, false, ◌&&◌, Option, none, some, List, [], ◌∷◌, Bytes}
use chord_dht.Node.{Node, is_stable_base_member}
use chord_dht.RoutingCache.{stats}
use chord_dht.SuccessorList.{Violation, successor_list_violations}
use chord_dht.Types.{NodeInfo, FingerEntry, MaintenanceMode, Status, VnodeProof}

pub record StateResponse : Type 0 where
  pub node_id : Bytes
  pub uri : Bytes
  pub status : Status
  pub predecessor : Option NodeInfo
  pub predecessor_list : List NodeInfo
  pub successor : NodeInfo
  pub successor_list : List NodeInfo
  pub finger_table : List FingerEntry
  pub last_maintenance_at : Option ℕ
  pub next_finger_index : ℕ
  pub maintenance_mode : MaintenanceMode
  pub region : Bytes
  pub successor_list_valid : Bool
  pub last_invariant_check : Option ℕ
  pub stable_base_member : Bool
  pub snapshot_timestamp : ℕ

unfoldable pub state_of : ℕ → Node → StateResponse
state_of now n = record {
  node_id = n.self.node_id;
  uri = n.self.uri;
  status = n.status;
  predecessor = n.predecessor;
  predecessor_list = n.predecessor_list;
  successor = n.successor;
  successor_list = n.successor_list;
  finger_table = n.fingers;
  last_maintenance_at = n.last_maintenance_at;
  next_finger_index = n.next_finger_index;
  maintenance_mode = n.maintenance_mode;
  region = n.region;
  successor_list_valid = n.successor_list_valid;
  last_invariant_check = n.last_invariant_check;
  stable_base_member = is_stable_base_member n;
  snapshot_timestamp = now;
}

pub record InvariantReportResponse : Type 0 where
  pub node_id : Bytes
  pub status : Status
  pub successor : NodeInfo
  pub successor_list : List NodeInfo
  pub successor_list_valid : Bool
  pub last_invariant_check : Option ℕ
  pub violations : List Violation
  pub snapshot_timestamp : ℕ

abbrev none_found : List Violation → Bool
none_found [] = true
none_found (v ∷ l) = false

unfoldable pub invariant_report : ℕ → Node → InvariantReportResponse
invariant_report now n =
    let found = successor_list_violations n.self.node_id n.successor.node_id n.successor_list in
    record {
      node_id = n.self.node_id;
      status = n.status;
      successor = n.successor;
      successor_list = n.successor_list;
      successor_list_valid = n.successor_list_valid && none_found found;
      last_invariant_check = n.last_invariant_check;
      violations = found;
      snapshot_timestamp = now;
    }

pub record FingerTableResponse : Type 0 where
  pub node_id : Bytes
  pub finger_table : List FingerEntry
  pub next_repair_index : ℕ

unfoldable pub finger_table_of : Node → FingerTableResponse
finger_table_of n = record {
  node_id = n.self.node_id;
  finger_table = n.fingers;
  next_repair_index = n.next_finger_index;
}

pub record PingResponse : Type 0 where
  pub node_id : Bytes
  pub status : Status
  pub timestamp : ℕ

unfoldable pub ping_of : ℕ → Node → PingResponse
ping_of now n = record { node_id = n.self.node_id; status = n.status; timestamp = now }

pub record PredecessorResponse : Type 0 where
  pub predecessor : Option NodeInfo
  pub predecessor_list : List NodeInfo

unfoldable pub predecessor_of : Node → PredecessorResponse
predecessor_of n = record { predecessor = n.predecessor; predecessor_list = n.predecessor_list }

pub record RttResponse : Type 0 where
  pub samples : List (Bytes × ℕ)
  pub region : Bytes

-- `samples` is the snapshot of the round-trip times.
unfoldable pub rtt_data : List (Bytes × ℕ) → Node → RttResponse
rtt_data samples n = record { samples = samples; region = n.region }

pub record NodeStatusResponse : Type 0 where
  pub maintenance_mode : MaintenanceMode
  pub last_change_time : ℕ
  pub cache_hits : ℕ
  pub cache_misses : ℕ
  pub cache_size : ℕ
  pub region : Bytes

unfoldable pub node_status_info : Node → NodeStatusResponse
node_status_info n = elim n.routing_cache [
  | none ↦ record {
    maintenance_mode = n.maintenance_mode;
    last_change_time = n.last_change_time;
    cache_hits = 0;
    cache_misses = 0;
    cache_size = 0;
    region = n.region;
  }
  | some c ↦
      let (hits, misses, size) = stats c in
      record {
        maintenance_mode = n.maintenance_mode;
        last_change_time = n.last_change_time;
        cache_hits = hits;
        cache_misses = misses;
        cache_size = size;
        region = n.region;
      }
]

pub record VnodeInfoResponse : Type 0 where
  pub vnode_id : Bytes
  pub anchor_id : Bytes
  pub index : ℕ
  pub proof : Option VnodeProof
  pub anchor_uri : Bytes

unfoldable pub vnode_info_of : Node → VnodeInfoResponse
vnode_info_of n = record {
  vnode_id = n.self.node_id;
  anchor_id = n.options.anchor_id;
  index = n.options.vnode_index;
  proof = n.options.vnode_proof;
  anchor_uri = n.self.uri;
}
