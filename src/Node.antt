-- ===== src/Node.antt =====
-- The state of a node: `Options` and `Node` of internal/chord/node.go, with the failure counters and
-- the small readers of node.go that the other files share.
use chord_dht.Base.{
  ℕ, Bool, true, false, ◌&&◌, not, Option, none, some, List, [], ◌∷◌, Bytes, same, is_empty, has,
  ltb, if◌then◌else◌,
}
use chord_dht.RoutingCache.{RoutingCache, invalidate_all}
use chord_dht.Types.{Status, MaintenanceMode, FingerEntry, NodeInfo, VnodeProof, VnodeEntry, core}

-- The options that the modelled operations read. A Go `int` at or below 0, which stands for "not
-- set", is 0.
pub record Options : Type 0 where
  pub successor_list_size : ℕ
  pub predecessor_list_size : ℕ
  pub max_hops : ℕ
  pub failed_threshold : ℕ
  pub stabilize_atomic_state : Bool
  pub validate_after_stabilize : Bool
  pub piggyback_enabled : Bool
  pub node_certificate : Bytes
  pub vnode_index : ℕ
  pub anchor_id : Bytes
  pub vnode_proof : Option VnodeProof
  pub stable_base_members : List Bytes
  -- `int(float64(limit) * siblingCap)` for the cap in force, which is a float.
  pub sibling_share : ℕ → ℕ
  pub fix_fingers_batch_size_active : ℕ
  pub fix_fingers_batch_size_quiet : ℕ
  pub parallel_lookup_enabled : Bool
  pub parallel_lookup_candidates : ℕ
  pub tracker_seed_count : ℕ
  pub rectify_endpoint_alias : Bool
  pub max_vnodes : ℕ
  pub vnode_entries : List VnodeEntry
  pub stable_base_min_size : ℕ
  pub topology_change_window : ℕ
  pub stabilize_active_interval : ℕ
  pub stabilize_quiet_interval : ℕ
  pub fix_fingers_active_interval : ℕ
  pub fix_fingers_quiet_interval : ℕ
  pub check_predecessor_active_interval : ℕ
  pub check_predecessor_quiet_interval : ℕ
  pub latency_probe_interval_active : ℕ
  pub latency_probe_interval_quiet : ℕ
  pub tracker_heartbeat_active_interval : ℕ
  pub tracker_heartbeat_quiet_interval : ℕ
  pub tracker_crl_interval : ℕ
  pub routing_cache_enabled : Bool
  pub routing_cache_size : ℕ
  pub routing_cache_ttl : ℕ
  pub shared_routing_cache : Option RoutingCache
  pub node_cert_expires_at : Option ℕ

pub record Node : Type 0 where
  pub self : NodeInfo
  pub predecessor : Option NodeInfo
  pub predecessor_list : List NodeInfo
  pub successor : NodeInfo
  pub successor_list : List NodeInfo
  pub successor_list_valid : Bool
  pub last_invariant_check : Option ℕ
  pub fingers : List FingerEntry
  pub status : Status
  pub joined_at : ℕ
  pub last_maintenance_at : Option ℕ
  pub next_finger_index : ℕ
  pub maintenance_cycles : ℕ
  pub options : Options
  -- A missing key of the Go map reads as 0.
  pub failures : Bytes → ℕ
  pub bootstrap_seeds : List NodeInfo
  pub region : Bytes
  pub maintenance_mode : MaintenanceMode
  pub stabilize_debounce_count : ℕ
  -- A signal waits in `topologyChangeCh`, which holds one.
  pub topology_change : Bool
  pub routing_cache : Option RoutingCache
  pub last_change_time : ℕ
  pub started_at : ℕ
  pub last_tracker_heartbeat_at : Option ℕ
  pub last_crl_refresh_at : Option ℕ

abbrev pub default_successor_list_size : ℕ
default_successor_list_size = 5

abbrev pub default_predecessor_list_size : ℕ
default_predecessor_list_size = 2

-- `Self`, by `identityLocked`
unfoldable pub identity : Node → NodeInfo
identity n =
    let info = record n.self { status = n.status; joined_at = n.joined_at } in
    if is_empty n.options.anchor_id
    then info
    else record info { anchor_id = n.options.anchor_id; vnode_proof = n.options.vnode_proof }

unfoldable pub is_vnode : Node → Bool
is_vnode n = ltb 0 n.options.vnode_index && not (is_empty n.options.anchor_id)

unfoldable pub is_stable_base_member : Node → Bool
is_stable_base_member n =
    if not (is_empty n.options.anchor_id) && ltb 0 n.options.vnode_index
    then false
    else has n.self.uri n.options.stable_base_members

unfoldable pub emit_topology_change : Node → Node
emit_topology_change n = record n {
  topology_change = true;
  routing_cache = elim n.routing_cache [ none ↦ none | some c ↦ some (invalidate_all c) ];
}

unfoldable pub dedupe_from : Bytes → List Bytes → List NodeInfo → List NodeInfo
dedupe_from exclude seen [] = []
dedupe_from exclude seen (n ∷ l) =
    let skip = dedupe_from exclude seen l in
    let rest = core n ∷ dedupe_from exclude (n.node_id ∷ seen) l in
    if is_empty n.node_id
    then skip
    else if same n.node_id exclude
    then skip
    else if has n.node_id seen
    then skip
    else rest

unfoldable pub dedupe_nodes : List NodeInfo → Bytes → List NodeInfo
unfolding dedupe_from
dedupe_nodes nodes exclude = dedupe_from exclude [] nodes
