-- ===== src/Creation.antt =====
-- `NewNode` of internal/chord/node.go, with the defaults it fills in. The round-trip cache, which
-- `NewRTTCache` makes, is not part of the node here.
pub mod Outcomes
pub mod Table
pub mod Vnodes
use chord_dht.Base.{
  ℕ, zero, suc, ◌+◌, ◌*◌, Bool, true, false, not, ◌&&◌, ◌||◌, Option, none, some, List, [], ◌∷◌,
  Bytes, is_empty, ltb, if◌then◌else◌,
}
use chord_dht.Id.{Outcome, ok, err, panic, m, finger_start}
use chord_dht.Node.{Node, Options, default_successor_list_size}
use chord_dht.Proofs.{Ed25519, derive_vnode_id}
use chord_dht.RoutingCache.{RoutingCache, new_routing_cache}
use chord_dht.Types.{NodeInfo, info, FingerEntry, unknown, initializing, quiet_maintenance, core}
use chord_dht.Uri.{Platform, normalize_uri, new_node_info_from_uri}

abbrev pub or_default : ℕ → ℕ → ℕ
or_default n default = if ltb 0 n then n else default

-- A second, in the nanoseconds of a `time.Duration`
abbrev pub seconds : ℕ → ℕ
seconds n = n * 1_000_000_000

-- The options with their defaults. `MaintenanceInterval` and `PingLivenessTimeout`, which no modelled
-- operation reads, are left out.
unfoldable pub with_defaults : Options → Options
with_defaults o =
    let size = or_default o.successor_list_size default_successor_list_size in
    record o {
      successor_list_size = size;
      max_hops = or_default o.max_hops 161;
      tracker_seed_count = or_default o.tracker_seed_count 5;
      tracker_heartbeat_active_interval =
          or_default o.tracker_heartbeat_active_interval (seconds 60);
      tracker_heartbeat_quiet_interval =
          or_default o.tracker_heartbeat_quiet_interval (seconds 300);
      tracker_crl_interval = or_default o.tracker_crl_interval (seconds 600);
      stable_base_min_size = or_default o.stable_base_min_size (size + 1);
    }

-- The last `count` fingers, from the index `i` on.
unfoldable pub new_fingers : NodeInfo → ℕ → ℕ → Outcome (List FingerEntry)
new_fingers self i zero = ok []
new_fingers self i (suc count) = elim (finger_start self.node_id i) [
  | err ↦ err
  | panic ↦ panic
  | ok start ↦ elim (new_fingers self (suc i) count) [
    | err ↦ err
    | panic ↦ panic
    | ok l ↦ ok (
        record {
          index = i;
          start = start;
          node = core self;
          status = unknown;
          valid = false;
          last_verified = 0;
        }
        ∷ l)
  ]
]

abbrev pub cache_for : Options → Option RoutingCache
cache_for o = elim o.shared_routing_cache [
  | some c ↦ some c
  | none ↦
      if o.routing_cache_enabled
      then some (new_routing_cache o.routing_cache_size o.routing_cache_ttl)
      else none
]

unfoldable pub blank : NodeInfo → List FingerEntry → Options → Bytes → ℕ → Node
blank self fingers o region now = record {
  self = record self { region = region };
  predecessor = none;
  predecessor_list = [];
  successor = core self;
  successor_list = core self ∷ [];
  successor_list_valid = true;
  last_invariant_check = none;
  fingers = fingers;
  status = initializing;
  joined_at = 0;
  last_maintenance_at = none;
  next_finger_index = 0;
  maintenance_cycles = 0;
  options = o;
  failures = λ id. 0;
  bootstrap_seeds = [];
  region = region;
  maintenance_mode = quiet_maintenance;
  stabilize_debounce_count = 0;
  topology_change = false;
  routing_cache = cache_for o;
  last_change_time = 0;
  started_at = now;
  last_tracker_heartbeat_at = none;
  last_crl_refresh_at = none;
}

module _ (os : Platform) (ed : Ed25519) where
  -- The name of the node: derived for a virtual node, the hash of the URI for an anchor.
  unfoldable pub self_info : Bytes → Options → Option NodeInfo
  self_info uri o =
      let virtual : Option NodeInfo = elim (normalize_uri os uri) [
        | none ↦ none
        | some normalized ↦
            some (info (derive_vnode_id ed o.anchor_id o.vnode_index) normalized [] [])
      ] in
      if not (is_empty o.anchor_id) && ltb 0 o.vnode_index
      then virtual
      else new_node_info_from_uri os uri

  -- `region` is `opts.Region`.
  unfoldable pub new_node : Bytes → Options → Bytes → ℕ → Outcome Node
  new_node uri o region now = elim (self_info uri o) [
    | none ↦ err
    | some self ↦ elim (new_fingers self 0 m) [
      | err ↦ err
      | panic ↦ panic
      | ok fingers ↦ ok (blank self fingers (with_defaults o) region now)
    ]
  ]
