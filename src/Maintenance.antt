-- ===== src/Maintenance.antt =====
-- The rounds of maintenance of internal/chord/maintenance.go: `HealthCheckRing`, `probeNeighbors`,
-- `MaintenanceCycle`, the bodies of the loops and the intervals between them. The round-trip times
-- that the pings record are not part of the node here.
pub mod Modes
pub mod Table
use chord_dht.Base.{
  ℕ, suc, ◌+◌, ◌^◌, ◌%◌, Bool, true, false, not, ◌||◌, Option, none, some, List, [], ◌∷◌, Bytes,
  same, is_empty, ltb, if◌then◌else◌,
}
use chord_dht.Failures.{mark_failure, mark_success}
use chord_dht.Fingers.Repair.{fix_fingers_batch}
use chord_dht.Lookup.{Scoring}
use chord_dht.Node.{Node, Options}
use chord_dht.Recovery.{Tracker, retry_bootstrap_if_singleton, try_recover_from_isolation}
use chord_dht.Rectify.{check_predecessor}
use chord_dht.RoutingCache.{RoutingEntry, cleanup}
use chord_dht.Stabilize.{stabilize}
use chord_dht.Types.{
  NodeInfo, MaintenanceMode, active_maintenance, quiet_maintenance, is_active, is_isolated,
}
use chord_dht.Uri.{Platform}
use chord_dht.World.{Net, World, with_node, passed, now}

module _ (net : Net) where
  unfoldable pub health_check_loop : Bytes → List NodeInfo → World → World
  health_check_loop self_id [] w = w
  health_check_loop self_id (node ∷ l) w =
      let skip = health_check_loop self_id l w in
      let w1 = passed net w in
      let failed =
        health_check_loop self_id l (with_node (mark_failure node.node_id w1.node).1 w1) in
      let seen = health_check_loop self_id l (with_node (mark_success node.node_id w1.node) w1) in
      let pinged : World = elim (net.ping_with_latency w.calls node.uri) [
        | none ↦ failed
        | some rtt ↦ seen
      ] in
      if same node.node_id self_id then skip else pinged

  unfoldable pub health_check_ring : World → World
  health_check_ring w =
      let checked = health_check_loop w.node.self.node_id w.node.successor_list w in
      if not net.has_client then w else checked

  abbrev probe : Bytes → NodeInfo → World → World
  probe self_id node w =
      if is_empty node.node_id || same node.node_id self_id then w else passed net w

  unfoldable pub probe_neighbors : World → World
  probe_neighbors w =
      let self_id = w.node.self.node_id in
      let w1 = probe self_id w.node.successor w in
      let probed : World = elim w.node.predecessor [ none ↦ w1 | some p ↦ probe self_id p w1 ] in
      if not net.has_client then w else probed

-- The end of a round. The count of the cycles is a `uint64`.
unfoldable pub count_cycle : ℕ → Node → Node
count_cycle when n = record n {
  last_maintenance_at = some when;
  maintenance_cycles = (n.maintenance_cycles + 1) % 2 ^ 64;
}

unfoldable pub clean_caches : ℕ → Node → Node
clean_caches when n = record n {
  routing_cache = elim n.routing_cache [ none ↦ none | some c ↦ some (cleanup when c) ];
}

-- An interval of the mode in force, in nanoseconds, or the default where it is not set.
abbrev of_mode : MaintenanceMode → ℕ → ℕ → ℕ → ℕ → ℕ
of_mode active_maintenance active default quiet default' = if ltb 0 active then active else default
of_mode quiet_maintenance active default quiet default' = if ltb 0 quiet then quiet else default'

unfoldable pub get_stabilize_interval : Node → ℕ
get_stabilize_interval n =
    of_mode n.maintenance_mode n.options.stabilize_active_interval 15_000_000_000
      n.options.stabilize_quiet_interval 60_000_000_000

unfoldable pub get_fix_fingers_interval : Node → ℕ
get_fix_fingers_interval n =
    of_mode n.maintenance_mode n.options.fix_fingers_active_interval 10_000_000_000
      n.options.fix_fingers_quiet_interval 30_000_000_000

unfoldable pub get_check_predecessor_interval : Node → ℕ
get_check_predecessor_interval n =
    of_mode n.maintenance_mode n.options.check_predecessor_active_interval 10_000_000_000
      n.options.check_predecessor_quiet_interval 30_000_000_000

unfoldable pub get_latency_probe_interval : Node → ℕ
get_latency_probe_interval n =
    of_mode n.maintenance_mode n.options.latency_probe_interval_active 30_000_000_000
      n.options.latency_probe_interval_quiet 120_000_000_000

unfoldable pub get_tracker_heartbeat_interval : Node → ℕ
get_tracker_heartbeat_interval n =
    of_mode n.maintenance_mode n.options.tracker_heartbeat_active_interval 60_000_000_000
      n.options.tracker_heartbeat_quiet_interval 300_000_000_000

unfoldable pub get_tracker_crl_interval : Node → ℕ
get_tracker_crl_interval n =
    if ltb 0 n.options.tracker_crl_interval then n.options.tracker_crl_interval else 600_000_000_000

module _ {F : Type 0} (sc : Scoring F)
    (visit : List (Bytes × RoutingEntry) → List (Bytes × RoutingEntry)) (hints : List (Bytes × ℕ))
    (net : Net) (os : Platform) (tracker : Option Tracker) where
  abbrev finish_round : World → World
  finish_round w = with_node (count_cycle (now net w) w.node) w

  -- One turn of `runStabilizeLoop`
  unfoldable pub stabilize_round : World → World
  stabilize_round w =
      let (again, w1) = retry_bootstrap_if_singleton net os tracker w in
      let busy = health_check_ring net (stabilize os net w1) in
      let recovered = try_recover_from_isolation net os tracker w in
      finish_round (
        if is_active w.node.status
        then busy
        else if is_isolated w.node.status
        then recovered
        else w)

  unfoldable pub maintenance_cycle : World → World
  maintenance_cycle w =
      let (again, w1) = retry_bootstrap_if_singleton net os tracker w in
      let w2 = stabilize os net (check_predecessor os net w1) in
      let busy = health_check_ring net (fix_fingers_batch sc visit hints net w2) in
      let recovered = try_recover_from_isolation net os tracker w in
      finish_round (
        if is_active w.node.status
        then busy
        else if is_isolated w.node.status
        then recovered
        else w)

  -- One turn of each of the loops that act only while the node is active.
  unfoldable pub fix_fingers_round : World → World
  fix_fingers_round w =
      let fixed = fix_fingers_batch sc visit hints net w in
      if is_active w.node.status then fixed else w

  unfoldable pub check_predecessor_round : World → World
  check_predecessor_round w =
      let checked = check_predecessor os net w in if is_active w.node.status then checked else w

  unfoldable pub latency_probe_round : World → World
  latency_probe_round w =
      let probed = probe_neighbors net w in if is_active w.node.status then probed else w
