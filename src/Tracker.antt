-- ===== src/Tracker.antt =====
-- The reports to the tracker of internal/chord/maintenance.go: `SnapshotHeartbeat`, `ReportToTracker`
-- and `refreshCRLFromTracker`, with `TrackerHeartbeat` of internal/chord/types.go.
pub mod Reports
use chord_dht.Base.{
  ℕ, suc, ◌+◌, ◌-◌, ◌/◌, Bool, true, false, not, ◌&&◌, ◌||◌, ◌==◌, Option, none, some, List, [],
  ◌∷◌, ◌++◌, Bytes, codes, same, is_empty, has, length, ltb, leb, if◌then◌else◌,
}
use chord_dht.Auth.Int64.{second}
use chord_dht.Join.{register_tracker}
use chord_dht.Maintenance.{get_tracker_heartbeat_interval, get_tracker_crl_interval}
use chord_dht.Node.{Node, Options, is_vnode}
use chord_dht.RoutingCache.{stats}
use chord_dht.Types.{NodeInfo, FingerEntry, FingerStatus, fresh, Status, MaintenanceMode, is_active}
use chord_dht.Uri.{Platform}
use chord_dht.World.{Net, World, passed, with_node, now}

-- A heartbeat of one node. `coverage` holds the two numbers of the fraction of fingers that are `ok`.
pub record Snapshot : Type 0 where
  pub status : Status
  pub successor_id : Option Bytes
  pub predecessor_id : Option Bytes
  pub successor_list_size : ℕ
  pub successor_list_capacity : ℕ
  pub coverage : ℕ × ℕ
  pub uptime_seconds : ℕ
  pub maintenance_cycles : ℕ
  pub cert_expires_at : Option ℕ
  pub region : Bytes
  pub maintenance_mode : MaintenanceMode
  pub cache_stats : ℕ × ℕ × ℕ
  pub predecessor_list_size : ℕ
  pub successor_list : List Bytes
  pub predecessor_list : List Bytes
  pub rtt_samples : List (Bytes × ℕ)
  pub finger_nodes : List Bytes

-- The heartbeat of an anchor, with the snapshots of its virtual nodes.
pub record Heartbeat : Type 0 where
  pub snapshot : Snapshot
  pub crl_version : Option ℕ
  pub vnode_heartbeats : List (Bytes × Snapshot)

-- `stringPtrIfNotEmpty`
abbrev pub string_ptr : Bytes → Option Bytes
string_ptr [] = none
string_ptr (c ∷ s) = some (c ∷ s)

unfoldable pub filled_ids : List NodeInfo → List Bytes
filled_ids [] = []
filled_ids (n ∷ l) =
    let rest = filled_ids l in if is_empty n.node_id then rest else n.node_id ∷ rest

unfoldable pub finger_ids : Bytes → List Bytes → List FingerEntry → List Bytes
finger_ids self_id seen [] = []
finger_ids self_id seen (f ∷ l) =
    let id = f.node.node_id in
    elim (f.valid && (not (is_empty id) && not (same id self_id || has id seen))) [
      | true ↦ id ∷ finger_ids self_id (id ∷ seen) l
      | false ↦ finger_ids self_id seen l
    ]

abbrev is_ok : FingerStatus → Bool
is_ok fresh = true
is_ok _ = false

unfoldable pub count_ok : List FingerEntry → ℕ
count_ok [] = 0
count_ok (f ∷ l) = let rest = count_ok l in if is_ok f.status then suc rest else rest

unfoldable pub build_tracker_heartbeat : List (Bytes × ℕ) → ℕ → Node → Snapshot
build_tracker_heartbeat rtts when n = record {
  status = n.status;
  successor_id = string_ptr n.successor.node_id;
  predecessor_id = elim n.predecessor [ none ↦ none | some p ↦ string_ptr p.node_id ];
  successor_list_size = length n.successor_list;
  successor_list_capacity = n.options.successor_list_size;
  coverage = (count_ok n.fingers, length n.fingers);
  uptime_seconds = (when - n.started_at) / second;
  maintenance_cycles = n.maintenance_cycles;
  cert_expires_at = n.options.node_cert_expires_at;
  region = n.region;
  maintenance_mode = n.maintenance_mode;
  cache_stats = elim n.routing_cache [ none ↦ (0, 0, 0) | some c ↦ stats c ];
  predecessor_list_size = length n.predecessor_list;
  successor_list = filled_ids n.successor_list;
  predecessor_list = filled_ids n.predecessor_list;
  rtt_samples = rtts;
  finger_nodes = finger_ids n.self.node_id [] n.fingers;
}

-- The node's identifier and its heartbeat; `rtts` is the snapshot of the round-trip times.
unfoldable pub snapshot_heartbeat : List (Bytes × ℕ) → ℕ → Node → Bytes × Snapshot
snapshot_heartbeat rtts when n = (n.self.node_id, build_tracker_heartbeat rtts when n)

-- The loop over the virtual nodes, with the room that is left.
unfoldable pub batch : List (Bytes × ℕ) → ℕ → ℕ → List Node → List (Bytes × Snapshot)
batch rtts when room [] = []
batch rtts when room (n ∷ l) =
    let skip = batch rtts when room l in
    let rest = batch rtts when (room - 1) l in
    if not (is_vnode n)
    then skip
    else if room == 0
    then []
    else snapshot_heartbeat rtts when n ∷ rest

unfoldable pub batch_limit : Node → ℕ
batch_limit n = if leb n.options.max_vnodes 0 then 8 else n.options.max_vnodes

-- What the tracker answers: an acknowledgement with its CRL version and a CRL, no result at all, the
-- error that it does not know the node, or another error.
pub data HeartbeatReply : Type 0 where
  acknowledged : Option ℕ → Bytes → HeartbeatReply
  no_result unknown_node failed : HeartbeatReply

-- `Heartbeat` and `FetchCRL` of the tracker, by the number of the call.
pub record Reporter : Type 0 where
  pub register : ℕ → Option Bytes
  pub heartbeat : ℕ → Bytes → Heartbeat → HeartbeatReply
  pub fetch_crl : ℕ → Option Bytes

-- What leaves the node: a heartbeat to the tracker, a CRL to `OnCRLRefresh`.
pub data Event : Type 0 where
  heartbeat_sent : Bytes → Heartbeat → Event
  crl_given : Bytes → Event

-- `last.IsZero() || now.Sub(last) >= interval`
unfoldable pub is_due : ℕ → ℕ → Option ℕ → Bool
is_due interval when none = true
is_due interval when (some last) = not (ltb when (last + interval))

-- `a.After(b)`, where the zero time is `none`.
abbrev pub is_after : Option ℕ → Option ℕ → Bool
is_after none b = false
is_after (some a) none = true
is_after (some a) (some b) = ltb b a

module _ (net : Net) (os : Platform) (tracker : Option Reporter) where
  -- `refresh` is whether there is an `OnCRLRefresh`. The other goroutines come between the read of the
  -- time of the last refresh and its write.
  unfoldable pub refresh_crl_from_tracker : Bool → World → List Event × World
  refresh_crl_from_tracker refresh w =
      let when = now net w in
      let last = w.node.last_crl_refresh_at in
      let w1 = passed net w in
      let w2 = with_node (record w1.node { last_crl_refresh_at = some when }) w1 in
      elim tracker [
        | none ↦ ([], w)
        | some t ↦
            let fetched : List Event × World = elim (t.fetch_crl w2.calls) [
              | none ↦ ([], passed net w2)
              | some crl ↦ (crl_given crl ∷ [], passed net w2)
            ] in
            if not refresh || is_vnode w.node
            then ([], w)
            else if not (is_due (get_tracker_crl_interval w.node) when last)
            then ([], w)
            else if is_after w1.node.last_crl_refresh_at last
            then ([], w1)
            else fetched
      ]

  -- The answer of the tracker.
  unfoldable pub use_reply : Reporter → Bool → HeartbeatReply → World → List Event × World
  use_reply t refresh unknown_node w = ([], register_tracker net os (some t.register) w)
  use_reply t refresh failed w = ([], w)
  use_reply t refresh no_result w = ([], w)
  use_reply t refresh (acknowledged version crl) w =
      let asked = refresh_crl_from_tracker refresh w in
      let unsent : List Event × World = elim version [ some _ ↦ ([], w) | none ↦ asked ] in
      if not refresh then ([], w) else if is_empty crl then unsent else (crl_given crl ∷ [], w)

  -- `refresh` is whether there is an `OnCRLRefresh`, `version` what `CurrentCRLVersion` reports, 0 if it
  -- is missing, `peers` the live virtual nodes.
  unfoldable pub compose : List (Bytes × ℕ) → Bool → ℕ → List Node → ℕ → Node → Heartbeat
  compose rtts refresh version peers when n = record {
    snapshot = build_tracker_heartbeat rtts when n;
    crl_version = if refresh then some version else none;
    vnode_heartbeats = batch rtts when (batch_limit n) peers;
  }

  unfoldable pub send_heartbeat :
      List (Bytes × ℕ) → Bool → ℕ → List Node → Reporter → ℕ → World → List Event × World
  send_heartbeat rtts refresh version peers t when w =
      let n = record w.node { last_tracker_heartbeat_at = some when } in
      let beat = compose rtts refresh version peers when n in
      let w1 = with_node n w in
      let (events, w2) =
        use_reply t refresh (t.heartbeat w1.calls n.self.node_id beat) (passed net w1) in
      (heartbeat_sent n.self.node_id beat ∷ events, w2)

  -- The other goroutines come between the read of the time of the last heartbeat and its write.
  unfoldable pub report_to_tracker :
      List (Bytes × ℕ) → Bool → ℕ → List Node → World → List Event × World
  report_to_tracker rtts refresh version peers w = elim tracker [
    | none ↦ ([], w)
    | some t ↦
        let when = now net w in
        let last = w.node.last_tracker_heartbeat_at in
        let w1 = passed net w in
        let sent = send_heartbeat rtts refresh version peers t when w1 in
        if is_vnode w.node || not (is_active w.node.status)
        then ([], w)
        else if not (is_due (get_tracker_heartbeat_interval w.node) when last)
        then ([], w)
        else if is_after w1.node.last_tracker_heartbeat_at last
        then ([], w1)
        else sent
  ]
