-- ===== src/Tests/Upkeep.antt =====
-- Nodes that are made, maintained and recovered, and what they report.
use chord_dht.Base.{
  ℕ, ◌+◌, ◌≤◌, ◌≡◌, ◌⊎◌, refl, true, false, none, some, [], ◌∷◌, Bytes-discrete, codes, arith,
}
use chord_dht.Creation.{new_node, self_info, new_fingers}
use chord_dht.Creation.Outcomes.{is_ok, value, ok_value}
use chord_dht.Creation.Table.{IsNew, new_node-IsNew}
use chord_dht.Fingers.Table.{IsTable}
use chord_dht.Id.{
  Outcome, finger_start, validate_id, id_to_big, set_string, digit_value, all_hex, is_hex,
  big_to_id, text, replicate, to_lower,
}
use chord_dht.Maintenance.{maintenance_cycle}
use chord_dht.Maintenance.Modes.{
  window_of, Manager, start_manager, on_quiet, switch_mode, Reach, here, next, waits, quiets,
  quiet-rested,
}
use chord_dht.Maintenance.Table.Joins.{maintenance_cycle-IsTable}
use chord_dht.Node.{Node, is_vnode}
use chord_dht.Proofs.{Ed25519}
use chord_dht.Recovery.{recover_loop, try_recover_from_isolation}
use chord_dht.Recovery.Anchored.{try_recover_from_isolation-IsAnchored}
use chord_dht.Recovery.Stranded.{IsAlone, recover_loop-IsAlone}
use chord_dht.RttCache.{Floats, RttCache, get, snapshot, cleanup}
use chord_dht.RttCache.Reads.{IsMap, snapshot-get}
use chord_dht.Stabilize.Writes.{IsAnchored}
use chord_dht.Store.{find}
use chord_dht.Tests.Data.{
  id_a, id_b, node_b, node_c, the_node, options, platform, net, keeps, world, scoring, in_order,
}
use chord_dht.Tracker.{
  Reporter, failed, is_due, Event, heartbeat_sent, compose, send_heartbeat, use_reply,
  report_to_tracker,
}
use chord_dht.Tracker.Reports.{IsReported, report_to_tracker-IsReported}
use chord_dht.Uri.{
  normalize_uri, normalize_url, with_port, written_host, hash_uri, new_node_info_from_uri,
}
use chord_dht.World.{Net, with_node}

abbrev pub ed : Ed25519
ed = record {
  sha1_hex = λ s. id_b;
  decimal = λ n. n ∷ [];
  encode = λ s. s;
  decode = λ s. some s;
  public = λ key. key;
  sign = λ key text. key;
  verify = λ key text sig. true;
}

abbrev made : Outcome Node
made = new_node platform ed (codes "https://a") options [] 0

abbrev fresh_node : Node
fresh_node = value the_node made

made-ok : is_ok made ≡ true
unfolding new_node self_info new_fingers new_node_info_from_uri normalize_uri normalize_url
    with_port written_host hash_uri finger_start id_to_big validate_id set_string digit_value
    all_hex is_hex big_to_id text replicate to_lower Bytes-discrete
made-ok = refl

new_node-IsNew_example : IsNew fresh_node
new_node-IsNew_example =
    new_node-IsNew platform ed (codes "https://a") options [] 0 fresh_node
      (ok_value the_node made made-ok)

maintenance_cycle-IsTable_example :
    IsTable
      (maintenance_cycle scoring in_order [] net platform none (with_node fresh_node world)).node
maintenance_cycle-IsTable_example =
    maintenance_cycle-IsTable net (λ i n h. h) platform none scoring in_order []
      (with_node fresh_node world)
      (new_node-IsNew platform ed (codes "https://a") options [] 0 fresh_node
        (ok_value the_node made made-ok)).table

try_recover_from_isolation-IsAnchored_example :
    IsAnchored (try_recover_from_isolation net platform none world).node
try_recover_from_isolation-IsAnchored_example =
    try_recover_from_isolation-IsAnchored net keeps (λ i n a. a) platform none world

-- Peers that let nobody join.
abbrev closed : Net
closed = record net { join = λ i uri n. none }

recover_loop-IsAlone_example :
    ((recover_loop closed platform none id_a (node_b ∷ node_c ∷ []) world).0 ≡ true)
    × IsAlone (recover_loop closed platform none id_a (node_b ∷ node_c ∷ []) world).1
    × (recover_loop closed platform none id_a (node_b ∷ node_c ∷ []) world
        ≡ recover_loop closed platform none id_a (node_b ∷ []) world)
unfolding Bytes-discrete
recover_loop-IsAlone_example =
    recover_loop-IsAlone closed platform (λ i uri n. refl) id_a node_b (node_c ∷ []) world refl refl

abbrev begun : Manager
begun = start_manager 0 the_node

abbrev waited : Manager
waited = record begun { now = 130 }

run : Reach 120 begun (on_quiet 120 waited)
unfolding start_manager window_of
run = next (next here (waits begun 130 (omega arith))) (quiets waited (omega arith))

quiet-rested_example :
    (the_node.last_change_time ≡ 0) ⊎ (the_node.last_change_time + window_of the_node ≤ 130)
unfolding start_manager window_of on_quiet switch_mode
quiet-rested_example = quiet-rested 0 the_node (on_quiet 120 waited) refl run refl

abbrev reporter : Reporter
reporter = record { register = λ i. none; heartbeat = λ i id beat. failed; fetch_crl = λ i. none }

abbrev first_beat : Event
first_beat = heartbeat_sent id_a (
    compose net platform (some reporter) [] false 0 [] 0
      (record the_node { last_tracker_heartbeat_at = some 0 }))

report_to_tracker-IsReported_example : IsReported net world first_beat
unfolding report_to_tracker is_vnode is_due send_heartbeat use_reply
report_to_tracker-IsReported_example =
    report_to_tracker-IsReported net platform (some reporter) [] false 0 [] world first_beat [] refl

abbrev floats : Floats ℕ
floats = record {
  of_int = λ n. n;
  to_int = λ n. n;
  blend = λ alpha n old. n;
  is_fraction = λ alpha. true;
  default_alpha = 1;
}

abbrev rtts : RttCache ℕ
rtts = record {
  samples =
      (id_a, record { ewma_ms = 7; updated_at = 10 })
      ∷ (id_b, record { ewma_ms = 9; updated_at = 90 })
      ∷ [];
  alpha = 1;
  expiry = 50;
}

distinct : IsMap floats rtts
unfolding Bytes-discrete
distinct = (refl, (refl, tt))

snapshot-get_example :
    (find id_b (snapshot floats 100 rtts) ≡ get floats id_b 100 rtts)
    × (get floats id_b 120 (cleanup floats 100 rtts) ≡ get floats id_b 120 rtts)
    × IsMap floats (cleanup floats 100 rtts)
snapshot-get_example = snapshot-get floats rtts id_b 100 120 distinct (omega arith)
